-- ===== src/Cli/Json/Read.antt =====
-- What the client of apps/true-tick-cli/src/main.rs escapes is read back by the rules of RFC 8259.
use mathlib.Core.List.{append_assoc}
use true_tick.Base.{
  ℕ, suc, ◌+◌, ◌-◌, ◌*◌, ◌/◌, ◌%◌, ◌<◌, ◌≡◌, ◌≢◌, subst, ltb, ◌==◌, if◌then◌else◌, true, Option,
  none, some, [], ◌∷◌, ◌++◌, arith, option_map, refl, inl, inr, Bool-cases, ap, ◌∙◌, sym,
}
use true_tick.Base.Text.{Text, codes, in_range, is_ascii_digit}
use true_tick.Cli.Json.{lower_hex, escaped, json_escape, json_string}

-- A JSON text of a string: within it plainly, after a backslash, or after `\u` and some digits.
pub data Mode : Type 0 where
  plain slash : Mode
  unicode : (digits value : ℕ) → Mode

pub data Move : Type 0 where
  finish reject : Move
  read : ℕ → Move
  go : Mode → Move

abbrev pub hex_value : ℕ → Option ℕ
hex_value b =
    if is_ascii_digit b
    then some (b - 48)
    else (if in_range 97 102 b
        then some (b - 87)
        else (if in_range 65 70 b then some (b - 55) else none))

-- The character of four digits, where it has one byte.
abbrev pub four_digits : ℕ → ℕ → Move
four_digits digits value =
    if digits == 3
    then (if ltb value 128 then read value else reject)
    else go (unicode (suc digits) value)

abbrev pub digit_move : ℕ → ℕ → Option ℕ → Move
digit_move digits value none = reject
digit_move digits value (some d) = four_digits digits (value * 16 + d)

abbrev pub after_slash : ℕ → Move
after_slash b =
    if b == 34
    then read 34
    else (if b == 92
        then read 92
        else (if b == 47
            then read 47
            else (if b == 98
                then read 8
                else (if b == 102
                    then read 12
                    else (if b == 110
                        then read 10
                        else (if b == 114
                            then read 13
                            else (if b == 116
                                then read 9
                                else (if b == 117 then go (unicode 0 0) else reject))))))))

abbrev pub move : Mode → ℕ → Move
move plain b =
    if b == 34
    then finish
    else (if b == 92 then go slash else (if ltb b 32 then reject else read b))
move slash b = after_slash b
move (unicode digits value) b = digit_move digits value (hex_value b)

abbrev pub onto : ℕ → Text × Text → Text × Text
onto b (s, rest) = (b ∷ s, rest)

-- The string up to the closing quote, and what stands behind it.
abbrev pub read_body : Mode → Text → Option (Text × Text)
read_body mode [] = none
read_body mode (b ∷ s) = elim (move mode b) [
  | finish ↦ some ([], s)
  | reject ↦ none
  | read c ↦ option_map (onto c) (read_body plain s)
  | go next ↦ read_body next s
]

abbrev pub read_string : Text → Option (Text × Text)
read_string [] = none
read_string (b ∷ s) = if b == 34 then read_body plain s else none

hex_value-lower_hex : (d : ℕ) → d < 16 → hex_value (lower_hex d) ≡ some d
hex_value-lower_hex d h = ground (arith, h)

read_body-go :
    (mode next : Mode) (b : ℕ) (s : Text)
    → move mode b ≡ go next
    → read_body mode (b ∷ s) ≡ read_body next s
read_body-go mode next b s h = rw (read_body, h) refl

read_body-read :
    (mode : Mode) (b c : ℕ) (s : Text)
    → move mode b ≡ read c
    → read_body mode (b ∷ s) ≡ option_map (onto c) (read_body plain s)
read_body-read mode b c s h = rw (read_body, h) refl

-- A character is read back from its escape.
abbrev IsReadBack : ℕ → Type 0
IsReadBack b =
    (s : Text) → read_body plain (escaped b ++ s) ≡ option_map (onto b) (read_body plain s)

control-IsReadBack :
    (b : ℕ) (s : Text)
    → b < 32
    → read_body plain (codes "\\u00" ++ lower_hex (b / 16) ∷ lower_hex (b % 16) ∷ s)
      ≡ option_map (onto b) (read_body plain s)
control-IsReadBack b s h =
    read_body-go (unicode 2 0) (unicode 3 (0 + b / 16)) (lower_hex (b / 16))
      (lower_hex (b % 16) ∷ s) (ap (digit_move 2 0) (hex_value-lower_hex (b / 16) (omega arith)))
    ∙ read_body-read (unicode 3 (0 + b / 16)) (lower_hex (b % 16)) b s (
        ap (digit_move 3 (0 + b / 16)) (hex_value-lower_hex (b % 16) (omega arith))
        ∙ rw (small, same) refl)
  where
    value : ℕ
    value = (0 + b / 16) * 16 + b % 16

    small : ltb value 128 ≡ true
    small = ground (arith, h)

    same : value ≡ b
    same = omega arith

unescaped-IsReadBack : (b : ℕ) → b ≢ 34 → b ≢ 92 → b ≢ 10 → b ≢ 13 → b ≢ 9 → IsReadBack b
unescaped-IsReadBack b q r n c t s = elim (Bool-cases (ltb b 32)) [
  | inl below ↦
      let known : escaped b ≡ codes "\\u00" ++ lower_hex (b / 16) ∷ lower_hex (b % 16) ∷ [] =
        ground (arith, q, r, n, c, t, below) in
      ap (λ u. read_body plain (u ++ s)) known ∙ control-IsReadBack b s (ground (arith, below))
  | inr above ↦
      let known : escaped b ≡ b ∷ [] = ground (arith, q, r, n, c, t, above) in
      ap (λ u. read_body plain (u ++ s)) known
      ∙ read_body-read plain b b s (ground (arith, q, r, above))
]

escaped-IsReadBack : (b : ℕ) → IsReadBack b
escaped-IsReadBack b =
    either 34 (λ s. refl)
      λ q.
        either 92 (λ s. refl)
          λ r.
            either 10 (λ s. refl)
              λ n.
                either 13 (λ s. refl)
                  λ c. either 9 (λ s. refl) λ t. unescaped-IsReadBack b q r n c t
  where
    either : (c : ℕ) → IsReadBack c → (b ≢ c → IsReadBack b) → IsReadBack b
    either c known other = elim (Bool-cases (b == c)) [
      | inl e ↦ subst IsReadBack (sym (equal e)) known
      | inr e ↦ other (λ same. ground (arith, e, same))
    ]
      where
        equal : (b == c) ≡ true → b ≡ c
        equal e = ground (arith, e)

read_body-json_escape :
    (s rest : Text) → read_body plain (json_escape s ++ 34 ∷ rest) ≡ some (s, rest)
unfolding json_escape
read_body-json_escape [] rest = refl
read_body-json_escape (b ∷ s) rest =
    ap (λ t. read_body plain t) (append_assoc (escaped b) (json_escape s) (34 ∷ rest))
    ∙ escaped-IsReadBack b (json_escape s ++ 34 ∷ rest)
    ∙ ap (option_map (onto b)) (read_body-json_escape s rest)

-- A string in the JSON form of the status is read back, by the rules of RFC 8259, as the text and
-- the rest behind its closing quote.
pub read_string-json_string : (s rest : Text) → read_string (json_string s ++ rest) ≡ some (s, rest)
read_string-json_string s rest =
    ap (λ t. read_body plain t) (append_assoc (json_escape s) (34 ∷ []) rest)
    ∙ read_body-json_escape s rest
