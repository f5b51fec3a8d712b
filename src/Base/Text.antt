-- ===== src/Base/Text.antt =====
-- Text as the bytes of its UTF-8 form: characters as groups of bytes, the ASCII tests, trimming,
-- splitting and decimal numbers of Rust's `str`.
use Prim.Native.Char.{code}
use Prim.Native.String.{String}
use Prim.Native.Nat.{ℕ, zero, suc, ◌+◌, ◌-◌, ◌*◌, ◌/◌, ◌%◌, ◌^◌}
use mathlib.Core.Bool.{Bool, true, false, ◌&&◌, ◌||◌}
use mathlib.Core.List.{List, [], ◌∷◌, ◌++◌, map}
use mathlib.Core.Option.{Option, none, some}
use true_tick.Base.Tests.{ltb, leb, ◌==◌, if◌then◌else◌}
use true_tick.Base.Lists.{length, is_empty}
use true_tick.Base.Bytes.{bytes_eq}

abbrev pub Text : Type 0
Text = List ℕ

-- A literal of ASCII characters.
abbrev pub codes : String → Text
codes String.[] = []
codes (String.◌∷◌ c s) = code c ∷ codes s

abbrev pub in_range : ℕ → ℕ → ℕ → Bool
in_range low high b = leb low b && leb b high

abbrev pub is_ascii_digit : ℕ → Bool
is_ascii_digit = in_range 48 57

abbrev pub is_ascii_uppercase : ℕ → Bool
is_ascii_uppercase = in_range 65 90

abbrev pub is_ascii_alphabetic : ℕ → Bool
is_ascii_alphabetic b = is_ascii_uppercase b || in_range 97 122 b

abbrev pub is_ascii_alphanumeric : ℕ → Bool
is_ascii_alphanumeric b = is_ascii_digit b || is_ascii_alphabetic b

-- Tab, line feed, form feed, carriage return, space.
abbrev pub is_ascii_whitespace : ℕ → Bool
is_ascii_whitespace b = b == 9 || b == 10 || b == 12 || b == 13 || b == 32

abbrev pub lower_byte : ℕ → ℕ
lower_byte b = if is_ascii_uppercase b then b + 32 else b

abbrev pub to_ascii_lowercase : Text → Text
to_ascii_lowercase = map lower_byte

abbrev pub eq_ignore_ascii_case : Text → Text → Bool
eq_ignore_ascii_case s t = bytes_eq (to_ascii_lowercase s) (to_ascii_lowercase t)

abbrev pub any {ℓ} : {A : Type ℓ} → (A → Bool) → List A → Bool
any test [] = false
any test (x ∷ xs) = test x || any test xs

abbrev pub all {ℓ} : {A : Type ℓ} → (A → Bool) → List A → Bool
all test [] = true
all test (x ∷ xs) = test x && all test xs

abbrev pub one_of : List ℕ → ℕ → Bool
one_of bytes b = any (λ c. b == c) bytes

abbrev pub starts_with : Text → Text → Bool
starts_with [] s = true
starts_with (p ∷ ps) [] = false
starts_with (p ∷ ps) (b ∷ s) = p == b && starts_with ps s

abbrev pub contains : Text → Text → Bool
contains part [] = is_empty part
contains part (b ∷ s) = starts_with part (b ∷ s) || contains part s

abbrev pub reverse_onto {ℓ} : {A : Type ℓ} → List A → List A → List A
reverse_onto [] acc = acc
reverse_onto (x ∷ xs) acc = reverse_onto xs (x ∷ acc)

abbrev pub reverse {ℓ} : {A : Type ℓ} → List A → List A
reverse xs = reverse_onto xs []

abbrev pub ends_with : Text → Text → Bool
ends_with part s = starts_with (reverse part) (reverse s)

abbrev pub concat {ℓ} : {A : Type ℓ} → List (List A) → List A
concat [] = []
concat (x ∷ xs) = x ++ concat xs

-- The characters: a byte goes on to the bytes 0x80 to 0xBF that follow it.
abbrev pub is_continuation : ℕ → Bool
is_continuation = in_range 128 191

abbrev pub lead : ℕ → List Text → List Text
lead b [] = (b ∷ []) ∷ []
lead b ([] ∷ cs) = (b ∷ []) ∷ cs
lead b ((c ∷ rest) ∷ cs) =
    if is_continuation c then (b ∷ c ∷ rest) ∷ cs else (b ∷ []) ∷ (c ∷ rest) ∷ cs

abbrev pub chars : Text → List Text
chars [] = []
chars (b ∷ s) = lead b (chars s)

-- `char::is_control`: U+0000 to U+001F and U+007F to U+009F.
abbrev pub is_control : Text → Bool
is_control (b ∷ []) = ltb b 32 || b == 127
is_control (b ∷ c ∷ []) = b == 194 && in_range 128 159 c
is_control _ = false

-- `char::is_whitespace`: the characters of the property White_Space.
abbrev pub is_whitespace : Text → Bool
is_whitespace (b ∷ []) = in_range 9 13 b || b == 32
is_whitespace (b ∷ c ∷ []) = b == 194 && (c == 133 || c == 160)
is_whitespace (b ∷ c ∷ d ∷ []) =
    (b == 225 && c == 154 && d == 128)
    || (b == 226 && c == 128 && (in_range 128 138 d || d == 168 || d == 169 || d == 175))
    || (b == 226 && c == 129 && d == 159)
    || (b == 227 && c == 128 && d == 128)
is_whitespace _ = false

abbrev pub skip_while {ℓ} : {A : Type ℓ} → (A → Bool) → List A → List A
skip_while test [] = []
skip_while test (x ∷ xs) = let rest = skip_while test xs in if test x then rest else x ∷ xs

abbrev pub trim_start : Text → Text
trim_start s = concat (skip_while is_whitespace (chars s))

abbrev pub trim : Text → Text
trim s = concat (reverse (skip_while is_whitespace (reverse (skip_while is_whitespace (chars s)))))

-- `split` at each byte that passes the test: never the empty list.
abbrev split_step : Bool → ℕ → List Text → List Text
split_step true b parts = [] ∷ parts
split_step false b [] = (b ∷ []) ∷ []
split_step false b (part ∷ parts) = (b ∷ part) ∷ parts

abbrev pub split : (ℕ → Bool) → Text → List Text
split at [] = [] ∷ []
split at (b ∷ s) = split_step (at b) b (split at s)

-- `split_once` at one byte.
abbrev cons_left : ℕ → Option (Text × Text) → Option (Text × Text)
cons_left b none = none
cons_left b (some (left, right)) = some (b ∷ left, right)

abbrev pub split_once : ℕ → Text → Option (Text × Text)
split_once mark [] = none
split_once mark (b ∷ s) =
    let rest = split_once mark s in if b == mark then some ([], s) else cons_left b rest

-- The decimal form of a number below 10 ^ 40, as every integer type of 128 bits or fewer is.
unfoldable pub digits_within : ℕ → ℕ → Text
digits_within zero n = []
digits_within (suc k) n =
    let more = digits_within k (n / 10) in
    if ltb n 10 then (48 + n) ∷ [] else more ++ (48 + n % 10) ∷ []

unfoldable pub show : ℕ → Text
show n = digits_within 40 n

-- Leading zeros up to a width, and leading spaces.
abbrev pub repeat : ℕ → ℕ → Text
repeat zero b = []
repeat (suc n) b = b ∷ repeat n b

abbrev pub padded : ℕ → ℕ → Text → Text
padded fill width s = repeat (width - length s) fill ++ s

-- Decimal digits to a number below the limit; a greater number is an error.
unfoldable pub digits_value : ℕ → ℕ → Text → Option ℕ
digits_value limit acc [] = some acc
digits_value limit acc (b ∷ s) =
    let value = acc * 10 + (b - 48) in
    let rest = digits_value limit value s in
    if is_ascii_digit b && ltb value limit then rest else none

-- `parse` of an unsigned type of the given number of bits: one plus sign may stand in front.
abbrev pub parse_unsigned : ℕ → Text → Option ℕ
parse_unsigned bits [] = none
parse_unsigned bits (b ∷ []) = digits_value (2 ^ bits) 0 (b ∷ [])
parse_unsigned bits (b ∷ c ∷ s) =
    if b == 43 then digits_value (2 ^ bits) 0 (c ∷ s) else digits_value (2 ^ bits) 0 (b ∷ c ∷ s)
