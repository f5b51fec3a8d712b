-- ===== src/Diagnostics/Privacy/Scan.antt =====
-- crates/tick-diagnostics/src/privacy.rs: the six scanners. `before` is the text in front of the
-- index, its last byte first, and `rest` the bytes from the index on; fuel is the length of the
-- text, and each turn moves the index forward.
use true_tick.Base.{
  ℕ, zero, suc, ◌+◌, ◌-◌, leb, ltb, ◌==◌, if◌then◌else◌, Bool, true, false, not, ◌&&◌, ◌||◌, Option,
  none, some, List, [], ◌∷◌, ◌++◌, length, take, drop,
}
use true_tick.Base.Bytes.{bytes_eq}
use true_tick.Base.Text.{
  Text, codes, is_ascii_digit, is_ascii_alphabetic, is_ascii_alphanumeric, is_ascii_whitespace,
  eq_ignore_ascii_case, one_of, reverse, reverse_onto, any, contains,
}

abbrev pub max_pii_findings : ℕ
max_pii_findings = 32

pub data PiiKind : Type 0 where
  user_profile_path machine_name environment_variable ip_address email_address
        windows_account_name :
      PiiKind

pub record PiiSpan : Type 0 where
  pub start : ℕ
  pub end : ℕ
  pub kind : PiiKind

abbrev pub Spans : Type 0
Spans = List PiiSpan

abbrev pub is_segment_byte : ℕ → Bool
is_segment_byte b = not (is_ascii_whitespace b) && not (one_of (codes "\"'<>|?*:;") b)

abbrev pub is_ident_byte : ℕ → Bool
is_ident_byte b = is_ascii_alphanumeric b || one_of (codes "_-.") b

abbrev pub is_local_byte : ℕ → Bool
is_local_byte b = is_ascii_alphanumeric b || one_of (codes "._%+-=!#$'*/?^`{|}~&") b

abbrev pub is_domain_byte : ℕ → Bool
is_domain_byte b = is_ascii_alphanumeric b || b == 45

-- How many bytes in front of the text pass the test.
abbrev pub run : (ℕ → Bool) → Text → ℕ
run test [] = 0
run test (b ∷ s) = let more = run test s in if test b then suc more else 0

-- What a scanner finds at an index: nothing, an index out of bounds, or a span of bytes, counted
-- from the index to its start and to its end, where the scan goes on.
pub data Hit : Type 0 where
  miss panic : Hit
  hit : (back : ℕ) (ahead : ℕ) → Hit

-- The loop that the scanners share: a miss moves on by one byte, a hit is pushed, ends the scan at
-- the cap, and moves on to its end. `none` is a panic.
unfoldable pub scan : PiiKind → (Text → Text → Hit) → ℕ → ℕ → ℕ → Text → Text → Spans → Option Spans
scan kind at cap zero index before rest spans = some spans
scan kind at cap (suc fuel) index before [] spans = some spans
scan kind at cap (suc fuel) index before (b ∷ rest) spans = elim (at before (b ∷ rest)) [
  | miss ↦ scan kind at cap fuel (suc index) (b ∷ before) rest spans
  | panic ↦ none
  | hit back ahead ↦
      let found : PiiSpan = record { start = index - back; end = index + ahead; kind = kind } in
      let more = spans ++ found ∷ [] in
      elim (leb cap (length more)) [
        | true ↦ some more
        | false ↦
            scan kind at cap fuel (index + ahead) (reverse_onto (take ahead (b ∷ rest)) before)
              (drop ahead (b ∷ rest)) more
      ]
]

abbrev pub scan_all : PiiKind → (Text → Text → Hit) → Text → Spans → ℕ → Option Spans
scan_all kind at text spans cap = scan kind at cap (length text) 0 [] text spans

abbrev pub first_is : (ℕ → Bool) → Text → Bool
first_is test [] = false
first_is test (b ∷ s) = test b

-- `X:\Users\` is nine bytes and `\Users\` seven; `none` where neither stands at the index.
unfoldable pub profile_base : Text → Option ℕ
profile_base text =
    if first_is is_ascii_alphabetic text
      && bytes_eq (take 2 (drop 1 text)) (codes ":\\")
      && eq_ignore_ascii_case (take 6 (drop 3 text)) (codes "users\\")
    then some 9
    else (if bytes_eq (take 1 text) (codes "\\")
          && eq_ignore_ascii_case (take 6 (drop 1 text)) (codes "users\\")
        then some 7
        else none)

abbrev pub user_profile_at : Text → Text → Hit
user_profile_at before text = elim (profile_base text) [
  | none ↦ miss
  | some base ↦
      let end = base + run is_segment_byte (drop base text) in
      let trailing = run (one_of (codes "\\/.,")) (reverse (take end text)) in
      hit 0 (end - trailing)
]

unfoldable pub scan_user_profile_path : Text → Spans → ℕ → Option Spans
scan_user_profile_path = scan_all PiiKind.user_profile_path user_profile_at

abbrev pub machine_name_at : Text → Text → Hit
machine_name_at before text =
    if eq_ignore_ascii_case (take 12 text) (codes "COMPUTERNAME")
      && not (first_is (λ b. b == 37) before)
    then hit 0 (if first_is (λ b. b == 37) (drop 12 text) then 13 else 12)
    else (if bytes_eq (take 2 text) (codes "\\\\") && first_is is_ident_byte (drop 2 text)
        then hit 0 (2 + run is_ident_byte (drop 2 text))
        else miss)

unfoldable pub scan_machine_name : Text → Spans → ℕ → Option Spans
scan_machine_name = scan_all PiiKind.machine_name machine_name_at

-- The loop breaks at white space, and at any byte but `%` that is more than 64 after the index.
abbrev pub environment_variable_at : Text → Text → Hit
environment_variable_at before text =
    let n = run (λ b. not (b == 37) && not (is_ascii_whitespace b)) (take 64 (drop 1 text)) in
    if first_is (λ b. b == 37) text && first_is (λ b. b == 37) (drop (suc n) text) && ltb 0 n
    then hit 0 (n + 2)
    else miss

unfoldable pub scan_environment_variable : Text → Spans → ℕ → Option Spans
scan_environment_variable = scan_all PiiKind.environment_variable environment_variable_at

-- The bytes of the given number of octets, with a dot after each but the last.
unfoldable pub octets : ℕ → Text → Option ℕ
octets zero text = none
octets (suc more) text =
    let n = run is_ascii_digit (take 3 text) in
    if n == 0 || first_is is_ascii_digit (drop n text)
    then none
    else (if more == 0
        then some n
        else (if first_is (λ b. b == 46) (drop n text)
            then elim (octets more (drop (suc n) text)) [ none ↦ none | some k ↦ some (suc n + k) ]
            else none))

abbrev pub in_number : ℕ → Bool
in_number b = is_ascii_digit b || b == 46

abbrev pub ip_address_at : Text → Text → Hit
ip_address_at before text = elim (octets 4 text) [
  | none ↦ miss
  | some n ↦
      if not (first_is in_number before) && not (first_is in_number (drop n text))
      then hit 0 n
      else miss
]

unfoldable pub scan_ip_address : Text → Spans → ℕ → Option Spans
scan_ip_address = scan_all PiiKind.ip_address ip_address_at

abbrev pub email_address_at : Text → Text → Hit
email_address_at before text =
    let back = run is_local_byte before in
    let n = run (λ b. is_domain_byte b || b == 46) (drop 1 text) in
    let domain = take n (drop 1 text) in
    if first_is (λ b. b == 64) text
      && ltb 0 back
      && any (λ b. b == 46) domain
      && not (first_is (λ b. b == 46) domain)
      && not (first_is (λ b. b == 46) (reverse domain))
      && not (contains (codes "..") domain)
    then hit back (suc n)
    else miss

unfoldable pub scan_email_address : Text → Spans → ℕ → Option Spans
scan_email_address = scan_all PiiKind.email_address email_address_at

-- The byte before the domain is read at `domain_start - 1`, out of bounds where that start is 0.
abbrev pub windows_account_name_at : Text → Text → Hit
windows_account_name_at before text =
    let back = run is_ident_byte before in
    let n = run is_ident_byte (drop 1 text) in
    if not (first_is (λ b. b == 92) text) || first_is (λ b. b == 92) before || back == 0
    then miss
    else elim (drop back before) [
      | [] ↦ panic
      | c ∷ _ ↦
          if c == 92
            || c == 58
            || n == 0
            || eq_ignore_ascii_case (reverse (take back before)) (codes "users")
          then miss
          else hit back (suc n)
    ]

unfoldable pub scan_windows_account_name : Text → Spans → ℕ → Option Spans
scan_windows_account_name = scan_all PiiKind.windows_account_name windows_account_name_at
