-- ===== src/Diagnostics/Privacy/Bounds.antt =====
-- What the scanners of crates/tick-diagnostics/src/privacy.rs find lies within the text and has at
-- least one byte.
use true_tick.Base.{
  ℕ, zero, suc, ◌+◌, ◌<◌, ◌≤◌, ◌≡◌, refl, Bool, true, false, not, ◌&&◌, ◌||◌, [], ◌∷◌, none, some,
  length, length-take, length-drop, take, drop, arith, ◌==◌, ap, sym, ◌∙◌, if◌then◌else◌, map,
  of_both, and-true, Option-cases, inl, inr, ◌⊎◌,
}
use true_tick.Base.Bytes.{bytes_eq, eq_of_bytes_eq}
use true_tick.Base.Text.{
  Text, codes, reverse, reverse_onto, eq_ignore_ascii_case, to_ascii_lowercase, lower_byte, one_of,
  is_ascii_digit, is_ascii_alphabetic, is_ascii_whitespace,
}
use true_tick.Diagnostics.Privacy.Scan.{
  Hit, miss, hit, run, first_is, is_segment_byte, is_ident_byte, is_local_byte, is_domain_byte,
  profile_base, user_profile_at, machine_name_at, environment_variable_at, octets, ip_address_at,
  email_address_at, windows_account_name_at,
}

-- A hit starts in the text before the index, and ends behind the index, within the rest.
abbrev pub InText : (Text → Text → Hit) → Type 0
InText at =
    (before text : Text) (back ahead : ℕ)
    → at before text ≡ hit back ahead
    → (back ≤ length before) × (0 < ahead) × (ahead ≤ length text)

run-le : (test : ℕ → Bool) (s : Text) → run test s ≤ length s
run-le test [] = omega arith
run-le test (b ∷ s) =
    of_both (λ n. n ≤ length (b ∷ s)) (test b) (omega (arith, run-le test s)) (omega arith)

first_is-drop :
    (test : ℕ → Bool) (n : ℕ) (s : Text) → first_is test (drop n s) ≡ true → n < length s
first_is-drop test zero [] h = cc
first_is-drop test zero (b ∷ s) h = omega arith
first_is-drop test (suc n) [] h = cc
first_is-drop test (suc n) (b ∷ s) h = omega (arith, first_is-drop test n s h)

length-map : (f : ℕ → ℕ) (s : Text) → length (map f s) ≡ length s
length-map f [] = refl
length-map f (b ∷ s) = ap suc (length-map f s)

length-bytes_eq : (s t : Text) → bytes_eq s t ≡ true → length s ≡ length t
length-bytes_eq s t h = ap length (eq_of_bytes_eq s t h)

length-ignore_case : (s t : Text) → eq_ignore_ascii_case s t ≡ true → length s ≡ length t
length-ignore_case s t h =
    sym (length-map lower_byte s)
    ∙ length-bytes_eq (to_ascii_lowercase s) (to_ascii_lowercase t) h
    ∙ length-map lower_byte t

pub environment_variable_in : InText environment_variable_at
environment_variable_in before text back ahead h =
    let n = run (λ b. not (b == 37) && not (is_ascii_whitespace b)) (take 64 (drop 1 text)) in
    ground (arith, h, first_is-drop (λ b. b == 37) (suc n) text)

pub email_address_in : InText email_address_at
email_address_in before [] back ahead h = cc
email_address_in before (b ∷ text) back ahead h =
    ground (arith, h, run-le is_local_byte before, run-le (λ b. is_domain_byte b || b == 46) text)

pub windows_account_name_in : InText windows_account_name_at
windows_account_name_in before [] back ahead h = cc
windows_account_name_in before (b ∷ text) back ahead h =
    ground (arith, h, run-le is_ident_byte before, run-le is_ident_byte text)

token_size :
    (text : Text)
    → eq_ignore_ascii_case (take 12 text) (codes "COMPUTERNAME") ≡ true
    → 12 ≤ length text
token_size text h =
    omega (arith, length-ignore_case (take 12 text) (codes "COMPUTERNAME") h, length-take 12 text)

share_size : (text : Text) → bytes_eq (take 2 text) (codes "\\\\") ≡ true → 2 ≤ length text
share_size text h =
    omega (arith, length-bytes_eq (take 2 text) (codes "\\\\") h, length-take 2 text)

share_run : (text : Text) → 2 ≤ length text → 2 + run is_ident_byte (drop 2 text) ≤ length text
share_run text h = omega (arith, run-le is_ident_byte (drop 2 text), length-drop 2 text)

machine_name_choice :
    (token percent share : Bool) (host size : ℕ)
    → (token ≡ true → 12 ≤ size)
    → (percent ≡ true → 12 < size)
    → (share ≡ true → 2 + host ≤ size)
    → (back ahead : ℕ)
    → (if token
        then hit 0 (if percent then 13 else 12)
        else (if share then hit 0 (2 + host) else miss))
      ≡ hit back ahead
    → (back ≡ 0) × (0 < ahead) × (ahead ≤ size)
machine_name_choice token percent share host size p q r back ahead h = ground (arith, h, p, q, r)

pub machine_name_in : InText machine_name_at
machine_name_in before text back ahead h =
    let token = eq_ignore_ascii_case (take 12 text) (codes "COMPUTERNAME") in
    let share = bytes_eq (take 2 text) (codes "\\\\") in
    let (none_back, some_ahead, within) =
      machine_name_choice (token && not (first_is (λ b. b == 37) before))
        (first_is (λ b. b == 37) (drop 12 text)) (share && first_is is_ident_byte (drop 2 text))
        (run is_ident_byte (drop 2 text)) (length text)
        (λ t. token_size text (and-true token _ t).0) (first_is-drop (λ b. b == 37) 12 text)
        (λ t. share_run text (share_size text (and-true share _ t).0)) back ahead h in
    (omega arith, some_ahead, within)

octets_in : (k : ℕ) (text : Text) (n : ℕ) → octets k text ≡ some n → (0 < n) × (n ≤ length text)
unfolding octets
octets_in zero text n h = cc
octets_in (suc k) text n h =
    let d = run is_ascii_digit (take 3 text) in
    let digits = run-le is_ascii_digit (take 3 text) in
    let taken = length-take 3 text in
    let left = length-drop (suc d) text in
    elim (Option-cases (octets k (drop (suc d) text))) [
      | inl e ↦ ground (arith, h, e, digits, taken)
      | inr (m, e) ↦ ground (
        arith,
        h,
        e,
        digits,
        taken,
        left,
        first_is-drop (λ b. b == 46) d text,
        octets_in k (drop (suc d) text) m e,
      )
    ]

pub ip_address_in : InText ip_address_at
ip_address_in before text back ahead h = elim (Option-cases (octets 4 text)) [
  | inl e ↦ ground (arith, h, e)
  | inr (n, e) ↦ ground (arith, h, e, octets_in 4 text n e)
]

-- A run that stops before the end, at a byte that fails the test.
data Fails (test : ℕ → Bool) : Text → Type 0 where
  here : (b : ℕ) (s : Text) → test b ≡ false → Fails test (b ∷ s)
  there : (b : ℕ) {s : Text} → Fails test s → Fails test (b ∷ s)

module _ (test : ℕ → Bool) where
  run-Fails : (s : Text) → Fails test s → run test s < length s
  run-Fails _ (here b s e) = rw e (omega arith)
  run-Fails _ (there b {s = s} more) =
      of_both (λ n. n < length (b ∷ s)) (test b) (omega (arith, run-Fails s more)) (omega arith)

  Fails-reverse_onto : (s acc : Text) → Fails test acc → Fails test (reverse_onto s acc)
  Fails-reverse_onto [] acc h = h
  Fails-reverse_onto (b ∷ s) acc h = Fails-reverse_onto s (b ∷ acc) (there b h)

  reverse_onto-Fails : (s acc : Text) → Fails test s → Fails test (reverse_onto s acc)
  reverse_onto-Fails _ acc (here b s e) = Fails-reverse_onto s (b ∷ acc) (here b acc e)
  reverse_onto-Fails _ acc (there b {s = s} more) = reverse_onto-Fails s (b ∷ acc) more

pub length-reverse_onto : (s acc : Text) → length (reverse_onto s acc) ≡ length s + length acc
length-reverse_onto [] acc = omega arith
length-reverse_onto (b ∷ s) acc = omega (arith, length-reverse_onto s (b ∷ acc))

abbrev is_trailing : ℕ → Bool
is_trailing = one_of (codes "\\/.,")

fragment_size :
    (n : ℕ) (text : Text)
    → eq_ignore_ascii_case (take 6 (drop n text)) (codes "users\\") ≡ true
    → n + 6 ≤ length text
fragment_size n text h = omega (
  arith,
  length-ignore_case (take 6 (drop n text)) (codes "users\\") h,
  length-take 6 (drop n text),
  length-drop n text,
)

drive_letter :
    (text : Text) → first_is is_ascii_alphabetic text ≡ true → Fails is_trailing (take 2 text)
drive_letter [] h = cc
drive_letter (b ∷ s) h = here b (take 1 s) (ground (arith, h))

fragment_letter :
    (text : Text)
    → eq_ignore_ascii_case (take 6 (drop 1 text)) (codes "users\\") ≡ true
    → Fails is_trailing (take 2 text)
fragment_letter [] h = absurd (omega (arith, fragment_size 1 [] h))
fragment_letter (a ∷ []) h = absurd (omega (arith, fragment_size 1 (a ∷ []) h))
fragment_letter (a ∷ b ∷ s) h =
    let same = eq_of_bytes_eq (to_ascii_lowercase (take 6 (b ∷ s))) (codes "users\\") h in
    there a (here b [] (ground (arith, same)))

base_choice :
    (drive relative : Bool) (base : ℕ)
    → (if drive then some 9 else (if relative then some 7 else none)) ≡ some base
    → ((drive ≡ true) × (base ≡ 9)) ⊎ ((relative ≡ true) × (base ≡ 7))
base_choice drive relative base h = ground (arith, h)

-- The base holds a byte among its first two that is not trimmed from the end.
profile_base_in :
    (text : Text) (base : ℕ)
    → profile_base text ≡ some base
    → (2 ≤ base) × (base ≤ length text) × Fails is_trailing (take 2 text)
unfolding profile_base
profile_base_in text base h =
    let letter = first_is is_ascii_alphabetic text in
    let colon = bytes_eq (take 2 (drop 1 text)) (codes ":\\") in
    let fragment = eq_ignore_ascii_case (take 6 (drop 3 text)) (codes "users\\") in
    let slash = bytes_eq (take 1 text) (codes "\\") in
    let relative = eq_ignore_ascii_case (take 6 (drop 1 text)) (codes "users\\") in
    elim (base_choice (letter && colon && fragment) (slash && relative) base h) [
      | inl (e, size) ↦
          let (start, users) = and-true (letter && colon) fragment e in
          (
            omega arith,
            omega (arith, fragment_size 3 text users),
            drive_letter text (and-true letter colon start).0,
          )
      | inr (e, size) ↦
          let users = (and-true slash relative e).1 in
          (omega arith, omega (arith, fragment_size 1 text users), fragment_letter text users)
    ]

Fails-take :
    (test : ℕ → Bool) (n : ℕ) (s : Text) → 2 ≤ n → Fails test (take 2 s) → Fails test (take n s)
Fails-take test zero s two h = absurd (omega arith)
Fails-take test (suc zero) s two h = absurd (omega arith)
Fails-take test (suc (suc n)) [] two h = elim h [ ]
Fails-take test (suc (suc n)) (b ∷ _) two (here _ _ e) = here b _ e
Fails-take test (suc (suc n)) (b ∷ []) two (there _ h) = elim h [ ]
Fails-take test (suc (suc n)) (b ∷ c ∷ s) two (there _ (there _ h)) = elim h [ ]
Fails-take test (suc (suc n)) (b ∷ c ∷ s) two (there _ (here _ _ e)) = there b (here c (take n s) e)

pub user_profile_in : InText user_profile_at
user_profile_in before text back ahead h = elim (Option-cases (profile_base text)) [
  | inl e ↦ ground (arith, h, e)
  | inr (base, e) ↦
      let (two, within, fails) = profile_base_in text base e in
      let end = base + run is_segment_byte (drop base text) in
      let trimmed = run-Fails is_trailing (reverse (take end text)) (
        reverse_onto-Fails is_trailing (take end text) []
          (Fails-take is_trailing end text (omega arith) fails)) in
      ground (
        arith,
        h,
        e,
        trimmed,
        run-le is_segment_byte (drop base text),
        length-drop base text,
        length-reverse_onto (take end text) [],
        length-take end text,
      )
]
