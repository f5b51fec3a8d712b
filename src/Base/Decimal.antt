-- ===== src/Base/Decimal.antt =====
-- Decimal numbers: what `to_string` writes, `parse` reads back.
use Prim.Native.Nat.{ℕ, zero, suc, ◌+◌, ◌-◌, ◌*◌, ◌/◌, ◌%◌, ◌^◌, ◌<◌, ◌≤◌}
use mathlib.Core.Path.{◌≡◌, refl, ap, ◌∙◌}
use mathlib.Core.Bool.{false, ◌&&◌}
use mathlib.Core.List.{[], ◌∷◌, ◌++◌}
use mathlib.Core.Option.{some}
use mathlib.Core.Logic.{inl, inr}
use native.Mathlib.Nat.{pow-suc}
use native.Mathlib.Omega.{arith}
use true_tick.Base.Tests.{ltb, ◌==◌, Bool-cases, of_both}
use true_tick.Base.Lists.{length, All, All-append, length-append}
use true_tick.Base.Options.{and_then}
use true_tick.Base.Text.{Text, is_ascii_digit, digits_within, show, digits_value, parse_unsigned}

abbrev pub IsDigit : ℕ → Type 0
IsDigit b = (48 ≤ b) × (b ≤ 57)

All-digits_within : (k n : ℕ) → All IsDigit (digits_within k n)
unfolding digits_within
All-digits_within zero n = tt
All-digits_within (suc k) n = elim (Bool-cases (ltb n 10)) [
  | inl e ↦ rw e ((omega arith, ground (arith, e)), tt)
  | inr e ↦ rw e (
      All-append IsDigit (digits_within k (n / 10)) ((48 + n % 10) ∷ [])
        (All-digits_within k (n / 10)) ((omega arith, omega arith), tt))
]

pub All-show : (n : ℕ) → All IsDigit (show n)
unfolding show
All-show n = All-digits_within 40 n

digits_value-snoc :
    (limit acc b : ℕ) (s : Text)
    → digits_value limit acc (s ++ b ∷ [])
      ≡ and_then (digits_value limit acc s) (λ v. digits_value limit v (b ∷ []))
unfolding digits_value
digits_value-snoc limit acc b [] = refl
digits_value-snoc limit acc b (c ∷ s) =
    let value = acc * 10 + (c - 48) in
    elim (Bool-cases (is_ascii_digit c && ltb value limit)) [
      | inl e ↦ rw e (digits_value-snoc limit value b s)
      | inr e ↦ rw e
    ]

one_digit :
    (limit acc d : ℕ)
    → d < 10
    → acc * 10 + d < limit
    → digits_value limit acc ((48 + d) ∷ []) ≡ some (acc * 10 + d)
unfolding digits_value
one_digit limit acc d small room = let back : 48 + d - 48 ≡ d = omega arith in ground (arith, back)

digits_value-within :
    (limit k n : ℕ) → n < 10 ^ k → n < limit → digits_value limit 0 (digits_within k n) ≡ some n
unfolding digits_within digits_value
digits_value-within limit zero n h room = let none_left : n ≡ 0 = omega arith in rw none_left
digits_value-within limit (suc k) n h room = elim (Bool-cases (ltb n 10)) [
  | inl e ↦
      rw e (one_digit limit 0 n (ground (arith, e)) (omega arith) ∙ ap (λ m. some m) (omega arith))
  | inr e ↦
      let p = pow-suc 10 k in
      let rest = digits_value-within limit k (n / 10) (omega arith) (omega arith) in
      rw (e, digits_value-snoc limit 0 (48 + n % 10) (digits_within k (n / 10)), rest)
        (one_digit limit (n / 10) (n % 10) (omega arith) (omega arith)
          ∙ ap (λ m. some m) (omega arith))
]

parse-digits :
    (bits : ℕ) (s : Text)
    → 0 < length s
    → All IsDigit s
    → parse_unsigned bits s ≡ digits_value (2 ^ bits) 0 s
parse-digits bits [] some_digits h = absurd (omega arith)
parse-digits bits (b ∷ []) some_digits h = refl
parse-digits bits (b ∷ c ∷ s) some_digits h =
    let no_plus : (b == 43) ≡ false = ground (arith, h.0) in rw no_plus

digits_within-some : (k n : ℕ) → 0 < length (digits_within (suc k) n)
unfolding digits_within
digits_within-some k n =
    of_both (λ s. 0 < length s) (ltb n 10) {x = (48 + n) ∷ []}
      {y = digits_within k (n / 10) ++ (48 + n % 10) ∷ []} (omega arith)
      (omega (arith, length-append (digits_within k (n / 10)) ((48 + n % 10) ∷ [])))

pub show-some : (n : ℕ) → 0 < length (show n)
unfolding show
show-some n = digits_within-some 39 n

pub parse-show : (bits n : ℕ) → n < 2 ^ bits → n < 10 ^ 40 → parse_unsigned bits (show n) ≡ some n
unfolding show
parse-show bits n room fits =
    parse-digits bits (show n) (digits_within-some 39 n) (All-digits_within 40 n)
    ∙ digits_value-within (2 ^ bits) 40 n fits room
