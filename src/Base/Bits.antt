-- ===== src/Base/Bits.antt =====
-- Laws of the bit operations at variables: one equation for the lowest digit, then induction on
-- the width.
use Prim.Native.Nat.{
  ℕ, zero, suc, ◌+◌, ◌*◌, ◌/◌, ◌%◌, ◌^◌, ◌-◌, ◌≤◌, ◌<◌, max, digits, bitwise, differ, bit_or,
  bit_xor, bit_and, min, bit_and-bitwise, bit_or-bitwise, bit_xor-bitwise,
}
use mathlib.Core.Path.{◌≡◌, ◌∙◌, refl}
use native.Mathlib.Nat.{pow-suc}
use native.Mathlib.Omega.{arith}

-- One unit of fuel above the first number adds nothing to the digits read.
one_more :
    (z : ℕ → ℕ) (op : ℕ → ℕ → ℕ) (fuel x y : ℕ)
    → x ≤ fuel
    → digits z op (suc fuel) x y ≡ digits z op fuel x y
one_more z op zero zero y within = refl
one_more z op zero (suc x) y within = absurd (omega arith)
one_more z op (suc fuel) zero y within = refl
one_more z op (suc fuel) (suc x) y within =
    rw (one_more z op fuel (suc x / 2) (y / 2) (omega arith))

spare :
    (z : ℕ → ℕ) (op : ℕ → ℕ → ℕ) (more fuel x y : ℕ)
    → fuel ≡ more + x
    → digits z op fuel x y ≡ bitwise z op x y
spare z op zero fuel x y sum = let bare : fuel ≡ x = omega arith in rw bare
spare z op (suc more) zero x y sum = absurd (omega arith)
spare z op (suc more) (suc fuel) x y sum =
    one_more z op fuel x y (omega arith) ∙ spare z op more fuel x y (omega arith)

-- The digits of a half, read with the fuel of the whole.
halved :
    (z : ℕ → ℕ) (op : ℕ → ℕ → ℕ) (x y : ℕ)
    → digits z op x (suc x / 2) y ≡ bitwise z op (suc x / 2) y
halved z op x y = spare z op (x - suc x / 2) x (suc x / 2) y (omega arith)

xor_low : (a b : ℕ) → bit_xor a b ≡ bit_xor (a / 2) (b / 2) * 2 + differ (a % 2) (b % 2)
xor_low zero b = simp bit_xor-bitwise (omega arith)
xor_low (suc a) b = simp bit_xor-bitwise (rw (halved (λ y. y) differ a (b / 2)))

differ_digits : (x y : ℕ) → x < 2 → y < 2 → differ x y ≡ (x + y) % 2
differ_digits zero zero p q = refl
differ_digits zero (suc zero) p q = refl
differ_digits (suc zero) zero p q = refl
differ_digits (suc zero) (suc zero) p q = refl
differ_digits zero (suc (suc y)) p q = absurd (omega arith)
differ_digits (suc zero) (suc (suc y)) p q = absurd (omega arith)
differ_digits (suc (suc x)) y p q = absurd (omega arith)

-- The digit of an exclusive or, in the form that `omega` reads.
xor_digit : (a b : ℕ) → bit_xor a b ≡ bit_xor (a / 2) (b / 2) * 2 + (a % 2 + b % 2) % 2
xor_digit a b =
    omega (arith, xor_low a b, differ_digits (a % 2) (b % 2) (omega arith) (omega arith))

pub bit_xor-lt : (k a b : ℕ) → a < 2 ^ k → b < 2 ^ k → bit_xor a b < 2 ^ k
bit_xor-lt zero zero zero p q = omega arith
bit_xor-lt zero (suc a) b p q = absurd (omega arith)
bit_xor-lt zero zero (suc b) p q = absurd (omega arith)
bit_xor-lt (suc k) a b p q =
    let e = pow-suc 2 k in
    omega (arith, xor_digit a b, bit_xor-lt k (a / 2) (b / 2) (omega arith) (omega arith))

pub bit_xor_cancel : (k a b c : ℕ) → a < 2 ^ k → b < 2 ^ k → bit_xor a c ≡ bit_xor b c → a ≡ b
bit_xor_cancel zero a b c p q h = omega arith
bit_xor_cancel (suc k) a b c p q h =
    let e = pow-suc 2 k in
    omega (
      arith,
      xor_digit a c,
      xor_digit b c,
      bit_xor_cancel k (a / 2) (b / 2) (c / 2) (omega arith) (omega arith)
          (omega (arith, xor_digit a c, xor_digit b c)),
    )

pub bit_xor_cancel_left : (k a b c : ℕ) → b < 2 ^ k → c < 2 ^ k → bit_xor a b ≡ bit_xor a c → b ≡ c
bit_xor_cancel_left zero a b c p q h = omega arith
bit_xor_cancel_left (suc k) a b c p q h =
    let e = pow-suc 2 k in
    omega (
      arith,
      xor_digit a b,
      xor_digit a c,
      bit_xor_cancel_left k (a / 2) (b / 2) (c / 2) (omega arith) (omega arith)
          (omega (arith, xor_digit a b, xor_digit a c)),
    )

-- A digit above all of `a` stays.
pub bit_xor_top : (k a b : ℕ) → a < 2 ^ k → b < 2 ^ k → 2 ^ k ≤ bit_xor a (2 ^ k + b)
bit_xor_top zero zero zero p q = omega arith
bit_xor_top zero (suc a) b p q = absurd (omega arith)
bit_xor_top zero zero (suc b) p q = absurd (omega arith)
bit_xor_top (suc k) a b p q =
    let e = pow-suc 2 k in
    let half : (2 ^ suc k + b) / 2 ≡ 2 ^ k + b / 2 = omega arith in
    let digit = xor_digit a (2 ^ suc k + b) in
    omega (arith, rw half at digit, bit_xor_top k (a / 2) (b / 2) (omega arith) (omega arith))

or_digit : (a b : ℕ) → bit_or a b ≡ bit_or (a / 2) (b / 2) * 2 + max (a % 2) (b % 2)
or_digit zero b = simp bit_or-bitwise (omega arith)
or_digit (suc a) b = simp bit_or-bitwise (rw (halved (λ y. y) max a (b / 2)))

pub bit_or-lt : (k a b : ℕ) → a < 2 ^ k → b < 2 ^ k → bit_or a b < 2 ^ k
bit_or-lt zero zero zero p q = omega arith
bit_or-lt zero (suc a) b p q = absurd (omega arith)
bit_or-lt zero zero (suc b) p q = absurd (omega arith)
bit_or-lt (suc k) a b p q =
    let e = pow-suc 2 k in
    omega (arith, or_digit a b, bit_or-lt k (a / 2) (b / 2) (omega arith) (omega arith))

pub bit_or-eq-zero : (k a b : ℕ) → a < 2 ^ k → b < 2 ^ k → bit_or a b ≡ 0 → (a ≡ 0) × (b ≡ 0)
bit_or-eq-zero zero a b p q h = omega arith
bit_or-eq-zero (suc k) a b p q h =
    let e = pow-suc 2 k in
    omega (
      arith,
      or_digit a b,
      bit_or-eq-zero k (a / 2) (b / 2) (omega arith) (omega arith) (omega (arith, or_digit a b)),
    )

pub bit_xor_self : (k a : ℕ) → a < 2 ^ k → bit_xor a a ≡ 0
bit_xor_self zero zero p = refl
bit_xor_self zero (suc a) p = absurd (omega arith)
bit_xor_self (suc k) a p =
    let e = pow-suc 2 k in omega (arith, xor_digit a a, bit_xor_self k (a / 2) (omega arith))

-- A disjunction of numbers that share no digit is their sum.
bit_or-zero : (k a : ℕ) → a < 2 ^ k → bit_or a 0 ≡ a
bit_or-zero zero a p = let e : a ≡ 0 = omega arith in rw e
bit_or-zero (suc k) a p =
    let e = pow-suc 2 k in omega (arith, or_digit a 0, bit_or-zero k (a / 2) (omega arith))

-- `high << 4 | low` of two nibbles.
pub bit_or-nibbles : (h l : ℕ) → h < 16 → l < 16 → bit_or (h * 16) l ≡ h * 16 + l
bit_or-nibbles h l p q =
    let high : h * 16 / 2 / 2 / 2 / 2 ≡ h = omega arith in
    let low : l / 2 / 2 / 2 / 2 ≡ 0 = omega arith in
    let top : bit_or (h * 16 / 2 / 2 / 2 / 2) (l / 2 / 2 / 2 / 2) ≡ h =
      rw (high, low) (bit_or-zero 4 h p) in
    omega (
      arith,
      or_digit (h * 16) l,
      or_digit (h * 16 / 2) (l / 2),
      or_digit (h * 16 / 2 / 2) (l / 2 / 2),
      or_digit (h * 16 / 2 / 2 / 2) (l / 2 / 2 / 2),
      top,
    )

and_digit : (a b : ℕ) → bit_and a b ≡ bit_and (a / 2) (b / 2) * 2 + min (a % 2) (b % 2)
and_digit zero b = simp bit_and-bitwise (omega arith)
and_digit (suc a) b = simp bit_and-bitwise (rw (halved (λ y. 0) min a (b / 2)))

bit_and-zero : (k a : ℕ) → a < 2 ^ k → bit_and a 0 ≡ 0
bit_and-zero zero a p = let e : a ≡ 0 = omega arith in rw e
bit_and-zero (suc k) a p =
    let e = pow-suc 2 k in omega (arith, and_digit a 0, bit_and-zero k (a / 2) (omega arith))

-- `byte & 0x0F`.
pub bit_and_nibble : (a : ℕ) → a < 256 → bit_and a 15 ≡ a % 16
bit_and_nibble a p = omega (
  arith,
  and_digit a 15,
  and_digit (a / 2) 7,
  and_digit (a / 2 / 2) 3,
  and_digit (a / 2 / 2 / 2) 1,
  bit_and-zero 4 (a / 2 / 2 / 2 / 2) (omega arith),
)
