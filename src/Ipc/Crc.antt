-- ===== src/Ipc/Crc.antt =====
-- `crc32` of crates/tick-ipc/src/lib.rs, and what it detects.
use true_tick.Base.{
  ℕ, zero, suc, ◌+◌, ◌-◌, ◌/◌, ◌%◌, ◌^◌, ◌<◌, ◌≡◌, ◌≢◌, refl, List, [], ◌∷◌, ◌++◌, arith, All, ◌⊎◌,
  inl, inr, sym, ◌∙◌,
}
use true_tick.Base.Bits.{bit_xor-lt, bit_xor_cancel, bit_xor_cancel_left, bit_xor_top}
use true_tick.Base.Bytes.{IsByte}
use Prim.Native.Nat.{bit_and, bit_xor}

-- One round of the inner loop. The mask is `(crc & 1).wrapping_neg()`.
crc_round : ℕ → ℕ
crc_round crc =
    let mask = (2 ^ 32 - crc % 2) % 2 ^ 32 in bit_xor (crc / 2) (bit_and 0xedb88320 mask)

crc_rounds : ℕ → ℕ → ℕ
unfolding crc_round
crc_rounds zero crc = crc
crc_rounds (suc rounds) crc = crc_rounds rounds (crc_round crc)

crc_bytes : ℕ → List ℕ → ℕ
unfolding crc_rounds
crc_bytes crc [] = crc
crc_bytes crc (byte ∷ bytes) = crc_bytes (crc_rounds 8 (bit_xor crc byte)) bytes

-- `!crc` is the complement to 2 ^ 32 - 1.
unfoldable pub crc32 : List ℕ → ℕ
unfolding crc_bytes
crc32 bytes = 0xffffffff - crc_bytes 0xffffffff bytes

parity : (c : ℕ) → (c % 2 ≡ 0) ⊎ (c % 2 ≡ 1)
parity c = omega arith

crc_round_even : (c : ℕ) → c % 2 ≡ 0 → crc_round c ≡ bit_xor (c / 2) 0
unfolding crc_round
crc_round_even c e = rw e

crc_round_odd : (c : ℕ) → c % 2 ≡ 1 → crc_round c ≡ bit_xor (c / 2) (2 ^ 31 + 0x6db88320)
unfolding crc_round
crc_round_odd c e = rw e

crc_round-lt : (c : ℕ) → c < 2 ^ 32 → crc_round c < 2 ^ 32
crc_round-lt c h = elim (parity c) [
  | inl e ↦ rw (crc_round_even c e) (bit_xor-lt 32 (c / 2) 0 (omega arith) (omega arith))
  | inr e ↦
      rw (crc_round_odd c e)
        (bit_xor-lt 32 (c / 2) (2 ^ 31 + 0x6db88320) (omega arith) (omega arith))
]

-- The top bit of the result tells whether the polynomial was added, so a round loses nothing.
even_ne_odd :
    (c d : ℕ) → c < 2 ^ 32 → d < 2 ^ 32 → c % 2 ≡ 0 → d % 2 ≡ 1 → crc_round c ≢ crc_round d
even_ne_odd c d h k e o q = omega (
  arith,
  crc_round_even c e,
  crc_round_odd d o,
  bit_xor-lt 31 (c / 2) 0 (omega arith) (omega arith),
  bit_xor_top 31 (d / 2) 0x6db88320 (omega arith) (omega arith),
)

same_parity :
    (c d x : ℕ)
    → c < 2 ^ 32
    → d < 2 ^ 32
    → c % 2 ≡ d % 2
    → bit_xor (c / 2) x ≡ bit_xor (d / 2) x
    → c ≡ d
same_parity c d x h k p q =
    omega (arith, bit_xor_cancel 32 (c / 2) (d / 2) x (omega arith) (omega arith) q)

crc_round_injective : (c d : ℕ) → c < 2 ^ 32 → d < 2 ^ 32 → crc_round c ≡ crc_round d → c ≡ d
crc_round_injective c d h k q = elim (parity c) [
  | inl e ↦ elim (parity d) [
    | inl e' ↦
        same_parity c d 0 h k (omega arith) (sym (crc_round_even c e) ∙ q ∙ crc_round_even d e')
    | inr o ↦ absurd (even_ne_odd c d h k e o q)
  ]
  | inr o ↦ elim (parity d) [
    | inl e ↦ absurd (even_ne_odd d c k h e o (sym q))
    | inr o' ↦
        same_parity c d _ h k (omega arith) (sym (crc_round_odd c o) ∙ q ∙ crc_round_odd d o')
  ]
]

crc_rounds-lt : (n c : ℕ) → c < 2 ^ 32 → crc_rounds n c < 2 ^ 32
unfolding crc_rounds
crc_rounds-lt zero c h = h
crc_rounds-lt (suc n) c h = crc_rounds-lt n (crc_round c) (crc_round-lt c h)

crc_rounds_injective :
    (n c d : ℕ) → c < 2 ^ 32 → d < 2 ^ 32 → crc_rounds n c ≡ crc_rounds n d → c ≡ d
unfolding crc_rounds
crc_rounds_injective zero c d h k q = q
crc_rounds_injective (suc n) c d h k q =
    crc_round_injective c d h k
      (crc_rounds_injective n (crc_round c) (crc_round d) (crc_round-lt c h) (crc_round-lt d k) q)

crc_byte-lt : (c b : ℕ) → c < 2 ^ 32 → IsByte b → crc_rounds 8 (bit_xor c b) < 2 ^ 32
crc_byte-lt c b h k = crc_rounds-lt 8 (bit_xor c b) (bit_xor-lt 32 c b h (omega arith))

crc_bytes-lt : (c : ℕ) (bs : List ℕ) → c < 2 ^ 32 → All IsByte bs → crc_bytes c bs < 2 ^ 32
unfolding crc_bytes
crc_bytes-lt c [] h k = h
crc_bytes-lt c (b ∷ bs) h k =
    crc_bytes-lt (crc_rounds 8 (bit_xor c b)) bs (crc_byte-lt c b h k.0) k.1

crc_bytes_injective :
    (c d : ℕ) (bs : List ℕ)
    → c < 2 ^ 32
    → d < 2 ^ 32
    → All IsByte bs
    → crc_bytes c bs ≡ crc_bytes d bs
    → c ≡ d
unfolding crc_bytes
crc_bytes_injective c d [] h k a q = q
crc_bytes_injective c d (b ∷ bs) h k a q = bit_xor_cancel 32 c d b h k (
    crc_rounds_injective 8 (bit_xor c b) (bit_xor d b) (bit_xor-lt 32 c b h (omega arith))
      (bit_xor-lt 32 d b k (omega arith))
      (crc_bytes_injective (crc_rounds 8 (bit_xor c b)) (crc_rounds 8 (bit_xor d b)) bs
        (crc_byte-lt c b h a.0) (crc_byte-lt d b k a.0) a.1 q))

crc_bytes_single :
    (c : ℕ) (xs ys : List ℕ) (a b : ℕ)
    → c < 2 ^ 32
    → All IsByte (xs ++ a ∷ ys)
    → IsByte b
    → crc_bytes c (xs ++ a ∷ ys) ≡ crc_bytes c (xs ++ b ∷ ys)
    → a ≡ b
unfolding crc_bytes
crc_bytes_single c [] ys a b h k l q = bit_xor_cancel_left 32 c a b (omega arith) (omega arith) (
    crc_rounds_injective 8 (bit_xor c a) (bit_xor c b) (bit_xor-lt 32 c a h (omega arith))
      (bit_xor-lt 32 c b h (omega arith))
      (crc_bytes_injective (crc_rounds 8 (bit_xor c a)) (crc_rounds 8 (bit_xor c b)) ys
        (crc_byte-lt c a h k.0) (crc_byte-lt c b h l) k.1 q))
crc_bytes_single c (x ∷ xs) ys a b h k l q =
    crc_bytes_single (crc_rounds 8 (bit_xor c x)) xs ys a b (crc_byte-lt c x h k.0) k.1 l q

pub crc32-lt : (bs : List ℕ) → crc32 bs < 256 ^ 4
unfolding crc32
crc32-lt bs = omega arith

All-replaced :
    (xs ys : List ℕ) (a b : ℕ) → All IsByte (xs ++ a ∷ ys) → IsByte b → All IsByte (xs ++ b ∷ ys)
All-replaced [] ys a b h k = (k, h.1)
All-replaced (x ∷ xs) ys a b h k = (h.0, All-replaced xs ys a b h.1 k)

-- Two byte strings that differ in one byte alone have different checksums.
pub crc32_single :
    (xs ys : List ℕ) (a b : ℕ)
    → All IsByte (xs ++ a ∷ ys)
    → IsByte b
    → crc32 (xs ++ a ∷ ys) ≡ crc32 (xs ++ b ∷ ys)
    → a ≡ b
unfolding crc32
crc32_single xs ys a b h k q = crc_bytes_single 0xffffffff xs ys a b (omega arith) h k (
    omega (
      arith,
      crc_bytes-lt 0xffffffff (xs ++ a ∷ ys) (omega arith) h,
      crc_bytes-lt 0xffffffff (xs ++ b ∷ ys) (omega arith) (All-replaced xs ys a b h k),
    ))

check : crc32 (0x31 ∷ 0x32 ∷ 0x33 ∷ 0x34 ∷ 0x35 ∷ 0x36 ∷ 0x37 ∷ 0x38 ∷ 0x39 ∷ []) ≡ 0xcbf43926
unfolding crc32
check = refl
