-- ===== src/Ipc/Token/Hex.antt =====
-- The hex form of a token in crates/tick-ipc/src/lib.rs is read back, and no other text is read.
use Prim.Native.Nat.{bit_and, bit_or}
use true_tick.Base.{
  ℕ, zero, suc, ◌+◌, ◌*◌, ◌/◌, ◌%◌, ◌<◌, ◌≡◌, refl, ltb, ◌==◌, if◌then◌else◌, List, [], ◌∷◌, some,
  ok, arith, length, All,
}
use true_tick.Base.Bytes.{IsByte}
use true_tick.Base.Bits.{bit_or-nibbles, bit_and_nibble}
use true_tick.Base.Try.{ensure, ok_or, bind_inv, ok_or_inv}
use true_tick.Ipc.{token_len, malformed_token}
use true_tick.Ipc.Token.{hex_digit, hex_nibble, to_hex, read_pairs, from_hex}
use true_tick.Ipc.Token.Matching.{IsToken}

Below : (ℕ → Type 0) → ℕ → Type 0
Below P zero = Unit
Below P (suc n) = P 0 × Below (λ m. P (suc m)) n

below : (P : ℕ → Type 0) (k n : ℕ) → n < k → Below P k → P n
unfolding Below
below P zero n h all = absurd (omega arith)
below P (suc k) zero h all = all.0
below P (suc k) (suc n) h all = below (λ m. P (suc m)) k n (omega arith) all.1

hex_nibble-digit : (n : ℕ) → n < 16 → hex_nibble (hex_digit n) ≡ some n
unfolding hex_nibble hex_digit Below
hex_nibble-digit n h = below (λ n. hex_nibble (hex_digit n) ≡ some n) 16 n h (ground arith)

hex_nibble-lt : (b n : ℕ) → hex_nibble b ≡ some n → n < 16
unfolding hex_nibble
hex_nibble-lt b n h = ground arith

byte_join : (byte : ℕ) → IsByte byte → bit_or (byte / 16 * 16 % 256) (bit_and byte 15) ≡ byte
byte_join byte h =
    let high : byte / 16 * 16 % 256 ≡ byte / 16 * 16 = omega arith in
    rw (bit_and_nibble byte h, high)
      (omega (arith, bit_or-nibbles (byte / 16) (byte % 16) (omega arith) (omega arith)))

read_pairs-to_hex : (bytes : List ℕ) → All IsByte bytes → read_pairs (to_hex bytes) ≡ ok bytes
unfolding read_pairs to_hex
read_pairs-to_hex [] h = refl
read_pairs-to_hex (byte ∷ bytes) h =
    let low : bit_and byte 15 < 16 = omega (arith, bit_and_nibble byte h.0) in
    rw (
      hex_nibble-digit (byte / 16) (omega arith),
      hex_nibble-digit (bit_and byte 15) low,
      read_pairs-to_hex bytes h.1,
      byte_join byte h.0,
    )

length-to_hex : (bytes : List ℕ) → length (to_hex bytes) ≡ length bytes * 2
unfolding to_hex
length-to_hex [] = refl
length-to_hex (byte ∷ bytes) = omega (arith, length-to_hex bytes)

-- The hex form of a token of 32 bytes is read back as that token.
pub from_hex-to_hex : (token : List ℕ) → IsToken token → from_hex (to_hex token) ≡ ok token
unfolding from_hex
from_hex-to_hex token h =
    rw (length-to_hex token, h.size) (read_pairs-to_hex token h.bytes_in_range)

digit_value : (n : ℕ) → n < 16 → hex_digit n ≡ (if ltb n 10 then n + 48 else n + 87)
unfolding hex_digit Below
digit_value n h =
    below (λ n. hex_digit n ≡ (if ltb n 10 then n + 48 else n + 87)) 16 n h (ground arith)

hex_digit-nibble : (b n : ℕ) → hex_nibble b ≡ some n → (n < 16) × (hex_digit n ≡ b)
unfolding hex_nibble
hex_digit-nibble b n h =
    let small = hex_nibble-lt b n h in (small, ground (arith, digit_value n small))

-- The two digits of a byte.
pair_inv :
    (first second : ℕ) (rest bytes : List ℕ)
    → read_pairs (first ∷ second ∷ rest) ≡ ok bytes
    → (high : ℕ) × (low : ℕ) × (tail : List ℕ) × (hex_nibble first ≡ some high)
      × (hex_nibble second ≡ some low)
      × (read_pairs rest ≡ ok tail)
      × (bytes ≡ bit_or (high * 16 % 256) low ∷ tail)
unfolding read_pairs
pair_inv first second rest bytes h =
    let (high, e, h1) = bind_inv (ok_or (hex_nibble first) malformed_token) _ h in
    let (low, e2, h2) = bind_inv (ok_or (hex_nibble second) malformed_token) _ h1 in
    let (tail, e3, h3) = bind_inv (read_pairs rest) _ h2 in
    (high, low, tail, ok_or_inv _ _ e, ok_or_inv _ _ e2, e3, cc)

IsByte-of_nibbles :
    (high low : ℕ)
    → high < 16
    → low < 16
    → IsByte (bit_or (high * 16 % 256) low)
      × (bit_or (high * 16 % 256) low / 16 ≡ high)
      × (bit_and (bit_or (high * 16 % 256) low) 15 ≡ low)
IsByte-of_nibbles high low p q =
    let whole : high * 16 % 256 ≡ high * 16 = omega arith in
    let sum = bit_or-nibbles high low p q in
    rw (whole, sum, bit_and_nibble (high * 16 + low) (omega arith)) (omega arith)

nil_inv : (bytes : List ℕ) → read_pairs [] ≡ ok bytes → bytes ≡ []
unfolding read_pairs
nil_inv bytes h = cc

read_pairs-inv :
    (n : ℕ) (text bytes : List ℕ)
    → length text ≡ n * 2
    → read_pairs text ≡ ok bytes
    → (length bytes ≡ n) × All IsByte bytes × (to_hex bytes ≡ text)
unfolding to_hex
read_pairs-inv zero [] bytes e h = rw (nil_inv bytes h) (refl, tt, refl)
read_pairs-inv zero (b ∷ text) bytes e h = absurd (omega arith)
read_pairs-inv (suc n) [] bytes e h = absurd (omega arith)
read_pairs-inv (suc n) (b ∷ []) bytes e h = absurd (omega arith)
read_pairs-inv (suc n) (first ∷ second ∷ rest) bytes e h =
    let (high, low, tail, e1, e2, later, same) = pair_inv first second rest bytes h in
    let (size, all, text) = read_pairs-inv n rest tail (omega arith) later in
    let (p, one) = hex_digit-nibble first high e1 in
    let (q, two) = hex_digit-nibble second low e2 in
    let (byte, upper, lower) = IsByte-of_nibbles high low p q in
    rw same (omega (arith, size), (byte, all), rw (upper, lower, one, two, text))

-- A text that from_hex accepts is the hex form of the token read, which has 32 bytes.
pub to_hex-from_hex :
    (text token : List ℕ) → from_hex text ≡ ok token → (to_hex token ≡ text) × IsToken token
unfolding from_hex
to_hex-from_hex text token h =
    let (_, checked, read) =
      bind_inv (ensure (length text == token_len * 2) malformed_token) (λ _. read_pairs text) h in
    let (size, all, same) = read_pairs-inv 32 text token (ground arith) read in
    (same, record { size = size; bytes_in_range = all })
