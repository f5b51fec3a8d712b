-- ===== src/Ipc/Token.antt =====
-- `SessionToken` of crates/tick-ipc/src/lib.rs, as its 32 bytes: the comparison and the hex form,
-- whose text is its bytes.
pub mod Matching
pub mod Hex
use Prim.Native.Nat.{bit_and, bit_or, bit_xor}
use true_tick.Base.{
  ℕ, zero, suc, ◌+◌, ◌-◌, ◌*◌, ◌/◌, ◌%◌, Bool, ◌&&◌, List, [], ◌∷◌, Option, none, some, Result, ok,
  err, leb, ◌==◌, if◌then◌else◌, length,
}
use true_tick.Base.Try.{◌>>=◌, ◌>>◌, ensure, ok_or}
use true_tick.Ipc.{token_len, IpcError, malformed_token}

-- The loop of `matches`, which reads both tokens to their end.
unfoldable pub differences : ℕ → List ℕ → List ℕ → ℕ
differences diff (x ∷ xs) (y ∷ ys) = differences (bit_or diff (bit_xor x y)) xs ys
differences diff [] ys = diff
differences diff (x ∷ xs) [] = diff

unfoldable pub matches : List ℕ → List ℕ → Bool
matches token candidate = differences 0 token candidate == 0

abbrev hex_digits : List ℕ
hex_digits = 48 ∷ 49 ∷ 50 ∷ 51 ∷ 52 ∷ 53 ∷ 54 ∷ 55 ∷ 56 ∷ 57 ∷ 97 ∷ 98 ∷ 99 ∷ 100 ∷ 101 ∷ 102 ∷ []

-- `HEX_DIGITS[n]`. The index is a nibble, so it never lies outside.
abbrev at : List ℕ → ℕ → ℕ
at [] n = 0
at (x ∷ xs) zero = x
at (x ∷ xs) (suc n) = at xs n

unfoldable pub hex_digit : ℕ → ℕ
hex_digit n = at hex_digits n

unfoldable pub to_hex : List ℕ → List ℕ
to_hex [] = []
to_hex (byte ∷ bytes) = hex_digit (byte / 16) ∷ hex_digit (bit_and byte 15) ∷ to_hex bytes

unfoldable pub hex_nibble : ℕ → Option ℕ
hex_nibble byte =
    if leb 48 byte && leb byte 57
    then some (byte - 48)
    else if leb 97 byte && leb byte 102
    then some (byte - 97 + 10)
    else none

-- The loop over `chunks_exact(2)`.
unfoldable pub read_pairs : List ℕ → Result (List ℕ) IpcError
read_pairs [] = ok []
read_pairs (last ∷ []) = ok []
read_pairs (first ∷ second ∷ rest) = do
  high ← ok_or (hex_nibble first) malformed_token
  low ← ok_or (hex_nibble second) malformed_token
  bytes ← read_pairs rest
  ok (bit_or (high * 16 % 256) low ∷ bytes)

unfoldable pub from_hex : List ℕ → Result (List ℕ) IpcError
from_hex text = do ensure (length text == token_len * 2) malformed_token; read_pairs text
