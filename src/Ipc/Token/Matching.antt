-- ===== src/Ipc/Token/Matching.antt =====
-- `SessionToken::matches` of crates/tick-ipc/src/lib.rs decides equality.
use Prim.Native.Nat.{bit_or, bit_xor}
use true_tick.Base.{ℕ, ◌≡◌, ◌↔◌, refl, ◌∙◌, sym, true, List, [], ◌∷◌, arith, length, All}
use true_tick.Base.Bytes.{IsByte}
use true_tick.Base.Bits.{bit_xor-lt, bit_or-lt, bit_or-eq-zero, bit_xor_self, bit_xor_cancel}
use true_tick.Ipc.{token_len}
use true_tick.Ipc.Token.{differences, matches}

pub record IsToken (bytes : List ℕ) : Type 0 where
  pub size : length bytes ≡ token_len
  pub bytes_in_range : All IsByte bytes

xor-eq-zero : (x y : ℕ) → IsByte x → IsByte y → bit_xor x y ≡ 0 → x ≡ y
xor-eq-zero x y p q h = bit_xor_cancel 8 x y y p q (h ∙ sym (bit_xor_self 8 y q))

differences-eq-zero :
    (diff : ℕ) (xs ys : List ℕ)
    → IsByte diff
    → All IsByte xs
    → All IsByte ys
    → length xs ≡ length ys
    → differences diff xs ys ≡ 0
    → (diff ≡ 0) × (xs ≡ ys)
unfolding differences
differences-eq-zero diff [] [] d p q e h = (h, refl)
differences-eq-zero diff [] (y ∷ ys) d p q e h = absurd (omega arith)
differences-eq-zero diff (x ∷ xs) [] d p q e h = absurd (omega arith)
differences-eq-zero diff (x ∷ xs) (y ∷ ys) d p q e h =
    let small = bit_xor-lt 8 x y p.0 q.0 in
    let (now, later) =
      differences-eq-zero (bit_or diff (bit_xor x y)) xs ys (bit_or-lt 8 diff (bit_xor x y) d small)
        p.1 q.1 (omega arith) h in
    let (before, here) = bit_or-eq-zero 8 diff (bit_xor x y) d small now in
    (before, λ i. xor-eq-zero x y p.0 q.0 here i ∷ later i)

differences_self : (xs : List ℕ) → All IsByte xs → differences 0 xs xs ≡ 0
unfolding differences
differences_self [] p = refl
differences_self (x ∷ xs) p = rw (bit_xor_self 8 x p.0) (differences_self xs p.1)

-- The comparison of tokens that reads every byte accepts a candidate exactly where it equals the
-- token.
pub matches_iff :
    (token candidate : List ℕ)
    → IsToken token
    → IsToken candidate
    → (matches token candidate ≡ true) ↔ (token ≡ candidate)
unfolding matches
matches_iff token candidate p q =
    let size : length token ≡ length candidate = p.size ∙ sym q.size in
    (
      λ h.
          let zero_left : differences 0 token candidate ≡ 0 = ground arith in
          (differences-eq-zero 0 token candidate (omega arith) p.bytes_in_range q.bytes_in_range
            size zero_left).1,
      λ e. rw (← e, differences_self token p.bytes_in_range),
    )
