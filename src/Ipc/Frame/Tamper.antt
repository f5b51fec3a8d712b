-- ===== src/Ipc/Frame/Tamper.antt =====
-- What the checksum of crates/tick-ipc/src/lib.rs protects: a frame with one byte altered.
use true_tick.Base.{
  ℕ, zero, suc, ◌+◌, ◌≡◌, ◌≢◌, refl, sym, ap, ◌∙◌, List, [], ◌∷◌, ◌++◌, ok, length, take, drop,
  arith, All, All-take, take-append-drop,
}
use true_tick.Base.Bytes.{to_le_bytes, from_le_bytes, IsByte, from-to_le_bytes}
use true_tick.Ipc.Crc.{crc32, crc32-lt, crc32_single}
use true_tick.Ipc.Frame.{IpcFrame, deserialize}
use true_tick.Ipc.Frame.Reading.{deserialize-Reads}
use true_tick.Ipc.Frame.Canonical.{drop-checksum}

-- A cut at `n` leaves the altered byte in the first part or in the second.
data Cut (xs ys : List ℕ) (a b n : ℕ) : Type 0 where
  first :
      (zs : List ℕ)
      → take n (xs ++ a ∷ ys) ≡ xs ++ a ∷ zs
      → take n (xs ++ b ∷ ys) ≡ xs ++ b ∷ zs
      → drop n (xs ++ a ∷ ys) ≡ drop n (xs ++ b ∷ ys)
      → Cut xs ys a b n
  second : take n (xs ++ a ∷ ys) ≡ take n (xs ++ b ∷ ys) → Cut xs ys a b n

Cut-cons : (x : ℕ) {xs ys : List ℕ} {a b n : ℕ} → Cut xs ys a b n → Cut (x ∷ xs) ys a b (suc n)
Cut-cons x (first zs p q r) = first zs (ap (λ t. x ∷ t) p) (ap (λ t. x ∷ t) q) r
Cut-cons x (second p) = second (ap (λ t. x ∷ t) p)

Cut-total : (xs ys : List ℕ) (a b n : ℕ) → Cut xs ys a b n
Cut-total xs ys a b zero = second refl
Cut-total [] ys a b (suc n) = first (take n ys) refl refl refl
Cut-total (x ∷ xs) ys a b (suc n) = Cut-cons x (Cut-total xs ys a b n)

byte-eq : (xs ys : List ℕ) (a b : ℕ) → xs ++ a ∷ ys ≡ xs ++ b ∷ ys → a ≡ b
byte-eq [] ys a b e = cc
byte-eq (x ∷ xs) ys a b e = byte-eq xs ys a b (cc)

All-altered :
    (xs ys : List ℕ) (a b : ℕ) → All IsByte (xs ++ a ∷ ys) → IsByte b → All IsByte (xs ++ b ∷ ys)
All-altered [] ys a b h k = (k, h.1)
All-altered (x ∷ xs) ys a b h k = (h.0, All-altered xs ys a b h.1 k)

length-altered : (xs ys : List ℕ) (a b : ℕ) → length (xs ++ a ∷ ys) ≡ length (xs ++ b ∷ ys)
length-altered [] ys a b = refl
length-altered (x ∷ xs) ys a b = ap suc (length-altered xs ys a b)

-- Both byte strings end in the checksum of what they start with, at the same place.
same_byte :
    (xs ys : List ℕ) (a b n : ℕ)
    → All IsByte (xs ++ a ∷ ys)
    → IsByte b
    → drop n (xs ++ a ∷ ys) ≡ to_le_bytes 4 (crc32 (take n (xs ++ a ∷ ys)))
    → drop n (xs ++ b ∷ ys) ≡ to_le_bytes 4 (crc32 (take n (xs ++ b ∷ ys)))
    → Cut xs ys a b n
    → a ≡ b
same_byte xs ys a b n all byte p q (first zs s t r) =
    crc32_single xs zs a b (rw s at (All-take IsByte n (xs ++ a ∷ ys) all)) byte (
      ap crc32 (sym s)
      ∙ sym (from-to_le_bytes 4 _ (crc32-lt _))
      ∙ ap from_le_bytes (sym p ∙ r ∙ q)
      ∙ from-to_le_bytes 4 _ (crc32-lt _)
      ∙ ap crc32 t)
same_byte xs ys a b n all byte p q (second s) =
    byte-eq xs ys a b (sym (take-append-drop n _) ∙ joined ∙ take-append-drop n _)
  where
    ends : drop n (xs ++ a ∷ ys) ≡ drop n (xs ++ b ∷ ys)
    ends = p ∙ ap (λ x. to_le_bytes 4 (crc32 x)) s ∙ sym q

    joined :
        take n (xs ++ a ∷ ys) ++ drop n (xs ++ a ∷ ys)
        ≡ take n (xs ++ b ∷ ys) ++ drop n (xs ++ b ∷ ys)
    joined = λ i. s i ++ ends i

-- No byte of an accepted frame can be altered alone: with any other byte in its place the frame is
-- refused.
pub deserialize_altered :
    (xs ys : List ℕ) (a b : ℕ) (f g : IpcFrame)
    → All IsByte (xs ++ a ∷ ys)
    → IsByte b
    → a ≢ b
    → deserialize (xs ++ a ∷ ys) ≡ ok f
    → deserialize (xs ++ b ∷ ys) ≢ ok g
deserialize_altered xs ys a b f g all byte ne h k =
    let (len, header, body, fields) = deserialize-Reads (xs ++ a ∷ ys) f h in
    let (len', header', body', fields') = deserialize-Reads (xs ++ b ∷ ys) g k in
    let e : len' ≡ len = omega (arith, body.total, body'.total, length-altered xs ys a b) in
    ne (
      same_byte xs ys a b (44 + len) all byte
        (drop-checksum (xs ++ a ∷ ys) f all len header body fields)
        (rw e at (
          drop-checksum (xs ++ b ∷ ys) g (All-altered xs ys a b all byte) len' header' body'
            fields'))
        (Cut-total xs ys a b (44 + len)))
