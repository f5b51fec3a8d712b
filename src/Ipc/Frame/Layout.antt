-- ===== src/Ipc/Frame/Layout.antt =====
-- Where the pieces of a frame lie: the slices that `deserialize` of crates/tick-ipc/src/lib.rs takes
-- are the pieces that `serialize` has written.
use true_tick.Base.{
  ℕ, ◌+◌, ◌-◌, ◌≡◌, ap, ◌∙◌, List, ◌++◌, length, take, drop, arith, take_first, drop_past,
  drop_split,
}
use true_tick.Base.Bytes.{slice}

abbrev pub pieces : (m v n t w p c : List ℕ) → List ℕ
pieces m v n t w p c = m ++ (v ++ (n ++ (t ++ (w ++ (p ++ c)))))

-- The pieces of fixed length: magic, version, payload length, token and verb.
pub record HasWidths (m v n t w : List ℕ) : Type 0 where
  pub magic : length m ≡ 4
  pub version : length v ≡ 2
  pub payload_len : length n ≡ 2
  pub token : length t ≡ 32
  pub verb : length w ≡ 4

module _ (m v n t w p c : List ℕ) (h : HasWidths m v n t w) where
  drop_4 : drop 4 (pieces m v n t w p c) ≡ v ++ (n ++ (t ++ (w ++ (p ++ c))))
  drop_4 = drop_past 4 0 m _ (omega arith)

  drop_6 : drop 6 (pieces m v n t w p c) ≡ n ++ (t ++ (w ++ (p ++ c)))
  drop_6 = drop_past 6 2 m _ (omega arith) ∙ drop_past 2 0 v _ (omega arith)

  drop_8 : drop 8 (pieces m v n t w p c) ≡ t ++ (w ++ (p ++ c))
  drop_8 =
      drop_past 8 4 m _ (omega arith)
      ∙ drop_past 4 2 v _ (omega arith)
      ∙ drop_past 2 0 n _ (omega arith)

  drop_40 : drop 40 (pieces m v n t w p c) ≡ w ++ (p ++ c)
  drop_40 =
      drop_past 40 36 m _ (omega arith)
      ∙ drop_past 36 34 v _ (omega arith)
      ∙ drop_past 34 32 n _ (omega arith)
      ∙ drop_past 32 0 t _ (omega arith)

  drop_44 : drop 44 (pieces m v n t w p c) ≡ p ++ c
  drop_44 =
      drop_past 44 40 m _ (omega arith)
      ∙ drop_past 40 38 v _ (omega arith)
      ∙ drop_past 38 36 n _ (omega arith)
      ∙ drop_past 36 4 t _ (omega arith)
      ∙ drop_past 4 0 w _ (omega arith)

  pub slice_magic : slice 0 4 (pieces m v n t w p c) ≡ m
  slice_magic = take_first 4 m _ h.magic

  pub slice_version : slice 4 6 (pieces m v n t w p c) ≡ v
  slice_version = ap (take 2) drop_4 ∙ take_first 2 v _ h.version

  pub slice_payload_len : slice 6 8 (pieces m v n t w p c) ≡ n
  slice_payload_len = ap (take 2) drop_6 ∙ take_first 2 n _ h.payload_len

  pub slice_token : slice 8 40 (pieces m v n t w p c) ≡ t
  slice_token = ap (take 32) drop_8 ∙ take_first 32 t _ h.token

  pub slice_verb : slice 40 44 (pieces m v n t w p c) ≡ w
  slice_verb = ap (take 4) drop_40 ∙ take_first 4 w _ h.verb

  pub slice_payload : slice 44 (44 + length p) (pieces m v n t w p c) ≡ p
  slice_payload = ap (take (44 + length p - 44)) drop_44 ∙ take_first _ p c (omega arith)

-- The other way: cut at these offsets, the bytes are the slices in order.
pub pieces-slices :
    (bytes : List ℕ) (len : ℕ)
    → bytes
      ≡ pieces
          (slice 0 4 bytes)
          (slice 4 6 bytes)
          (slice 6 8 bytes)
          (slice 8 40 bytes)
          (slice 40 44 bytes)
          (take len (drop 44 bytes))
          (drop (44 + len) bytes)
pieces-slices bytes len =
    drop_split 0 4 bytes
    ∙ ap (◌++◌ (take 4 bytes)) (
        drop_split 4 2 bytes
        ∙ ap (◌++◌ (take 2 (drop 4 bytes))) (
            drop_split 6 2 bytes
            ∙ ap (◌++◌ (take 2 (drop 6 bytes))) (
                drop_split 8 32 bytes
                ∙ ap (◌++◌ (take 32 (drop 8 bytes))) (
                    drop_split 40 4 bytes
                    ∙ ap (◌++◌ (take 4 (drop 40 bytes))) (drop_split 44 len bytes)))))
