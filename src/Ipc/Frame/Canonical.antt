-- ===== src/Ipc/Frame/Canonical.antt =====
-- Bytes that `deserialize` of crates/tick-ipc/src/lib.rs accepts are those that `serialize` writes.
use mathlib.Core.List.{append_assoc}
use true_tick.Base.{
  ℕ, ◌+◌, ◌-◌, ◌≤◌, ◌≡◌, sym, ap, ◌∙◌, List, ◌++◌, ok, some, length, take, drop, arith, All,
  All-take, All-drop, length-append, take_first, take-length, length-take, length-drop,
}
use true_tick.Base.Bytes.{to_le_bytes, from_le_bytes, slice, IsByte, to-from_le_bytes}
use true_tick.Ipc.{magic_bytes, protocol_version, CommandVerb, verb_to_u32, verb_from_u32}
use true_tick.Ipc.Crc.{crc32}
use true_tick.Ipc.Frame.{IpcFrame, serialize, deserialize, frame_body}
use true_tick.Ipc.Frame.Reading.{HasHeader, HasBody, HasFields, deserialize-Reads}
use true_tick.Ipc.Frame.Layout.{pieces, pieces-slices}
use true_tick.Ipc.Frame.Roundtrip.{IsWellFormed}

verb_to_u32-of_from : (n : ℕ) (v : CommandVerb) → verb_from_u32 n ≡ some v → n ≡ verb_to_u32 v
unfolding verb_from_u32 verb_to_u32
verb_to_u32-of_from n v h = ground arith

word-eq :
    (k n : ℕ) (bs : List ℕ)
    → All IsByte bs
    → length bs ≡ k
    → from_le_bytes bs ≡ n
    → bs ≡ to_le_bytes k n
word-eq k n bs h e q = rw (← e, ← q) (sym (to-from_le_bytes bs h))

take_all : (n : ℕ) (bs : List ℕ) → length bs ≡ n → take n bs ≡ bs
take_all n bs e = rw (← e) (take-length bs)

pieces_path :
    {m m' v v' n n' t t' w w' p p' : List ℕ} (c : List ℕ)
    → m ≡ m'
    → v ≡ v'
    → n ≡ n'
    → t ≡ t'
    → w ≡ w'
    → p ≡ p'
    → pieces m v n t w p c ≡ pieces m' v' n' t' w' p' c
pieces_path c em ev en et ew ep = λ i. pieces (em i) (ev i) (en i) (et i) (ew i) (ep i) c

module _ (bytes : List ℕ) (f : IpcFrame) (all : All IsByte bytes) (len : ℕ)
    (header : HasHeader bytes len) (body : HasBody len bytes) (fields : HasFields len bytes f) where
  All-slice : (from k : ℕ) → All IsByte (take k (drop from bytes))
  All-slice from k = All-take IsByte k (drop from bytes) (All-drop IsByte from bytes all)

  length-slice : (from k : ℕ) → from + k ≤ length bytes → length (take k (drop from bytes)) ≡ k
  length-slice from k h = omega (arith, length-take k (drop from bytes), length-drop from bytes)

  payload_take : take len (drop 44 bytes) ≡ f.payload
  payload_take = let e : 44 + len - 44 ≡ len = omega arith in rw e at fields.payload

  length-payload : length f.payload ≡ len
  length-payload =
      omega (arith, ap length payload_take, length-slice 44 len (omega (arith, body.total)))

  rest : List ℕ
  rest = drop (44 + len) bytes

  cut :
      pieces magic_bytes
        (to_le_bytes 2 protocol_version)
        (to_le_bytes 2 (length f.payload))
        f.token
        (to_le_bytes 4 (verb_to_u32 f.verb))
        f.payload
        rest
      ≡ bytes
  unfolding rest
  cut =
      pieces_path rest (sym header.magic) (sym version) (sym payload_len) (sym fields.token)
        (sym verb) (sym payload_take)
      ∙ sym (pieces-slices bytes len)
    where
      version : slice 4 6 bytes ≡ to_le_bytes 2 protocol_version
      version =
          word-eq 2 protocol_version (slice 4 6 bytes) (All-slice 4 2)
            (length-slice 4 2 (omega (arith, body.total))) header.version

      payload_len : slice 6 8 bytes ≡ to_le_bytes 2 (length f.payload)
      payload_len =
          word-eq 2 (length f.payload) (slice 6 8 bytes) (All-slice 6 2)
            (length-slice 6 2 (omega (arith, body.total))) (header.payload_len ∙ sym length-payload)

      verb : slice 40 44 bytes ≡ to_le_bytes 4 (verb_to_u32 f.verb)
      verb =
          word-eq 4 (verb_to_u32 f.verb) (slice 40 44 bytes) (All-slice 40 4)
            (length-slice 40 4 (omega (arith, body.total)))
            (verb_to_u32-of_from _ f.verb fields.verb)

  body-append : frame_body f ++ rest ≡ bytes
  unfolding frame_body
  body-append = simp append_assoc cut

  length-rest : length rest ≡ 4
  unfolding rest
  length-rest = omega (arith, length-drop (44 + len) bytes, body.total)

  take_body : take (44 + len) bytes ≡ frame_body f
  take_body =
      ap (take (44 + len)) (sym body-append)
      ∙ take_first (44 + len) (frame_body f) rest (
          omega (
            arith,
            ap length body-append,
            length-append (frame_body f) rest,
            length-rest,
            body.total,
          ))

  take-rest : take (44 + len + 4 - (44 + len)) rest ≡ rest
  take-rest =
      let e : 44 + len + 4 - (44 + len) ≡ 4 = omega arith in rw e (take_all 4 rest length-rest)

  rest-checksum : rest ≡ to_le_bytes 4 (crc32 (frame_body f))
  rest-checksum =
      word-eq 4 (crc32 (frame_body f)) rest All-rest length-rest
        (ap from_le_bytes (sym take-rest) ∙ checksum ∙ ap crc32 take_body)
    where
      All-rest : All IsByte rest
      All-rest = unfold rest in All-drop IsByte (44 + len) bytes all

      checksum :
          from_le_bytes (take (44 + len + 4 - (44 + len)) rest) ≡ crc32 (take (44 + len) bytes)
      checksum = unfold rest in sym body.checksum

  serialize-eq : serialize f ≡ bytes
  unfolding serialize
  serialize-eq = ap (◌++◌ (frame_body f)) (sym rest-checksum) ∙ body-append

  fields-IsWellFormed : IsWellFormed f
  fields-IsWellFormed = record {
    token_length = ap length (sym fields.token) ∙ length-slice 8 32 (omega (arith, body.total));
    payload_bound = omega (arith, length-payload, header.bound);
    token_bytes = rw fields.token at (All-slice 8 32);
    payload_bytes = rw payload_take at (All-slice 44 len);
  }

  -- Behind the body stands its checksum.
  pub drop-checksum : drop (44 + len) bytes ≡ to_le_bytes 4 (crc32 (take (44 + len) bytes))
  unfolding rest
  drop-checksum = rest-checksum ∙ ap (λ x. to_le_bytes 4 (crc32 x)) (sym take_body)

-- Bytes that deserialize accepts are those that serialize writes for the frame read, and that
-- frame is well formed.
pub serialize-deserialize :
    (bytes : List ℕ) (f : IpcFrame)
    → All IsByte bytes
    → deserialize bytes ≡ ok f
    → (serialize f ≡ bytes) × IsWellFormed f
serialize-deserialize bytes f all h =
    let (len, header, body, fields) = deserialize-Reads bytes f h in
    (
      serialize-eq bytes f all len header body fields,
      fields-IsWellFormed bytes f all len header body fields,
    )
