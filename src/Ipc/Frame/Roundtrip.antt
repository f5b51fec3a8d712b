-- ===== src/Ipc/Frame/Roundtrip.antt =====
-- `serialize` and `deserialize` of crates/tick-ipc/src/lib.rs are inverse to one another.
use mathlib.Core.List.{append_assoc}
use true_tick.Base.{
  ℕ, ◌+◌, ◌-◌, ◌≤◌, ◌<◌, ◌^◌, ◌≡◌, sym, ap, ◌∙◌, List, ok, some, length, take, arith, All,
  length-append, take_first, drop_past,
}
use true_tick.Base.Bytes.{to_le_bytes, from_le_bytes, slice, IsByte, from-to_le_bytes}
use true_tick.Ipc.{
  magic_bytes, protocol_version, max_payload_len, token_len, CommandVerb, verb_to_u32,
  verb_from_u32,
}
use true_tick.Ipc.Crc.{crc32, crc32-lt}
use true_tick.Ipc.Frame.{IpcFrame, serialize, deserialize, frame_body}
use true_tick.Ipc.Frame.Reading.{HasHeader, HasBody, HasFields, deserialize-of}
use true_tick.Ipc.Frame.Layout.{
  pieces, HasWidths, slice_magic, slice_version, slice_payload_len, slice_token, slice_verb,
  slice_payload,
}

-- What the types of the source ensure of a frame that `new` returns.
pub record IsWellFormed (f : IpcFrame) : Type 0 where
  pub token_length : length f.token ≡ token_len
  pub payload_bound : length f.payload ≤ max_payload_len
  pub token_bytes : All IsByte f.token
  pub payload_bytes : All IsByte f.payload

verb_from-to_u32 : (v : CommandVerb) → verb_from_u32 (verb_to_u32 v) ≡ some v
unfolding verb_from_u32 verb_to_u32
verb_from-to_u32 v = ground arith

verb_to_u32-lt : (v : CommandVerb) → verb_to_u32 v < 256 ^ 4
unfolding verb_to_u32
verb_to_u32-lt v = ground arith

module _ (f : IpcFrame) (h : IsWellFormed f) where
  abbrev checksum : List ℕ
  checksum = to_le_bytes 4 (crc32 (frame_body f))

  serialize-pieces :
      serialize f
      ≡ pieces magic_bytes
          (to_le_bytes 2 protocol_version)
          (to_le_bytes 2 (length f.payload))
          f.token
          (to_le_bytes 4 (verb_to_u32 f.verb))
          f.payload
          checksum
  unfolding serialize frame_body
  serialize-pieces = simp append_assoc

  widths :
      HasWidths magic_bytes
        (to_le_bytes 2 protocol_version)
        (to_le_bytes 2 (length f.payload))
        f.token
        (to_le_bytes 4 (verb_to_u32 f.verb))
  widths = ground arith

  length-frame_body : length (frame_body f) ≡ 44 + length f.payload
  unfolding frame_body
  length-frame_body = omega (arith, length-append {0}, h.token_length)

  at :
      (from to : ℕ) (x : List ℕ)
      → slice from to (
          pieces magic_bytes
            (to_le_bytes 2 protocol_version)
            (to_le_bytes 2 (length f.payload))
            f.token
            (to_le_bytes 4 (verb_to_u32 f.verb))
            f.payload
            checksum)
        ≡ x
      → slice from to (serialize f) ≡ x
  at from to x e = ap (slice from to) serialize-pieces ∙ e

  length-serialize : length (serialize f) ≡ 48 + length f.payload
  unfolding serialize
  length-serialize = omega (arith, length-append (frame_body f) checksum, length-frame_body)

  serialize-HasHeader : HasHeader (serialize f) (length f.payload)
  serialize-HasHeader = record {
    long = omega (arith, length-serialize);
    magic = at 0 4 _ (slice_magic _ _ _ _ _ f.payload checksum widths);
    version =
        ap from_le_bytes (at 4 6 _ (slice_version _ _ _ _ _ f.payload checksum widths))
        ∙ from-to_le_bytes 2 1 (omega arith);
    payload_len =
        ap from_le_bytes (at 6 8 _ (slice_payload_len _ _ _ _ _ f.payload checksum widths))
        ∙ from-to_le_bytes 2 _ (omega arith);
    bound = h.payload_bound;
  }

  take_checksum : (n : ℕ) → take (n + 4 - n) checksum ≡ checksum
  take_checksum n = let e : n + 4 - n ≡ 4 = omega arith in rw e

  serialize-HasBody : HasBody (length f.payload) (serialize f)
  unfolding serialize
  serialize-HasBody = record {
    total = length-serialize;
    checksum =
        ap crc32 (take_first _ (frame_body f) checksum length-frame_body)
        ∙ sym (from-to_le_bytes 4 _ (crc32-lt (frame_body f)))
        ∙ ap from_le_bytes (
            sym (
              ap (take (44 + length f.payload + 4 - (44 + length f.payload)))
                (drop_past _ 0 (frame_body f) checksum (omega (arith, length-frame_body)))
              ∙ take_checksum (44 + length f.payload)));
  }

  serialize-HasFields : HasFields (length f.payload) (serialize f) f
  serialize-HasFields = record {
    token = at 8 40 _ (slice_token _ _ _ _ _ f.payload checksum widths);
    verb =
        ap (λ x. verb_from_u32 (from_le_bytes x))
          (at 40 44 _ (slice_verb _ _ _ _ _ f.payload checksum widths))
        ∙ ap verb_from_u32 (from-to_le_bytes 4 _ (verb_to_u32-lt f.verb))
        ∙ verb_from-to_u32 f.verb;
    payload = at 44 _ _ (slice_payload _ _ _ _ _ f.payload checksum widths);
  }

  -- A well-formed frame is read back from the bytes that serialize writes.
  pub deserialize-serialize : deserialize (serialize f) ≡ ok f
  deserialize-serialize =
      deserialize-of (serialize f) f (length f.payload) serialize-HasHeader serialize-HasBody
        serialize-HasFields
