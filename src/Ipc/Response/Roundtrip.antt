-- ===== src/Ipc/Response/Roundtrip.antt =====
-- `encode_response` and `decode_response` of crates/tick-ipc/src/lib.rs undo one another.
use true_tick.Base.{
  ℕ, ◌+◌, ◌^◌, ◌<◌, ◌≡◌, refl, ap, ◌∙◌, true, List, [], ◌∷◌, ◌++◌, some, ok, arith, length, take,
  drop, All, All-take, All-drop, Option-cases, inl, inr, ◌≤◌, length-take, length-drop,
}
use true_tick.Base.Bytes.{
  IsByte, to_le_bytes, from_le_bytes, slice, from-to_le_bytes, from_le_bytes-lt,
}
use true_tick.Ipc.{IpcError, code, wire_param, from_code_param}
use true_tick.Ipc.Response.{
  IpcResponse, status, acquired, released, scheduled, cancelled, error, is_utf8, encode_response,
  decode_response, decode_error,
}
use true_tick.Ipc.Response.Errors.{
  carried, IsError, code-lt, wire_param-lt, from_code_param-carried, from_code_param-IsError,
}

-- The fields of a reply lie in their types.
unfoldable pub IsResponse : IpcResponse → Type 0
IsResponse (status text) = All IsByte text × (is_utf8 text ≡ true)
IsResponse (acquired effective_hns) = effective_hns < 256 ^ 8
IsResponse released = Unit
IsResponse (scheduled action_id) = action_id < 256 ^ 4
IsResponse cancelled = Unit
IsResponse (error e) = IsError e

unfoldable pub on_wire : IpcResponse → IpcResponse
on_wire (error e) = error (carried e)
on_wire reply = reply

decode_error-encode :
    (e : IpcError)
    → IsError e
    → decode_error (to_le_bytes 4 (code e) ++ to_le_bytes 4 (wire_param e)) ≡ ok (error (carried e))
unfolding decode_error
decode_error-encode e h =
    let c = to_le_bytes 4 (code e) in
    let p = to_le_bytes 4 (wire_param e) in
    rw (
      from-to_le_bytes 4 (code e) (code-lt e),
      from-to_le_bytes 4 (wire_param e) (wire_param-lt e h),
      from_code_param-carried e h,
    )

-- A reply whose fields lie in their types is read back from its encoding, an error as far as the
-- wire carries it: a second field is zero, a wide one is cut to 32 bits.
pub decode_response-encode :
    (reply : IpcResponse)
    → IsResponse reply
    → decode_response (encode_response reply) ≡ ok (on_wire reply)
unfolding decode_response encode_response IsResponse on_wire
decode_response-encode (status text) h = rw h.1
decode_response-encode (acquired effective_hns) h = rw (from-to_le_bytes 8 effective_hns h)
decode_response-encode released h = refl
decode_response-encode (scheduled action_id) h = rw (from-to_le_bytes 4 action_id h)
decode_response-encode cancelled h = refl
decode_response-encode (error e) h = decode_error-encode e h

-- The two words of an error payload.
word-lt :
    (from : ℕ) (payload : List ℕ)
    → All IsByte payload
    → from + 4 ≤ length payload
    → from_le_bytes (take 4 (drop from payload)) < 4294967296
word-lt from payload all h =
    let word = take 4 (drop from payload) in
    let size : length word ≡ 4 =
      omega (arith, length-take 4 (drop from payload), length-drop from payload) in
    let each = All-take IsByte 4 (drop from payload) (All-drop IsByte from payload all) in
    rw size at (from_le_bytes-lt word each)

decode_error-parts :
    (payload : List ℕ) (reply : IpcResponse)
    → decode_error payload ≡ ok reply
    → (e : IpcError) × (length payload ≡ 8)
      × (from_code_param (from_le_bytes (slice 0 4 payload)) (from_le_bytes (slice 4 8 payload))
          ≡ some e)
      × (reply ≡ error e)
unfolding decode_error
decode_error-parts payload reply h =
    let code = from_le_bytes (slice 0 4 payload) in
    let param = from_le_bytes (slice 4 8 payload) in
    elim (Option-cases (from_code_param code param)) [
      | inl q ↦ ground arith
      | inr (e, q) ↦ (e, ground arith, q, ground arith)
    ]

decode_error-IsResponse :
    (payload : List ℕ) (reply : IpcResponse)
    → All IsByte payload
    → decode_error payload ≡ ok reply
    → IsResponse reply × (on_wire reply ≡ reply)
decode_error-IsResponse payload reply all h =
    let (e, size, read, same) = decode_error-parts payload reply h in
    let (fields, whole) =
      from_code_param-IsError _ _ e (word-lt 4 payload all (omega arith)) read in
    unfold IsResponse on_wire in rw same (fields, ap error whole)

decode_response-IsResponse :
    (bytes : List ℕ) (reply : IpcResponse)
    → All IsByte bytes
    → decode_response bytes ≡ ok reply
    → IsResponse reply × (on_wire reply ≡ reply)
unfolding decode_response IsResponse on_wire
decode_response-IsResponse [] reply all h = cc
decode_response-IsResponse (tag ∷ payload) reply all h =
    ground (arith, from_le_bytes-lt payload all.1, decode_error-IsResponse payload reply all.1)

-- A reply that is read from bytes has its fields in their types, and is read again, unchanged,
-- from its own encoding.
pub encode_response-decode :
    (bytes : List ℕ) (reply : IpcResponse)
    → All IsByte bytes
    → decode_response bytes ≡ ok reply
    → IsResponse reply × (decode_response (encode_response reply) ≡ ok reply)
encode_response-decode bytes reply all h =
    let (fields, whole) = decode_response-IsResponse bytes reply all h in
    (fields, decode_response-encode reply fields ∙ ap ok whole)
