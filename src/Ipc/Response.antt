-- ===== src/Ipc/Response.antt =====
-- The replies of crates/tick-ipc/src/lib.rs (`encode_response`, `decode_response`), and the
-- payloads of two requests. A text is its UTF-8 bytes.
pub mod Errors
pub mod Roundtrip
use true_tick.Base.{
  ℕ, zero, suc, Bool, true, false, ◌&&◌, List, [], ◌∷◌, ◌++◌, Option, none, some, Result, ok, err,
  leb, ltb, ◌==◌, if◌then◌else◌, length, take,
}
use true_tick.Base.Try.{◌>>=◌, ◌>>◌, ensure, ok_or}
use true_tick.Base.Bytes.{to_le_bytes, from_le_bytes, slice}
use true_tick.Ipc.{
  IpcError, malformed_response, code, wire_param, from_code_param, validate_interval_hns,
}

pub data IpcResponse : Type 0 where
  status : List ℕ → IpcResponse
  acquired : ℕ → IpcResponse
  released : IpcResponse
  scheduled : ℕ → IpcResponse
  cancelled : IpcResponse
  error : IpcError → IpcResponse

-- What `str::from_utf8` accepts (RFC 3629). After a leading byte, a number of bytes is due, the
-- next of them within bounds.
abbrev pub utf8_lead : ℕ → Option (ℕ × ℕ × ℕ)
utf8_lead b =
    if ltb b 128
    then some (0, 128, 191)
    else if leb 194 b && leb b 223
    then some (1, 128, 191)
    else if b == 224
    then some (2, 160, 191)
    else if b == 237
    then some (2, 128, 159)
    else if leb 225 b && leb b 239
    then some (2, 128, 191)
    else if b == 240
    then some (3, 144, 191)
    else if leb 241 b && leb b 243
    then some (3, 128, 191)
    else if b == 244
    then some (3, 128, 143)
    else none

unfoldable pub utf8_rest : ℕ → ℕ → ℕ → List ℕ → Bool
utf8_rest zero low high [] = true
utf8_rest (suc due) low high [] = false
utf8_rest zero low high (b ∷ bs) = elim (utf8_lead b) [
  | none ↦ false
  | some (due, low', high') ↦ utf8_rest due low' high' bs
]
utf8_rest (suc due) low high (b ∷ bs) = leb low b && leb b high && utf8_rest due 128 191 bs

abbrev pub is_utf8 : List ℕ → Bool
is_utf8 = utf8_rest 0 128 191

unfoldable pub encode_response : IpcResponse → List ℕ
encode_response (status text) = 1 ∷ text
encode_response (acquired effective_hns) = 2 ∷ to_le_bytes 8 effective_hns
encode_response released = 3 ∷ []
encode_response (scheduled action_id) = 4 ∷ to_le_bytes 4 action_id
encode_response cancelled = 5 ∷ []
encode_response (error e) = 6 ∷ to_le_bytes 4 (code e) ++ to_le_bytes 4 (wire_param e)

-- `try_into` an array of `n` bytes, else the reply is malformed.
abbrev fixed : ℕ → List ℕ → IpcResponse → Result IpcResponse IpcError
fixed n payload reply = if length payload == n then ok reply else err malformed_response

unfoldable pub decode_error : List ℕ → Result IpcResponse IpcError
decode_error payload = do
  ensure (length payload == 8) malformed_response
  let code = from_le_bytes (slice 0 4 payload)
  let param = from_le_bytes (slice 4 8 payload)
  e ← ok_or (from_code_param code param) malformed_response
  ok (error e)

unfoldable pub decode_response : List ℕ → Result IpcResponse IpcError
decode_response [] = err malformed_response
decode_response (tag ∷ payload) =
    if tag == 1
    then (if is_utf8 payload then ok (status payload) else err malformed_response)
    else if tag == 2
    then fixed 8 payload (acquired (from_le_bytes payload))
    else if tag == 3
    then fixed 0 payload released
    else if tag == 4
    then fixed 4 payload (scheduled (from_le_bytes payload))
    else if tag == 5
    then fixed 0 payload cancelled
    else if tag == 6
    then decode_error payload
    else err malformed_response

unfoldable pub encode_interval_payload : ℕ → Result (List ℕ) IpcError
encode_interval_payload interval_hns = do
  validated ← validate_interval_hns interval_hns
  ok (to_le_bytes 8 validated)

pub data ScheduleActionKind : Type 0 where
  start stop pause : ScheduleActionKind

unfoldable pub tag : ScheduleActionKind → ℕ
tag start = 1
tag stop = 2
tag pause = 3

unfoldable pub encode_schedule_payload : ScheduleActionKind → ℕ → List ℕ
encode_schedule_payload kind seconds = tag kind ∷ to_le_bytes 4 seconds
