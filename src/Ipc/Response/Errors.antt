-- ===== src/Ipc/Response/Errors.antt =====
-- What of an error the wire carries (`IpcError::code`, `wire_param` and `from_code_param` of
-- crates/tick-ipc/src/lib.rs).
use true_tick.Base.{ℕ, ◌<◌, ◌%◌, ◌≡◌, ap, refl, some, arith}
use true_tick.Base.Int.{ℤ, pos, negsuc}
use true_tick.Ipc.{
  IpcError, invalid_magic, unsupported_version, payload_too_large, payload_truncated,
  invalid_command_verb, interval_out_of_bounds, crc_mismatch, unauthorized_token,
  rate_limit_exceeded, malformed_token, malformed_response, transport_io, unsupported,
  schedule_out_of_bounds, trailing_bytes, schedule_id_mismatch, code, wire_param, from_code_param,
  i32_as_u32, u32_as_i32,
}

-- The error that the peer reads: a second field is zero, a wide one is cut to 32 bits.
unfoldable pub carried : IpcError → IpcError
carried (payload_too_large length) = payload_too_large (length % 4294967296)
carried (interval_out_of_bounds requested) = interval_out_of_bounds (requested % 4294967296)
carried (crc_mismatch expected calculated) = crc_mismatch expected 0
carried (trailing_bytes expected found) = trailing_bytes (expected % 4294967296) 0
carried e = e

abbrev pub IsI32 : ℤ → Type 0
IsI32 (pos n) = n < 2147483648
IsI32 (negsuc n) = n < 2147483648

-- The fields of an error lie in their types of at most 32 bits.
unfoldable pub IsError : IpcError → Type 0
IsError (unsupported_version found) = found < 65536
IsError (invalid_command_verb verb) = verb < 4294967296
IsError (crc_mismatch expected calculated) = (expected < 4294967296) × (calculated < 4294967296)
IsError (rate_limit_exceeded pid) = pid < 4294967296
IsError (transport_io raw_os_error) = IsI32 raw_os_error
IsError (schedule_out_of_bounds seconds) = seconds < 4294967296
IsError (schedule_id_mismatch provided) = provided < 4294967296
IsError e = Unit

pub code-lt : (e : IpcError) → code e < 4294967296
unfolding code
code-lt invalid_magic = omega arith
code-lt (unsupported_version found) = omega arith
code-lt (payload_too_large length) = omega arith
code-lt payload_truncated = omega arith
code-lt (invalid_command_verb verb) = omega arith
code-lt (interval_out_of_bounds requested) = omega arith
code-lt (crc_mismatch expected calculated) = omega arith
code-lt unauthorized_token = omega arith
code-lt (rate_limit_exceeded pid) = omega arith
code-lt malformed_token = omega arith
code-lt malformed_response = omega arith
code-lt (transport_io raw) = omega arith
code-lt unsupported = omega arith
code-lt (schedule_out_of_bounds seconds) = omega arith
code-lt (trailing_bytes expected found) = omega arith
code-lt (schedule_id_mismatch provided) = omega arith

pub wire_param-lt : (e : IpcError) → IsError e → wire_param e < 4294967296
unfolding wire_param IsError
wire_param-lt invalid_magic h = omega arith
wire_param-lt (unsupported_version found) h = omega arith
wire_param-lt (payload_too_large length) h = omega arith
wire_param-lt payload_truncated h = omega arith
wire_param-lt (invalid_command_verb verb) h = omega arith
wire_param-lt (interval_out_of_bounds requested) h = omega arith
wire_param-lt (crc_mismatch expected calculated) h = omega arith
wire_param-lt unauthorized_token h = omega arith
wire_param-lt (rate_limit_exceeded pid) h = omega arith
wire_param-lt malformed_token h = omega arith
wire_param-lt malformed_response h = omega arith
wire_param-lt (transport_io raw) h = ground arith
wire_param-lt unsupported h = omega arith
wire_param-lt (schedule_out_of_bounds seconds) h = omega arith
wire_param-lt (trailing_bytes expected found) h = omega arith
wire_param-lt (schedule_id_mismatch provided) h = omega arith

as_i32-as_u32 : (z : ℤ) → IsI32 z → u32_as_i32 (i32_as_u32 z) ≡ z
as_i32-as_u32 (pos n) h = ground arith
as_i32-as_u32 (negsuc n) h = ground arith

pub from_code_param-carried :
    (e : IpcError) → IsError e → from_code_param (code e) (wire_param e) ≡ some (carried e)
unfolding code wire_param from_code_param carried IsError
from_code_param-carried invalid_magic h = refl
from_code_param-carried (unsupported_version found) h = ground arith
from_code_param-carried (payload_too_large length) h = refl
from_code_param-carried payload_truncated h = refl
from_code_param-carried (invalid_command_verb verb) h = refl
from_code_param-carried (interval_out_of_bounds requested) h = refl
from_code_param-carried (crc_mismatch expected calculated) h = refl
from_code_param-carried unauthorized_token h = refl
from_code_param-carried (rate_limit_exceeded pid) h = refl
from_code_param-carried malformed_token h = refl
from_code_param-carried malformed_response h = refl
from_code_param-carried (transport_io raw) h = ap (λ z. some (transport_io z)) (as_i32-as_u32 raw h)
from_code_param-carried unsupported h = refl
from_code_param-carried (schedule_out_of_bounds seconds) h = refl
from_code_param-carried (trailing_bytes expected found) h = refl
from_code_param-carried (schedule_id_mismatch provided) h = refl

u32_as_i32-IsI32 : (n : ℕ) → n < 4294967296 → IsI32 (u32_as_i32 n)
u32_as_i32-IsI32 n h = ground arith

-- An error that the wire gives is one that the wire carries whole.
pub from_code_param-IsError :
    (c p : ℕ) (e : IpcError)
    → p < 4294967296
    → from_code_param c p ≡ some e
    → IsError e × (carried e ≡ e)
unfolding from_code_param IsError carried
from_code_param-IsError c p e h q = ground (arith, u32_as_i32-IsI32 p)
