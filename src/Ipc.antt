-- ===== src/Ipc.antt =====
-- crates/tick-ipc/src/lib.rs: the verbs, the errors and the bounds of the wire protocol.
pub mod Crc
pub mod Frame
pub mod Response
pub mod Token
pub mod RateLimit
use true_tick.Base.{
  ℕ, ◌+◌, ◌-◌, ◌*◌, ◌^◌, ◌%◌, Bool, ◌&&◌, List, [], ◌∷◌, Option, none, some, Result, ok, err, leb,
  ltb, ◌==◌, if◌then◌else◌,
}
use true_tick.Base.Int.{ℤ, pos, negsuc}
use true_tick.Core.{Hns}

abbrev pub magic_bytes : List ℕ
magic_bytes = 0x54 ∷ 0x54 ∷ 0x49 ∷ 0x50 ∷ []

abbrev pub protocol_version : ℕ
protocol_version = 1

abbrev pub max_payload_len : ℕ
max_payload_len = 256

abbrev pub min_interval_hns : ℕ
min_interval_hns = 5000

abbrev pub max_interval_hns : ℕ
max_interval_hns = 156250

abbrev pub symbolic_resolution_hns : ℕ
symbolic_resolution_hns = 5000

abbrev pub token_len : ℕ
token_len = 32

pub data CommandVerb : Type 0 where
  query_status request_acquire request_release schedule_action cancel_schedule : CommandVerb

unfoldable pub verb_to_u32 : CommandVerb → ℕ
verb_to_u32 query_status = 1
verb_to_u32 request_acquire = 2
verb_to_u32 request_release = 3
verb_to_u32 schedule_action = 4
verb_to_u32 cancel_schedule = 5

unfoldable pub verb_from_u32 : ℕ → Option CommandVerb
verb_from_u32 value =
    if value == 1
    then some query_status
    else if value == 2
    then some request_acquire
    else if value == 3
    then some request_release
    else if value == 4
    then some schedule_action
    else if value == 5
    then some cancel_schedule
    else none

-- The fields are those of the source, in its order.
pub data IpcError : Type 0 where
  invalid_magic : IpcError
  unsupported_version : ℕ → IpcError
  payload_too_large : ℕ → IpcError
  payload_truncated : IpcError
  invalid_command_verb : ℕ → IpcError
  interval_out_of_bounds : ℕ → IpcError
  crc_mismatch : ℕ → ℕ → IpcError
  unauthorized_token : IpcError
  rate_limit_exceeded : ℕ → IpcError
  malformed_token malformed_response : IpcError
  transport_io : ℤ → IpcError
  unsupported : IpcError
  schedule_out_of_bounds : ℕ → IpcError
  trailing_bytes : ℕ → ℕ → IpcError
  schedule_id_mismatch : ℕ → IpcError

unfoldable pub validate_interval_hns : ℕ → Result Hns IpcError
validate_interval_hns interval_hns =
    if interval_hns == symbolic_resolution_hns
    then ok interval_hns
    else if leb min_interval_hns interval_hns && leb interval_hns max_interval_hns
    then ok interval_hns
    else err (interval_out_of_bounds interval_hns)

unfoldable pub code : IpcError → ℕ
code invalid_magic = 1
code (unsupported_version found) = 2
code (payload_too_large length) = 3
code payload_truncated = 4
code (invalid_command_verb verb) = 5
code (interval_out_of_bounds requested) = 6
code (crc_mismatch expected calculated) = 7
code unauthorized_token = 8
code (rate_limit_exceeded pid) = 9
code malformed_token = 10
code malformed_response = 11
code (transport_io raw_os_error) = 12
code unsupported = 13
code (schedule_out_of_bounds seconds) = 14
code (trailing_bytes expected found) = 15
code (schedule_id_mismatch provided) = 16

-- `as u32` of an unsigned value, and of an `i32`.
abbrev pub as_u32 : ℕ → ℕ
as_u32 n = n % 4294967296

abbrev pub i32_as_u32 : ℤ → ℕ
i32_as_u32 (pos n) = as_u32 n
i32_as_u32 (negsuc n) = 4294967295 - n

-- `as i32` of a `u32`.
abbrev pub u32_as_i32 : ℕ → ℤ
u32_as_i32 n = if ltb n 2147483648 then pos n else negsuc (4294967295 - n)

unfoldable pub wire_param : IpcError → ℕ
wire_param invalid_magic = 0
wire_param (unsupported_version found) = found
wire_param (payload_too_large length) = as_u32 length
wire_param payload_truncated = 0
wire_param (invalid_command_verb verb) = verb
wire_param (interval_out_of_bounds requested) = as_u32 requested
wire_param (crc_mismatch expected calculated) = expected
wire_param unauthorized_token = 0
wire_param (rate_limit_exceeded pid) = pid
wire_param malformed_token = 0
wire_param malformed_response = 0
wire_param (transport_io raw_os_error) = i32_as_u32 raw_os_error
wire_param unsupported = 0
wire_param (schedule_out_of_bounds seconds) = seconds
wire_param (trailing_bytes expected found) = as_u32 expected
wire_param (schedule_id_mismatch provided) = provided

-- The codes 1 to 8, then 9 to 16, as one `match` in the source.
abbrev from_high_code : ℕ → ℕ → Option IpcError
from_high_code code param =
    if code == 9
    then some (rate_limit_exceeded param)
    else if code == 10
    then some malformed_token
    else if code == 11
    then some malformed_response
    else if code == 12
    then some (transport_io (u32_as_i32 param))
    else if code == 13
    then some unsupported
    else if code == 14
    then some (schedule_out_of_bounds param)
    else if code == 15
    then some (trailing_bytes param 0)
    else if code == 16
    then some (schedule_id_mismatch param)
    else none

unfoldable pub from_code_param : ℕ → ℕ → Option IpcError
from_code_param code param =
    if code == 1
    then some invalid_magic
    else if code == 2
    then some (unsupported_version (param % 65536))
    else if code == 3
    then some (payload_too_large param)
    else if code == 4
    then some payload_truncated
    else if code == 5
    then some (invalid_command_verb param)
    else if code == 6
    then some (interval_out_of_bounds param)
    else if code == 7
    then some (crc_mismatch param 0)
    else if code == 8
    then some unauthorized_token
    else from_high_code code param
