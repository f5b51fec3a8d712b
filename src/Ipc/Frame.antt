-- ===== src/Ipc/Frame.antt =====
-- `IpcFrame` of crates/tick-ipc/src/lib.rs: 44 bytes of header, the payload, and the CRC-32 of both.
-- A session token is its bytes.
pub mod Reading
pub mod Layout
pub mod Roundtrip
pub mod Canonical
pub mod Tamper
use true_tick.Base.{
  ℕ, ◌+◌, ◌-◌, List, [], ◌∷◌, ◌++◌, Result, ok, err, leb, ◌==◌, length, take, drop,
}
use true_tick.Base.Try.{◌>>=◌, ◌>>◌, ensure, ok_or}
use true_tick.Base.Bytes.{to_le_bytes, from_le_bytes, slice, bytes_eq}
use true_tick.Ipc.{
  magic_bytes, protocol_version, max_payload_len, token_len, CommandVerb, verb_to_u32,
  verb_from_u32, IpcError, payload_too_large, payload_truncated, invalid_magic, unsupported_version,
  trailing_bytes, crc_mismatch, invalid_command_verb,
}
use true_tick.Ipc.Crc.{crc32}

pub record IpcFrame : Type 0 where
  pub token : List ℕ
  pub verb : CommandVerb
  pub payload : List ℕ

unfoldable pub new : List ℕ → CommandVerb → List ℕ → Result IpcFrame IpcError
new token verb payload = do
  ensure (leb (length payload) max_payload_len) (payload_too_large (length payload))
  ok (record { token = token; verb = verb; payload = payload })

-- What the checksum covers. The length is written as a `u16`.
unfoldable pub frame_body : IpcFrame → List ℕ
unfolding verb_to_u32
frame_body f =
    magic_bytes
    ++ (to_le_bytes 2 protocol_version
        ++ (to_le_bytes 2 (length f.payload)
            ++ (f.token ++ (to_le_bytes 4 (verb_to_u32 f.verb) ++ f.payload))))

unfoldable pub serialize : IpcFrame → List ℕ
serialize f = frame_body f ++ to_le_bytes 4 (crc32 (frame_body f))

abbrev pub min_frame_size : ℕ
min_frame_size = 48

-- The checks up to the payload length, which is returned.
unfoldable pub check_header : List ℕ → Result ℕ IpcError
check_header bytes = do
  ensure (leb min_frame_size (length bytes)) payload_truncated
  ensure (bytes_eq (slice 0 4 bytes) magic_bytes) invalid_magic
  let version = from_le_bytes (slice 4 6 bytes)
  ensure (version == protocol_version) (unsupported_version version)
  let payload_len = from_le_bytes (slice 6 8 bytes)
  ensure (leb payload_len max_payload_len) (payload_too_large payload_len)
  ok payload_len

-- The total length, then the checksum.
unfoldable pub check_body : ℕ → List ℕ → Result (Unit {0}) IpcError
check_body payload_len bytes = do
  let expected_total_len = 4 + 2 + 2 + token_len + 4 + payload_len + 4
  ensure (leb expected_total_len (length bytes)) payload_truncated
  ensure (leb (length bytes) expected_total_len) (trailing_bytes expected_total_len (length bytes))
  let body_len = 4 + 2 + 2 + token_len + 4 + payload_len
  let expected_crc = from_le_bytes (slice body_len (body_len + 4) bytes)
  let calculated_crc = crc32 (take body_len bytes)
  ensure (calculated_crc == expected_crc) (crc_mismatch expected_crc calculated_crc)

unfoldable pub read_fields : ℕ → List ℕ → Result IpcFrame IpcError
read_fields payload_len bytes = do
  let verb_raw = from_le_bytes (slice 40 44 bytes)
  verb ← ok_or (verb_from_u32 verb_raw) (invalid_command_verb verb_raw)
  ok (record { token = slice 8 40 bytes; verb = verb; payload = slice 44 (44 + payload_len) bytes })

unfoldable pub deserialize : List ℕ → Result IpcFrame IpcError
deserialize bytes = do
  payload_len ← check_header bytes
  check_body payload_len bytes
  read_fields payload_len bytes
