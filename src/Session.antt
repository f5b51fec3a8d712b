-- ===== src/Session.antt =====
-- apps/true-tick/src/session.rs: the tombstone of a running session, and how the earlier session
-- ended. The hash is a parameter; the files are calls of the operating system.
pub mod Files
pub mod Classified
use true_tick.Base.{
  ℕ, zero, suc, ltb, ◌==◌, if◌then◌else◌, Bool, true, false, not, ◌&&◌, ◌||◌, Option, none, some,
  List, [], ◌∷◌, ◌++◌, Result, ok, err, length, drop, take, map,
}
use true_tick.Base.Try.{◌>>=◌, ◌>>◌, ensure}
use true_tick.Base.Bytes.{bytes_eq, to_le_bytes, from_le_bytes, slice}
use true_tick.Base.Text.{Text, codes, trim, starts_with, show}
use true_tick.Ipc.Response.{is_utf8}
use true_tick.Diagnostics.{truncate_utf8}

pub record SessionTombstone : Type 0 where
  pub pid : ℕ
  pub startup_timestamp_secs : ℕ

pub data SessionError : Type 0 where
  unreadable corrupted : (detail : Text) → SessionError
  clock_error : SessionError

abbrev pub session_state_running : Text
session_state_running = codes "running"

abbrev pub session_state_clean : Text
session_state_clean = codes "clean"

abbrev pub tombstone_magic : Text
tombstone_magic = codes "TTSS"

abbrev pub tombstone_version : Text
tombstone_version = codes "v1"

abbrev pub tombstone_header_len : ℕ
tombstone_header_len = 50

abbrev pub max_abort_reason_bytes : ℕ
max_abort_reason_bytes = 160

unfoldable pub describe : SessionError → Text
describe (unreadable detail) = codes "session marker unreadable " ++ detail
describe (corrupted detail) = codes "session marker corrupted " ++ detail
describe clock_error = codes "system clock predates the epoch"

unfoldable pub format_payload : SessionTombstone → Text
format_payload t =
    codes "state="
    ++ session_state_running
    ++ codes "\npid="
    ++ show t.pid
    ++ codes "\nstartup_timestamp="
    ++ show t.startup_timestamp_secs
    ++ codes "\n"

pub data PreviousSession : Type 0 where
  first_run clean_exit unclean_shutdown corrupted unreadable : PreviousSession

unfoldable pub is_legacy_unclean_text : Text → Bool
is_legacy_unclean_text text =
    let trimmed = trim text in
    bytes_eq trimmed session_state_running
    || starts_with (codes "state=running") trimmed
    || starts_with (codes "state=aborted") trimmed

unfoldable pub classify_previous_session : Option Text → Result PreviousSession SessionError
classify_previous_session none = ok first_run
classify_previous_session (some content) =
    ok (if bytes_eq (trim content) session_state_clean then clean_exit else unclean_shutdown)

-- What a marker that is no tombstone tells.
unfoldable pub classify_text : Text → PreviousSession
classify_text bytes =
    if is_utf8 bytes
    then (if bytes_eq (trim bytes) session_state_clean
        then clean_exit
        else (if is_legacy_unclean_text bytes then unclean_shutdown else PreviousSession.corrupted))
    else PreviousSession.corrupted

-- A reason becomes one line of at most 160 bytes.
unfoldable pub sanitize_abort_reason : Text → Text
sanitize_abort_reason reason =
    truncate_utf8 (map (λ b. if b == 10 || b == 13 then 32 else b) reason) max_abort_reason_bytes

module _ (sha256 : Text → Text) where
  unfoldable pub checksum : SessionTombstone → Text
  checksum t = sha256 (
      tombstone_magic
      ++ tombstone_version
      ++ to_le_bytes 4 t.pid
      ++ to_le_bytes 8 t.startup_timestamp_secs)

  unfoldable pub encode_bytes : SessionTombstone → Text
  encode_bytes t =
      tombstone_magic
      ++ (tombstone_version
          ++ (checksum t ++ (to_le_bytes 4 t.pid ++ to_le_bytes 8 t.startup_timestamp_secs)))

  abbrev pub corrupted_tombstone : Text → SessionError
  corrupted_tombstone detail = SessionError.corrupted (codes "tombstone " ++ detail)

  unfoldable pub decode_bytes : Text → Result SessionTombstone SessionError
  decode_bytes bytes = do
    ensure (not (ltb (length bytes) tombstone_header_len))
        (corrupted_tombstone (codes "is truncated"))
    ensure (bytes_eq (slice 0 4 bytes) tombstone_magic)
        (corrupted_tombstone (codes "magic mismatch"))
    ensure (bytes_eq (slice 4 6 bytes) tombstone_version)
        (corrupted_tombstone (codes "version mismatch"))
    let candidate : SessionTombstone = record {
      pid = from_le_bytes (slice 38 42 bytes);
      startup_timestamp_secs = from_le_bytes (slice 42 50 bytes);
    }
    ensure (bytes_eq (checksum candidate) (slice 6 38 bytes))
        (corrupted_tombstone (codes "checksum mismatch"))
    ok candidate

  unfoldable pub classify_previous_session_bytes : Option Text → PreviousSession
  classify_previous_session_bytes none = first_run
  classify_previous_session_bytes (some bytes) = elim (decode_bytes bytes) [
    | ok tombstone ↦ unclean_shutdown
    | err e ↦ classify_text bytes
  ]

  unfoldable pub describe_marker : Text → Text
  describe_marker bytes = elim (decode_bytes bytes) [
    | ok t ↦
        codes "tombstone pid="
        ++ show t.pid
        ++ codes " startup_timestamp="
        ++ show t.startup_timestamp_secs
    | err e ↦
        if is_utf8 bytes
        then codes "legacy text " ++ truncate_utf8 (trim bytes) 64
        else codes "binary " ++ show (length bytes) ++ codes " bytes"
  ]

  unfoldable pub classify_session_read : Result (Option Text) SessionError → PreviousSession
  classify_session_read (ok marker) = classify_previous_session_bytes marker
  classify_session_read (err (SessionError.unreadable detail)) = PreviousSession.unreadable
  classify_session_read (err (SessionError.corrupted detail)) = PreviousSession.corrupted
  classify_session_read (err clock_error) = PreviousSession.corrupted
