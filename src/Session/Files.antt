-- ===== src/Session/Files.antt =====
-- apps/true-tick/src/session.rs: the reads and writes of the marker. The files and the clock are
-- calls of the operating system: an interface.
use true_tick.Base.{ℕ, Bool, true, false, Option, none, some, ◌++◌, Result, ok, err, Method, ◌>>◌}
use true_tick.Base.Text.{Text, codes, show}
use true_tick.Session.{SessionTombstone, SessionError, encode_bytes, sanitize_abort_reason}

pub data IoError : Type 0 where
  not_found : IoError
  other : (code : ℕ) → IoError

abbrev pub is_missing : IoError → Bool
is_missing not_found = true
is_missing (other code) = false

-- The marker, and the temporary file beside it.
pub record MarkerFiles (W : Type 0) : Type 0 where
  pub read : W → Result Text IoError
  pub create_dir_all : Method W (Unit {0}) IoError
  pub create_temporary : Method W (Unit {0}) IoError
  pub write_all : Text → Method W (Unit {0}) IoError
  pub sync_all : Method W (Unit {0}) IoError
  pub replace : Method W (Unit {0}) IoError
  pub remove_temporary : Method W (Unit {0}) IoError
  pub remove_marker : Method W (Unit {0}) IoError
  pub epoch_seconds : W → Option ℕ
  pub process_id : ℕ
  pub marker_path : Text

module _ {W : Type 0} (files : MarkerFiles W) where
  unfoldable pub session_error_for_read : IoError → SessionError
  session_error_for_read not_found =
      SessionError.corrupted (codes "missing path reported as read error")
  session_error_for_read (other code) =
      SessionError.unreadable (codes "path=" ++ files.marker_path ++ codes " error=" ++ show code)

  unfoldable pub read_session_marker_bytes : W → Result (Option Text) SessionError
  read_session_marker_bytes w = elim (files.read w) [
    | ok bytes ↦ ok (some bytes)
    | err not_found ↦ ok none
    | err (other code) ↦ err (session_error_for_read (other code))
  ]

  unfoldable pub replace_marker : Text → Method W (Unit {0}) IoError
  replace_marker bytes = do
    files.create_temporary
    files.write_all bytes
    files.sync_all
    files.replace

  -- A write that fails removes the temporary file.
  abbrev pub cleaning : Result (Unit {0}) IoError × W → Result (Unit {0}) IoError × W
  cleaning (ok u, v) = (ok u, v)
  cleaning (err e, v) = (err e, (files.remove_temporary v).1)

  unfoldable pub write_session_bytes_atomic : Text → Method W (Unit {0}) IoError
  write_session_bytes_atomic bytes = files.create_dir_all >> λ w. cleaning (replace_marker bytes w)

  unfoldable pub remove_session_marker : Method W (Unit {0}) IoError
  remove_session_marker w =
      let (r, v) = files.remove_marker w in
      elim r [
        | ok u ↦ (ok tt, v)
        | err not_found ↦ (ok tt, v)
        | err (other code) ↦ (err (other code), v)
      ]

  unfoldable pub current : W → Result SessionTombstone SessionError
  current w = elim (files.epoch_seconds w) [
    | none ↦ err SessionError.clock_error
    | some seconds ↦ ok (record { pid = files.process_id; startup_timestamp_secs = seconds })
  ]

  module _ (sha256 : Text → Text) where
    unfoldable pub create_session_tombstone : SessionTombstone → Method W (Unit {0}) IoError
    create_session_tombstone tombstone = write_session_bytes_atomic (encode_bytes sha256 tombstone)

    -- A clock before the epoch is told as an error without a code, here 0.
    unfoldable pub write_aborted_session_marker : Text → Method W (Unit {0}) IoError
    write_aborted_session_marker reason w = elim (current w) [
      | err e ↦ (err (other 0), w)
      | ok tombstone ↦
          write_session_bytes_atomic (encode_bytes sha256 tombstone ++ sanitize_abort_reason reason)
            w
    ]
