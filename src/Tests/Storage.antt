-- ===== src/Tests/Storage.antt =====
-- The session marker and the configuration at concrete inputs.
use true_tick.Base.{
  ℕ, ◌≡◌, ◌<◌, ◌^◌, refl, subst, ap, true, false, ◌==◌, Option, none, some, [], ◌++◌, Result, ok,
  err, Method, arith, length,
}
use true_tick.Base.Text.{Text, codes, show, digits_within, digits_value, repeat}
use true_tick.Base.Bytes.{bytes_eq}
use true_tick.Ipc.Response.{utf8_rest}
use true_tick.Session.{
  SessionTombstone, PreviousSession, encode_bytes, decode_bytes, classify_session_read,
  sanitize_abort_reason,
}
use true_tick.Session.Files.{
  IoError, MarkerFiles, replace_marker, write_session_bytes_atomic, read_session_marker_bytes,
  current, write_aborted_session_marker,
}
use true_tick.Session.Classified.{decode-encode_bytes, IsReadBack, aborted-unclean}
use true_tick.Config.{
  default_config, parse_with_migration, parse_lines, parse_line, parse_entry, apply_key,
  parse_interval,
}
use true_tick.Config.Files.{
  ConfigFiles, LoadOutcome, backup_name, find_backup, load_with_migration, load_bytes, load_text,
  finish_load, save_atomic, replace_config,
}
use true_tick.Config.Loaded.{IsLoaded, load_with_migration-IsLoaded, find_backup-free}

-- A hash of 32 bytes that are all the same.
abbrev flat : Text → Text
flat s = repeat 32 7

length-flat : (s : Text) → length (flat s) ≡ 32
length-flat s = refl

abbrev tombstone : SessionTombstone
tombstone = record { pid = 300; startup_timestamp_secs = 70000 }

decode-encode_bytes_example :
    decode_bytes flat (encode_bytes flat tombstone ++ codes "why") ≡ ok tombstone
decode-encode_bytes_example =
    decode-encode_bytes flat length-flat tombstone (codes "why") (omega arith) (omega arith)

-- The state of the marker is its bytes and those of the temporary file.
abbrev Disk : Type 0
Disk = Option Text × Text

abbrev moved : Method Disk (Unit {0}) IoError
moved (marker, temporary) = (ok tt, (some temporary, []))

abbrev read_marker : Disk → Result Text IoError
read_marker (none, temporary) = err IoError.not_found
read_marker (some bytes, temporary) = ok bytes

abbrev disk_files : MarkerFiles Disk
disk_files = record {
  read = read_marker;
  create_dir_all = λ d. (ok tt, d);
  create_temporary = λ d. (ok tt, (d.0, []));
  write_all = λ bytes d. (ok tt, (d.0, d.1 ++ bytes));
  sync_all = λ d. (ok tt, d);
  replace = moved;
  remove_temporary = λ d. (ok tt, (d.0, []));
  remove_marker = λ d. (ok tt, (none, d.1));
  epoch_seconds = λ d. some 70000;
  process_id = 300;
  marker_path = codes "session.state";
}

disk-IsReadBack : IsReadBack disk_files
unfolding replace_marker
disk-IsReadBack bytes w v h = subst (λ d. read_marker d ≡ ok bytes) (ap (λ r. r.1) h) refl

abbrev aborted_bytes : Text
aborted_bytes = encode_bytes flat tombstone ++ sanitize_abort_reason (codes "no pipe")

aborted :
    write_aborted_session_marker disk_files flat (codes "no pipe") (none, [])
    ≡ (ok tt, (some aborted_bytes, []))
unfolding write_aborted_session_marker current write_session_bytes_atomic replace_marker
aborted = refl

aborted-unclean_example :
    classify_session_read flat (read_session_marker_bytes disk_files (some aborted_bytes, []))
    ≡ PreviousSession.unclean_shutdown
aborted-unclean_example =
    aborted-unclean disk_files flat length-flat disk-IsReadBack (codes "no pipe") (none, [])
      (some aborted_bytes, []) (omega arith) clock aborted
  where
    clock : (seconds : ℕ) → some 70000 ≡ some seconds → seconds < 2 ^ 64
    clock seconds e = ground (arith, e)

-- A configuration file of one line, beside one backup.
abbrev legacy_text : Text
legacy_text = codes "request_interval_hns = 10000 # old\r\n"

abbrev legacy_files : ConfigFiles (Unit {0})
legacy_files = record {
  size = λ w. ok 36;
  read = λ w. ok legacy_text;
  exists_backup = λ name w. length name == 15;
  rename_to_backup = λ name w. (ok tt, w);
  fetch_add_sequence = λ w. (0, w);
  create_temporary = λ name w. (ok tt, w);
  write_all = λ name text w. (ok tt, w);
  sync_all = λ name w. (ok tt, w);
  replace = λ name w. (ok tt, w);
  remove_temporary = λ name w. (ok tt, w);
  epoch_millis = λ w. some 5;
  process_id = 1;
  file_name = codes "t.toml";
  file_stem = codes "t";
}

abbrev migrated : LoadOutcome
migrated = record { config = default_config; migrated = true; recovered_from_corruption = false }

loaded : load_with_migration legacy_files tt ≡ (ok migrated, tt)
unfolding load_with_migration load_bytes load_text finish_load utf8_rest parse_with_migration
    parse_lines parse_line parse_entry apply_key bytes_eq parse_interval digits_value save_atomic
    replace_config
loaded = refl

load_with_migration-IsLoaded_example : IsLoaded legacy_files migrated
load_with_migration-IsLoaded_example =
    load_with_migration-IsLoaded legacy_files tt tt migrated loaded

find_backup-free_example :
    (name : Text) × (find_backup legacy_files 1025 5 0 tt ≡ ok name)
    × (legacy_files.exists_backup name tt ≡ false)
unfolding backup_name show digits_within
find_backup-free_example =
    find_backup-free legacy_files 1025 5 0 tt (1, (omega arith, omega arith, second_free))
  where
    second_free : legacy_files.exists_backup (backup_name legacy_files 5 1) tt ≡ false
    second_free = refl
