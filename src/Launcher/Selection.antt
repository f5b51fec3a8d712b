-- ===== src/Launcher/Selection.antt =====
-- apps/launcher/src/main.rs: the health of the slots, the release counter, the restoration from the
-- golden master and the selection. Each changes the files, and stops at the first error.
use true_tick.Base.{
  ℕ, suc, leb, if◌then◌else◌, Bool, true, false, Option, none, some, [], ◌∷◌, ◌++◌, Result, ok, err,
  Method, done, ◌>>=◌, ◌>>◌, min,
}
use true_tick.Base.Bytes.{bytes_eq}
use true_tick.Base.Text.{Text, codes, show}
use true_tick.Launcher.{
  Slot, slot_a, slot_b, slot_name, alternate, RelPath, IoError, SelectionError, metadata_read,
  invalid_metadata, executable_missing, checksum_mismatch, crash_loop_detected,
  both_slots_corrupted, health_tracking_failure, release_counter_state_failure, Host, describe,
  map_err, normalize_active_slot, parse_active_slot,
}
use true_tick.Launcher.Slots.{
  executable_path, recovery_executable_rel, release_counter_state_path, health_path, compute_sha256,
  read_slot_health, verify_slot_executable, verify_golden_master,
}

abbrev pub state_directory : RelPath
state_directory = codes "Data" ∷ codes "state" ∷ []

abbrev pub logs_directory : RelPath
logs_directory = codes "Data" ∷ codes "logs" ∷ []

abbrev pub rollback_log_path : RelPath
rollback_log_path = codes "Data" ∷ codes "logs" ∷ codes "launcher-rollback.log" ∷ []

abbrev pub active_slot_path : RelPath
active_slot_path = codes "active-slot.txt" ∷ []

abbrev pub boot_failure_threshold : ℕ
boot_failure_threshold = 3

module _ {W : Type 0} (host : Host W) where
  abbrev pub Launch {ℓ} : Type ℓ → Type ℓ
  Launch A = Method W A SelectionError

  -- A call whose failure is told as the given error, and a read of the files as they stand.
  abbrev pub calling : (IoError → SelectionError) → Method W (Unit {0}) IoError → Launch (Unit {0})
  calling failure m w = let (r, v) = m w in (map_err failure r, v)

  abbrev pub reading {ℓ} : {A : Type ℓ} → (W → Result A SelectionError) → Launch A
  reading f w = (f w, w)

  -- A call whose result is ignored.
  abbrev pub ignoring : Method W (Unit {0}) IoError → Launch (Unit {0})
  ignoring m w = (ok tt, (m w).1)

  abbrev pub staging : RelPath → Text → RelPath
  staging directory name = directory ++ (name ++ codes ".staging." ++ host.pid ++ codes ".tmp") ∷ []

  -- A move that fails removes the staged file.
  unfoldable pub atomic_replace : RelPath → RelPath → Launch (Unit {0})
  atomic_replace staged target w =
      let (r, v) = host.files.move_replacing staged target w in
      elim r [
        | ok _ ↦ (ok tt, v)
        | err e ↦ (err (metadata_read e), (host.files.remove_file staged v).1)
      ]

  unfoldable pub persist_release_counter : ℕ → Launch (Unit {0})
  persist_release_counter counter =
      let failure = λ (e : IoError). release_counter_state_failure in
      let staged = staging state_directory (codes "release-counter.state") in
      do
        calling failure (host.files.create_dir_all state_directory)
        calling failure (host.files.write staged (show counter ++ codes "\n"))
        atomic_replace staged release_counter_state_path
        ignoring (host.files.remove_file staged)

  unfoldable pub commit_release_counter : Option ℕ → Launch (Unit {0})
  commit_release_counter none = done (ok tt)
  commit_release_counter (some counter) = persist_release_counter counter

  -- The failure of the move is told as one of the health state too.
  abbrev pub committing : Launch (Unit {0}) → Launch (Unit {0})
  committing m w = let (r, v) = m w in (map_err (λ _. health_tracking_failure) r, v)

  unfoldable pub increment_slot_health : Slot → Launch ℕ
  increment_slot_health slot =
      let failure = λ (e : IoError). health_tracking_failure in
      let staged =
        staging state_directory (codes "slot-" ++ slot_name slot ++ codes "-health.state") in
      do
        calling failure (host.files.create_dir_all state_directory)
        health ← reading (read_slot_health host slot)
        let count = min (suc health) 4294967295
        calling failure (host.files.write staged (show count ++ codes "\n"))
        committing (atomic_replace staged (health_path slot))
        ignoring (host.files.remove_file staged)
        done (ok count)

  unfoldable pub clear_slot_health : Slot → Launch (Unit {0})
  clear_slot_health slot w =
      if host.files.exists (health_path slot) w
      then calling (λ _. health_tracking_failure) (host.files.remove_file (health_path slot)) w
      else (ok tt, w)

  -- A line at the end of the rollback log.
  unfoldable pub append_to_log : Text → Launch (Unit {0})
  append_to_log entry = do
    calling (λ _. health_tracking_failure) (host.files.create_dir_all logs_directory)
    calling (λ _. health_tracking_failure) (host.files.append rollback_log_path entry)

  unfoldable pub record_golden_master_restoration : Slot → Launch (Unit {0})
  record_golden_master_restoration target = append_to_log (
      codes "event=autonomous_golden_master_restoration target=Slot::"
      ++ slot_name target
      ++ codes " status=restored\n")

  unfoldable pub record_rollback_decision : Slot → Slot → SelectionError → Launch (Unit {0})
  record_rollback_decision from to cause = append_to_log (
      codes "event=autonomous_slot_rollback from="
      ++ slot_name from
      ++ codes " to="
      ++ slot_name to
      ++ codes " cause="
      ++ describe host cause
      ++ codes "\n")

  unfoldable pub write_active_slot : Slot → Launch (Unit {0})
  write_active_slot slot =
      let staged = staging [] (codes "active-slot.txt") in
      do
        calling metadata_read (host.files.write staged (slot_name slot ++ codes "\n"))
        atomic_replace staged active_slot_path
        ignoring (host.files.remove_file staged)

  -- The copy of the golden master has the hash of its source; else it is removed.
  unfoldable pub check_copy : RelPath → RelPath → Launch (Unit {0})
  check_copy staged golden = do
    staging_hash ← reading (λ w. map_err metadata_read (compute_sha256 host staged w))
    golden_hash ← reading (λ w. map_err metadata_read (compute_sha256 host golden w))
    if bytes_eq staging_hash golden_hash
        then done (ok tt)
        else (ignoring (host.files.remove_file staged)
            >> done (err (checksum_mismatch recovery_executable_rel golden_hash staging_hash)))

  -- The golden master and its configuration are put in slot A.
  unfoldable pub install_golden_master : Launch (Unit {0})
  install_golden_master =
      let golden_config = codes "Recovery" ∷ codes "true-tick.toml" ∷ [] in
      let slot_directory = codes "Slots" ∷ codes "A" ∷ [] in
      let staged = staging slot_directory (codes "true-tick.exe") in
      do
        golden ← reading (verify_golden_master host)
        config_is_file ← reading (λ w. ok (host.files.is_file golden_config w))
        done (if config_is_file then ok tt else err (executable_missing golden_config))
        calling metadata_read (host.files.create_dir_all slot_directory)
        calling metadata_read (host.files.copy golden staged)
        check_copy staged golden
        atomic_replace staged (executable_path slot_a)
        ignoring (host.files.remove_file staged)
        calling metadata_read
            (host.files.copy golden_config (slot_directory ++ codes "true-tick.toml" ∷ []))

  unfoldable pub finish_restoration : RelPath × Option ℕ → Launch (RelPath × Option ℕ)
  finish_restoration (executable, pending) = do
    record_golden_master_restoration slot_a
    write_active_slot slot_a
    done (ok (executable_path slot_a, pending))

  unfoldable pub restore_from_golden_master : Launch (RelPath × Option ℕ)
  restore_from_golden_master =
      install_golden_master >> (reading (verify_slot_executable host slot_a) >>= finish_restoration)

  unfoldable pub fallback_slot_from_installed_executables : W → Option Slot
  fallback_slot_from_installed_executables w =
      if host.files.exists (executable_path slot_a) w
      then some slot_a
      else (if host.files.exists (executable_path slot_b) w then some slot_b else none)

  unfoldable pub active_slot : Text → W → Result Slot SelectionError
  active_slot raw w = elim (parse_active_slot raw) [
    | some slot ↦ ok slot
    | none ↦ elim (fallback_slot_from_installed_executables w) [
      | some slot ↦ ok slot
      | none ↦ err (invalid_metadata (normalize_active_slot raw))
    ]
  ]

  unfoldable pub verify_and_check_slot : Slot → W → Result (RelPath × Option ℕ) SelectionError
  verify_and_check_slot slot w = elim (read_slot_health host slot w) [
    | err e ↦ err e
    | ok failures ↦
        if leb boot_failure_threshold failures
        then err (crash_loop_detected slot failures)
        else verify_slot_executable host slot w
  ]

  abbrev pub is_health_failure : SelectionError → Bool
  is_health_failure health_tracking_failure = true
  is_health_failure _ = false

  -- A restoration that fails leaves both slots rejected, for the two causes.
  abbrev pub or_corrupted :
      SelectionError → SelectionError → Launch (RelPath × Option ℕ) → Launch (RelPath × Option ℕ)
  or_corrupted active standby m w =
      let (r, v) = m w in
      (map_err (λ _. both_slots_corrupted (describe host active) (describe host standby)) r, v)

  -- The slot is committed for launch: its health is cleared and the counter written.
  unfoldable pub commit_slot : Slot → RelPath × Option ℕ → Launch (Slot × RelPath)
  commit_slot slot (executable, pending) = do
    clear_slot_health slot
    commit_release_counter pending
    done (ok (slot, executable))

  unfoldable pub select_golden_master : SelectionError → SelectionError → Launch (Slot × RelPath)
  select_golden_master active standby =
      or_corrupted active standby restore_from_golden_master >>= λ restored.
      clear_slot_health slot_a
      >> (clear_slot_health slot_b
          >> (commit_release_counter restored.1 >> done (ok (slot_a, restored.0))))

  unfoldable pub select_standby : Slot → SelectionError → Launch (Slot × RelPath)
  select_standby slot active_error w = elim (verify_and_check_slot (alternate slot) w) [
    | ok verified ↦
        (record_rollback_decision slot (alternate slot) active_error
            >> (write_active_slot (alternate slot) >> commit_slot (alternate slot) verified))
          w
    | err standby_error ↦
        if is_health_failure standby_error
        then (err standby_error, w)
        else (increment_slot_health (alternate slot) >>= λ _.
              select_golden_master active_error standby_error)
            w
  ]

  unfoldable pub select_active : Slot → Launch (Slot × RelPath)
  select_active slot w = elim (verify_and_check_slot slot w) [
    | ok verified ↦ commit_slot slot verified w
    | err active_error ↦
        if is_health_failure active_error
        then (err active_error, w)
        else (increment_slot_health slot >>= λ _. select_standby slot active_error) w
  ]

  unfoldable pub select : Launch (Slot × RelPath)
  select =
      reading (λ w. map_err metadata_read (host.files.read_to_string active_slot_path w)) >>= λ raw.
      reading (active_slot raw) >>= select_active
