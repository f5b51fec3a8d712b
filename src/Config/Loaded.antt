-- ===== src/Config/Loaded.antt =====
-- What a load of apps/true-tick/src/config.rs returns, and the free name of its backup.
use true_tick.Base.{
  ℕ, zero, suc, ◌+◌, ◌<◌, ◌≤◌, ◌≡◌, inl, inr, refl, ap, subst, if◌then◌else◌, Bool, true, false, ok,
  done, ◌>>=◌, ◌>>◌, method_inv, arith, length, is_empty, Bool-cases,
}
use true_tick.Base.Try.{Result-cases, ok_inj}
use true_tick.Base.Text.{Text}
use true_tick.Ipc.Response.{is_utf8}
use true_tick.Config.{Config, default_config, parse_with_migration}
use true_tick.Config.Bounds.{IsBounded, default-IsBounded, parse_with_migration-IsBounded}
use true_tick.Config.Files.{
  ConfigFiles, LoadOutcome, Load, told, calling, reading, read_error, write_error, save_atomic,
  backup_name, find_backup, or_zero, recover_corrupted, finish_load, load_text, load_bytes,
  within_size, load_with_migration,
}

module _ {W : Type 0} (files : ConfigFiles W) where
  -- The configuration is bounded, and a recovered one is the default.
  abbrev pub IsLoaded : LoadOutcome → Type 0
  IsLoaded o =
      IsBounded o.config
      × (o.recovered_from_corruption ≡ true → (o.config ≡ default_config) × (o.migrated ≡ false))

  abbrev Loads : Load files LoadOutcome → Type 0
  Loads m = (w v : W) (o : LoadOutcome) → m w ≡ (ok o, v) → IsLoaded o

  recover-Loads : Loads (recover_corrupted files)
  unfolding recover_corrupted
  recover-Loads w v o h =
      let found =
        reading files (λ w. find_backup files 1025 (or_zero files (files.epoch_millis w)) 0 w) in
      let fresh : LoadOutcome = record {
        config = default_config;
        migrated = false;
        recovered_from_corruption = true;
      } in
      let last : Load files LoadOutcome = done (ok fresh) in
      let (backup, t, named, h1) =
        method_inv found
          (λ b.
            calling files write_error (files.rename_to_backup b)
            >> (save_atomic files default_config >> last))
          w h in
      let (a, t1, renamed, h2) =
        method_inv (calling files write_error (files.rename_to_backup backup))
          (λ u. save_atomic files default_config >> last) t h1 in
      let (b, t2, saved, h3) = method_inv (save_atomic files default_config) (λ u. last) t1 h2 in
      subst IsLoaded (ok_inj (ap (λ r. r.0) h3)) (default-IsBounded, λ e. (refl, refl))

  finish-Loads :
      (c : Config) (migrated : Bool) → IsBounded c → Loads (finish_load files (c, migrated))
  unfolding finish_load
  finish-Loads c migrated bounded w v o h =
      let loaded : LoadOutcome = record {
        config = c;
        migrated = migrated;
        recovered_from_corruption = false;
      } in
      let last : Load files LoadOutcome = done (ok loaded) in
      let (a, t, saved, h1) =
        method_inv (if migrated then save_atomic files c else done (ok tt)) (λ u. last) w h in
      subst IsLoaded (ok_inj (ap (λ r. r.0) h1)) (bounded, λ e. ground (arith, e))

  text-Loads : (bytes : Text) → Loads (load_text files bytes)
  unfolding load_text
  text-Loads bytes w v o h = elim (Result-cases (parse_with_migration bytes)) [
    | inl ((c, migrated), e) ↦
        finish-Loads c migrated (parse_with_migration-IsBounded bytes c migrated e) w v o
          (ground (arith, h, e))
    | inr (reason, e) ↦ recover-Loads w v o (ground (arith, h, e))
  ]

  bytes-Loads : (bytes : Text) → Loads (load_bytes files bytes)
  unfolding load_bytes
  bytes-Loads bytes = choice (is_empty bytes) (is_utf8 bytes)
    where
      choice :
          (blank valid : Bool)
          → Loads (
              if blank
              then recover_corrupted files
              else (if valid then load_text files bytes else recover_corrupted files))
      choice true valid = recover-Loads
      choice false true = text-Loads bytes
      choice false false = recover-Loads

  -- A load that succeeds yields a configuration whose interval is not the legacy one and which has
  -- one to twelve presets, each of 10 to 86400 seconds, and yields the default one, not migrated,
  -- where the file was recovered.
  pub load_with_migration-IsLoaded :
      (w v : W) (o : LoadOutcome) → load_with_migration files w ≡ (ok o, v) → IsLoaded o
  unfolding load_with_migration
  load_with_migration-IsLoaded w v o h =
      let content = reading files (λ w. told files read_error (files.read w)) in
      let rest : Text → Load files LoadOutcome =
        λ b. done (within_size files (length b)) >> load_bytes files b in
      let (len, t, sized, h1) =
        method_inv (reading files (λ w. told files read_error (files.size w)))
          (λ n. done (within_size files n) >> (content >>= rest)) w h in
      let (a, t1, fits, h2) =
        method_inv (done (within_size files len)) (λ u. content >>= rest) t h1 in
      let (bytes, t2, got, h3) = method_inv content rest t1 h2 in
      let (b, t3, fitted, h4) =
        method_inv (done (within_size files (length bytes))) (λ u. load_bytes files bytes) t2 h3 in
      bytes-Loads bytes t3 v o h4

  -- The search for the name of a backup finds a name that is free, where one of the names it may
  -- try is free.
  pub find_backup-free :
      (fuel timestamp attempt : ℕ) (w : W)
      → ((n : ℕ) × ((attempt ≤ n)
            × (n < attempt + fuel)
            × (files.exists_backup (backup_name files timestamp n) w ≡ false)))
      → (name : Text) × (find_backup files fuel timestamp attempt w ≡ ok name)
        × (files.exists_backup name w ≡ false)
  unfolding find_backup
  find_backup-free zero timestamp attempt w (n, (low, high, free)) =
      absurd (omega (arith, low, high))
  find_backup-free (suc fuel) timestamp attempt w (n, (low, high, free)) =
      elim (Bool-cases (files.exists_backup (backup_name files timestamp attempt) w)) [
        | inr here ↦ (backup_name files timestamp attempt, rw (find_backup, here) refl, here)
        | inl taken ↦
            let (name, found, unused) =
              find_backup-free fuel timestamp (suc attempt) w
                (n, (later n low taken free, omega (arith, high), free)) in
            (name, rw (find_backup, taken) found, unused)
      ]
    where
      later :
          (n : ℕ)
          → attempt ≤ n
          → files.exists_backup (backup_name files timestamp attempt) w ≡ true
          → files.exists_backup (backup_name files timestamp n) w ≡ false
          → suc attempt ≤ n
      later n low taken free = grind (arith, low, taken, free)
