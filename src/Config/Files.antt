-- ===== src/Config/Files.antt =====
-- apps/true-tick/src/config.rs: the load of the configuration, its recovery and its replacement. The
-- files, the clock and the process id are calls of the operating system: an interface. The sequence
-- of the temporary names is a state of the process, of 64 bits.
use true_tick.Base.{
  ℕ, zero, suc, ltb, if◌then◌else◌, Bool, true, false, Option, none, some, ◌++◌, Result, ok, err,
  Method, done, ◌>>=◌, ◌>>◌, length, is_empty,
}
use true_tick.Base.Text.{Text, codes, show}
use true_tick.Ipc.Response.{is_utf8}
use true_tick.Config.{
  Config, Reason, default_config, invalid_reason, max_config_file_bytes, parse_with_migration,
  config_text,
}

-- The raw code of an error of the operating system.
abbrev pub IoError : Type 0
IoError = ℕ

pub data ConfigError : Type 0 where
  read_error write_error : IoError → ConfigError
  invalid : Reason → ConfigError
  no_unique_name : ConfigError

pub record ConfigFiles (W : Type 0) : Type 0 where
  pub size : W → Result ℕ IoError
  pub read : W → Result Text IoError
  pub exists_backup : Text → W → Bool
  pub rename_to_backup : Text → Method W (Unit {0}) IoError
  pub fetch_add_sequence : W → ℕ × W
  pub create_temporary : Text → Method W (Unit {0}) IoError
  pub write_all : Text → Text → Method W (Unit {0}) IoError
  pub sync_all : Text → Method W (Unit {0}) IoError
  pub replace : Text → Method W (Unit {0}) IoError
  pub remove_temporary : Text → Method W (Unit {0}) IoError
  pub epoch_millis : W → Option ℕ
  pub process_id : ℕ
  pub file_name : Text
  pub file_stem : Text

pub record LoadOutcome : Type 0 where
  pub config : Config
  pub migrated : Bool
  pub recovered_from_corruption : Bool

module _ {W : Type 0} (files : ConfigFiles W) where
  abbrev pub Load {ℓ} : Type ℓ → Type ℓ
  Load A = Method W A ConfigError

  abbrev pub told {ℓ} :
      {A : Type ℓ} → (IoError → ConfigError) → Result A IoError → Result A ConfigError
  told failure (ok a) = ok a
  told failure (err e) = err (failure e)

  abbrev pub calling : (IoError → ConfigError) → Method W (Unit {0}) IoError → Load (Unit {0})
  calling failure m w = let (r, v) = m w in (told failure r, v)

  abbrev pub reading {ℓ} : {A : Type ℓ} → (W → Result A ConfigError) → Load A
  reading f w = (f w, w)

  unfoldable pub temporary_name : ℕ → Text
  temporary_name sequence =
      files.file_stem
      ++ codes "."
      ++ show files.process_id
      ++ codes "."
      ++ show sequence
      ++ codes ".toml.tmp"

  unfoldable pub replace_config : Text → Text → Load (Unit {0})
  replace_config temporary text = do
    calling write_error (files.create_temporary temporary)
    calling write_error (files.write_all temporary text)
    calling write_error (files.sync_all temporary)
    calling write_error (files.replace temporary)

  -- A save that fails removes its temporary file.
  abbrev pub cleaning : Text → Result (Unit {0}) ConfigError × W → Result (Unit {0}) ConfigError × W
  cleaning temporary (ok u, v) = (ok u, v)
  cleaning temporary (err e, v) = (err e, (files.remove_temporary temporary v).1)

  unfoldable pub save_atomic : Config → Load (Unit {0})
  save_atomic config w =
      let (sequence, v) = files.fetch_add_sequence w in
      let temporary = temporary_name sequence in
      cleaning temporary (replace_config temporary (config_text config) v)

  unfoldable pub backup_name : ℕ → ℕ → Text
  backup_name timestamp zero =
      files.file_name ++ codes ".corrupted." ++ show timestamp ++ codes ".bak"
  backup_name timestamp (suc attempt) =
      files.file_name
      ++ codes ".corrupted."
      ++ show timestamp
      ++ codes "."
      ++ show (suc attempt)
      ++ codes ".bak"

  -- The first name that is free, of those with the attempts 0 to 1024.
  unfoldable pub find_backup : ℕ → ℕ → ℕ → W → Result Text ConfigError
  find_backup zero timestamp attempt w = err no_unique_name
  find_backup (suc fuel) timestamp attempt w =
      elim (files.exists_backup (backup_name timestamp attempt) w) [
        | false ↦ ok (backup_name timestamp attempt)
        | true ↦ find_backup fuel timestamp (suc attempt) w
      ]

  abbrev pub max_backup_names : ℕ
  max_backup_names = 1025

  abbrev pub or_zero : Option ℕ → ℕ
  or_zero none = 0
  or_zero (some n) = n

  unfoldable pub recover_corrupted : Load LoadOutcome
  recover_corrupted = do
    backup ← reading (λ w. find_backup max_backup_names (or_zero (files.epoch_millis w)) 0 w)
    calling write_error (files.rename_to_backup backup)
    save_atomic default_config
    done (
        ok (record { config = default_config; migrated = false; recovered_from_corruption = true }))

  unfoldable pub finish_load : Config × Bool → Load LoadOutcome
  finish_load (config, migrated) =
      (if migrated then save_atomic config else done (ok tt))
      >> done
          (ok (record { config = config; migrated = migrated; recovered_from_corruption = false }))

  unfoldable pub load_text : Text → Load LoadOutcome
  load_text bytes = elim (parse_with_migration bytes) [
    | ok parsed ↦ finish_load parsed
    | err reason ↦ recover_corrupted
  ]

  unfoldable pub load_bytes : Text → Load LoadOutcome
  load_bytes bytes =
      if is_empty bytes
      then recover_corrupted
      else (if is_utf8 bytes then load_text bytes else recover_corrupted)

  abbrev pub too_large : ConfigError
  too_large = invalid (invalid_reason (codes "configuration file exceeds maximum size"))

  abbrev pub within_size : ℕ → Result (Unit {0}) ConfigError
  within_size n = if ltb max_config_file_bytes n then err too_large else ok tt

  unfoldable pub load_with_migration : Load LoadOutcome
  load_with_migration = do
    len ← reading (λ w. told read_error (files.size w))
    done (within_size len)
    bytes ← reading (λ w. told read_error (files.read w))
    done (within_size (length bytes))
    load_bytes bytes
