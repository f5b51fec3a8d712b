-- ===== src/Launcher.antt =====
-- apps/launcher/src/main.rs: the choice between two slots, their verification and the recovery. The
-- file system is an interface, since its calls are the operating system's: a call may fail, and
-- reads change nothing. Paths are relative to the package root.
pub mod Slots
pub mod Selection
pub mod Launched
pub mod Selected
pub mod Run
use true_tick.Base.{
  ℕ, zero, suc, ◌+◌, leb, ltb, ◌==◌, if◌then◌else◌, Bool, true, false, not, ◌&&◌, ◌||◌, Option,
  none, some, List, [], ◌∷◌, ◌++◌, Result, ok, err, Method, length,
}
use true_tick.Base.Text.{Text, codes, chars, concat, skip_while, reverse, is_whitespace, show}
use true_tick.Base.Bytes.{bytes_eq}
use true_tick.Crypto.{CryptoError, SignatureScheme}

pub data Slot : Type 0 where
  slot_a slot_b : Slot

unfoldable pub slot_name : Slot → Text
slot_name slot_a = codes "A"
slot_name slot_b = codes "B"

unfoldable pub alternate : Slot → Slot
alternate slot_a = slot_b
alternate slot_b = slot_a

abbrev pub RelPath : Type 0
RelPath = List Text

-- The raw code of an error of the operating system.
abbrev pub IoError : Type 0
IoError = ℕ

pub data SelectionError : Type 0 where
  metadata_read manifest_read signed_manifest_read trust_anchor_read :
      (e : IoError) → SelectionError
  invalid_metadata : (value : Text) → SelectionError
  executable_missing executable_not_file manifest_missing manifest_hash_missing
        trust_anchor_missing :
      (path : RelPath) → SelectionError
  checksum_mismatch : (target expected actual : Text) → SelectionError
  crash_loop_detected : (slot : Slot) (consecutive_failures : ℕ) → SelectionError
  both_slots_corrupted : (active standby : Text) → SelectionError
  health_tracking_failure release_counter_state_failure : SelectionError
  trust_anchor_invalid signed_manifest_malformed signature_verification_failed
        release_counter_rejected :
      (cause : CryptoError) → SelectionError
  signed_digest_mismatch : (target : Text) (cause : CryptoError) → SelectionError

-- The calls on the files of the package: reads, and those that change them.
pub record FileSystem (W : Type 0) : Type 0 where
  pub exists : RelPath → W → Bool
  pub is_file : RelPath → W → Bool
  pub read : RelPath → W → Result Text IoError
  pub read_to_string : RelPath → W → Result Text IoError
  pub create_dir_all : RelPath → Method W (Unit {0}) IoError
  pub write : RelPath → Text → Method W (Unit {0}) IoError
  pub append : RelPath → Text → Method W (Unit {0}) IoError
  pub remove_file : RelPath → Method W (Unit {0}) IoError
  pub copy : RelPath → RelPath → Method W (Unit {0}) IoError
  pub move_replacing : RelPath → RelPath → Method W (Unit {0}) IoError

-- What the launcher takes from elsewhere: the files, the hash and the signature scheme, Unicode
-- lower case, the text of a path and of an error, and the text of its process id.
pub record Host (W : Type 0) : Type 0 where
  pub files : FileSystem W
  pub sha256 : Text → Text
  pub scheme : SignatureScheme
  pub to_lowercase : Text → Text
  pub show_path : RelPath → Text
  pub show_io : IoError → Text
  pub pid : Text

unfoldable pub describe_cause : CryptoError → Text
describe_cause CryptoError.wrong_key_length = codes "trust anchor key has wrong length"
describe_cause CryptoError.wrong_signature_length = codes "manifest signature has wrong length"
describe_cause CryptoError.malformed_manifest = codes "manifest is malformed"
describe_cause CryptoError.signature_invalid = codes "manifest signature is invalid"
describe_cause CryptoError.digest_mismatch = codes "entry digest does not match"

module _ {W : Type 0} (host : Host W) where
  unfoldable pub describe : SelectionError → Text
  describe (metadata_read e) = codes "active slot metadata cannot be read: " ++ host.show_io e
  describe (invalid_metadata value) = codes "active slot metadata is invalid: " ++ value
  describe (executable_missing path) =
      codes "selected slot executable is missing: " ++ host.show_path path
  describe (executable_not_file path) =
      codes "selected slot executable is not a file: " ++ host.show_path path
  describe (manifest_missing path) =
      codes "package manifest SHA256SUMS.txt is missing: " ++ host.show_path path
  describe (manifest_hash_missing path) =
      codes "package manifest SHA256SUMS.txt has no hash entry for " ++ host.show_path path
  describe (manifest_read e) =
      codes "package manifest SHA256SUMS.txt cannot be read: " ++ host.show_io e
  describe (checksum_mismatch target expected actual) =
      codes "integrity verification failed for "
      ++ target
      ++ codes ": expected "
      ++ expected
      ++ codes " but computed "
      ++ actual
  describe (crash_loop_detected slot consecutive_failures) =
      codes "crash loop detected for slot "
      ++ slot_name slot
      ++ codes ": "
      ++ show consecutive_failures
      ++ codes " consecutive failures"
  describe (both_slots_corrupted active standby) =
      codes "both slots failed verification and require package repair: active slot rejected with ["
      ++ active
      ++ codes "] and standby slot rejected with ["
      ++ standby
      ++ codes "]"
  describe health_tracking_failure = codes "failed to read or update slot health tracking state"
  describe (signed_manifest_read e) =
      codes "signed manifest manifest.sig cannot be read: " ++ host.show_io e
  describe (trust_anchor_missing path) =
      codes "signed manifest is present but trust anchor is missing: " ++ host.show_path path
  describe (trust_anchor_read e) =
      codes "trust anchor trust-anchor.pub cannot be read: " ++ host.show_io e
  describe (trust_anchor_invalid cause) =
      codes "trust anchor trust-anchor.pub is invalid: " ++ describe_cause cause
  describe (signed_manifest_malformed cause) =
      codes "signed manifest is malformed: " ++ describe_cause cause
  describe (signature_verification_failed cause) =
      codes "signed manifest signature verification failed: " ++ describe_cause cause
  describe release_counter_state_failure =
      codes "failed to read or persist the release counter state"
  describe (release_counter_rejected cause) =
      codes "signed manifest release counter rejected as replay or downgrade: "
      ++ describe_cause cause
  describe (signed_digest_mismatch target cause) =
      codes "signed manifest digest verification failed for "
      ++ target
      ++ codes ": "
      ++ describe_cause cause

-- A failed call with its error told in the caller's words.
abbrev pub map_err {ℓ κ μ} :
    {A : Type ℓ} {E : Type κ} {F : Type μ} → (E → F) → Result A E → Result A F
map_err f (ok a) = ok a
map_err f (err e) = err (f e)

abbrev pub is_active_slot_noise : Text → Bool
is_active_slot_noise c = is_whitespace c || bytes_eq c (0 ∷ []) || bytes_eq c (239 ∷ 187 ∷ 191 ∷ [])

abbrev pub trim_noise : List Text → List Text
trim_noise cs =
    reverse (skip_while is_active_slot_noise (reverse (skip_while is_active_slot_noise cs)))

abbrev pub max_normalization_passes : ℕ
max_normalization_passes = 8

unfoldable pub normalization_passes : ℕ → Text → Text
normalization_passes zero value = value
normalization_passes (suc passes) value =
    let next = concat (trim_noise (chars value)) in
    elim (bytes_eq next value) [ true ↦ value | false ↦ normalization_passes passes next ]

unfoldable pub normalize_active_slot : Text → Text
normalize_active_slot raw = normalization_passes max_normalization_passes raw

unfoldable pub parse_active_slot : Text → Option Slot
parse_active_slot raw =
    let value = normalize_active_slot raw in
    if bytes_eq value (codes "A")
    then some slot_a
    else (if bytes_eq value (codes "B") then some slot_b else none)
