-- ===== src/Launcher/Slots.antt =====
-- apps/launcher/src/main.rs: the verification of a slot, by the signed manifest or by the list of
-- checksums. These functions only read; this is the release build, which takes the trust anchor of
-- the package.
use true_tick.Base.{
  ℕ, ltb, ◌==◌, if◌then◌else◌, ◌||◌, Option, none, some, List, [], ◌∷◌, ◌++◌, Result, ok, err, map,
}
use true_tick.Base.Bytes.{bytes_eq}
use true_tick.Base.Try.{◌>>=◌, ◌>>◌, ensure, ok_or}
use true_tick.Base.Text.{Text, codes, trim, parse_unsigned}
use true_tick.Base.Words.{split_whitespace, lines}
use true_tick.Ipc.Token.{to_hex}
use true_tick.Crypto.{
  SignedManifest, TrustAnchor, parse_signed_manifest, anchor_from_bytes, verify_manifest,
  verify_entry_digest, check_release_counter, has_path,
}
use true_tick.Crypto.{CryptoError}
use true_tick.Launcher.{
  Slot, slot_name, RelPath, SelectionError, metadata_read, manifest_read, signed_manifest_read,
  trust_anchor_read, executable_missing, executable_not_file, manifest_missing,
  manifest_hash_missing, trust_anchor_missing, checksum_mismatch, health_tracking_failure,
  release_counter_state_failure, trust_anchor_invalid, signed_manifest_malformed,
  signature_verification_failed, release_counter_rejected, signed_digest_mismatch, Host, map_err,
}

abbrev pub executable_path : Slot → RelPath
executable_path slot = codes "Slots" ∷ slot_name slot ∷ codes "true-tick.exe" ∷ []

abbrev pub executable_name : Slot → Text
executable_name slot = codes "Slots/" ++ slot_name slot ++ codes "/true-tick.exe"

abbrev pub recovery_path : RelPath
recovery_path = codes "Recovery" ∷ codes "true-tick.exe" ∷ []

abbrev pub recovery_executable_rel : Text
recovery_executable_rel = codes "Recovery/true-tick.exe"

abbrev pub checksums_path : RelPath
checksums_path = codes "SHA256SUMS.txt" ∷ []

abbrev pub signed_manifest_path : RelPath
signed_manifest_path = codes "manifest.sig" ∷ []

abbrev pub trust_anchor_path : RelPath
trust_anchor_path = codes "trust-anchor.pub" ∷ []

abbrev pub release_counter_state_path : RelPath
release_counter_state_path = codes "Data" ∷ codes "state" ∷ codes "release-counter.state" ∷ []

abbrev pub health_path : Slot → RelPath
health_path slot =
    codes "Data" ∷ codes "state" ∷ (codes "slot-" ++ slot_name slot ++ codes "-health.state") ∷ []

-- `replace('/', "\\")`.
abbrev pub with_backslashes : Text → Text
with_backslashes = map (λ b. if b == 47 then 92 else b)

unfoldable pub hash_on_line : Text → List Text → Option Text
hash_on_line target [] = none
hash_on_line target (hash ∷ []) = none
hash_on_line target (hash ∷ filename ∷ more) =
    if bytes_eq filename target || bytes_eq filename (with_backslashes target)
    then some hash
    else none

-- The hash on the first line that names the target.
unfoldable pub listed_hash : Text → List Text → Option Text
listed_hash target [] = none
listed_hash target (line ∷ lines) = elim (hash_on_line target (split_whitespace (trim line))) [
  | some hash ↦ some hash
  | none ↦ listed_hash target lines
]

module _ {W : Type 0} (host : Host W) where
  unfoldable pub compute_sha256 : RelPath → W → Result Text ℕ
  compute_sha256 path w = host.files.read path w >>= λ bytes. ok (to_hex (host.sha256 bytes))

  unfoldable pub load_signed_manifest : W → Result (Option SignedManifest) SelectionError
  load_signed_manifest w =
      if host.files.exists signed_manifest_path w
      then (map_err signed_manifest_read (host.files.read_to_string signed_manifest_path w)
          >>= λ text. map_err signed_manifest_malformed (parse_signed_manifest text) >>= λ manifest.
              ok (some manifest))
      else ok none

  unfoldable pub load_trust_anchor : W → Result TrustAnchor SelectionError
  load_trust_anchor w =
      ensure (host.files.exists trust_anchor_path w) (trust_anchor_missing trust_anchor_path)
      >> (map_err trust_anchor_read (host.files.read trust_anchor_path w) >>= λ bytes.
          map_err trust_anchor_invalid (anchor_from_bytes bytes))

  -- A number kept in a file, 0 where there is none.
  abbrev pub read_number : ℕ → SelectionError → RelPath → W → Result ℕ SelectionError
  read_number bits failure path w =
      if host.files.exists path w
      then (map_err (λ _. failure) (host.files.read_to_string path w) >>= λ content.
          ok_or (parse_unsigned bits (trim content)) failure)
      else ok 0

  unfoldable pub read_release_counter : W → Result ℕ SelectionError
  read_release_counter = read_number 64 release_counter_state_failure release_counter_state_path

  unfoldable pub read_slot_health : Slot → W → Result ℕ SelectionError
  read_slot_health slot = read_number 32 health_tracking_failure (health_path slot)

  unfoldable pub verify_slot_integrity_signed :
      Slot → SignedManifest → W → Result (Unit {0}) SelectionError
  verify_slot_integrity_signed slot manifest w = do
    bytes ← map_err metadata_read (host.files.read (executable_path slot) w)
    map_err (signed_digest_mismatch (executable_name slot))
        (verify_entry_digest host.sha256 manifest (executable_name slot) bytes)

  unfoldable pub verify_recovery_integrity_signed :
      SignedManifest → W → Result (Unit {0}) SelectionError
  verify_recovery_integrity_signed manifest w =
      if has_path recovery_executable_rel manifest.entries
      then (map_err metadata_read (host.files.read recovery_path w) >>= λ bytes.
          map_err (signed_digest_mismatch recovery_executable_rel)
            (verify_entry_digest host.sha256 manifest recovery_executable_rel bytes))
      else ok tt

  -- The counter to persist: none for the release seen last, the manifest's for a later one.
  unfoldable pub pending_counter : SignedManifest → ℕ → Result (Option ℕ) SelectionError
  pending_counter manifest previously_seen =
      if ltb manifest.release_counter previously_seen
      then err (release_counter_rejected CryptoError.signature_invalid)
      else (if manifest.release_counter == previously_seen
          then ok none
          else map_err release_counter_rejected (check_release_counter manifest previously_seen)
            >> ok (some manifest.release_counter))

  unfoldable pub check_signed_manifest :
      Slot → SignedManifest → W → Result (Option ℕ) SelectionError
  check_signed_manifest slot manifest w = do
    anchor ← load_trust_anchor w
    map_err signature_verification_failed (verify_manifest host.scheme manifest anchor)
    previously_seen ← read_release_counter w
    pending ← pending_counter manifest previously_seen
    verify_slot_integrity_signed slot manifest w
    verify_recovery_integrity_signed manifest w
    ok pending

  unfoldable pub prepare_signed_manifest :
      Slot → W → Result (Option (SignedManifest × Option ℕ)) SelectionError
  prepare_signed_manifest slot w = do
    found ← load_signed_manifest w
    elim found [
      | none ↦ ok none
      | some manifest ↦
          check_signed_manifest slot manifest w >>= λ pending. ok (some (manifest, pending))
    ]

  -- The hash listed for a target is that of the file.
  unfoldable pub check_listed : Text → RelPath → W → Result (Unit {0}) SelectionError
  check_listed target path w = do
    ensure (host.files.exists checksums_path w) (manifest_missing checksums_path)
    content ← map_err manifest_read (host.files.read_to_string checksums_path w)
    expected ← ok_or (listed_hash target (lines content)) (manifest_hash_missing path)
    actual ← map_err metadata_read (compute_sha256 path w)
    ensure (bytes_eq (host.to_lowercase actual) (host.to_lowercase expected))
        (checksum_mismatch target (host.to_lowercase expected) actual)

  unfoldable pub verify_slot_integrity_checksum : Slot → W → Result (Unit {0}) SelectionError
  verify_slot_integrity_checksum slot = check_listed (executable_name slot) (executable_path slot)

  unfoldable pub verify_slot_integrity : Slot → W → Result (Option ℕ) SelectionError
  verify_slot_integrity slot w = do
    prepared ← prepare_signed_manifest slot w
    elim prepared [
      | some (manifest, pending) ↦ ok pending
      | none ↦ verify_slot_integrity_checksum slot w >> ok none
    ]

  unfoldable pub verify_slot_executable : Slot → W → Result (RelPath × Option ℕ) SelectionError
  verify_slot_executable slot w = do
    ensure (host.files.exists (executable_path slot) w) (executable_missing (executable_path slot))
    ensure (host.files.is_file (executable_path slot) w)
        (executable_not_file (executable_path slot))
    pending ← verify_slot_integrity slot w
    ok (executable_path slot, pending)

  unfoldable pub verify_golden_master : W → Result RelPath SelectionError
  verify_golden_master w = do
    ensure (host.files.exists recovery_path w) (executable_missing recovery_path)
    ensure (host.files.is_file recovery_path w) (executable_not_file recovery_path)
    check_listed recovery_executable_rel recovery_path w
    ok recovery_path
