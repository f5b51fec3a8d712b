-- ===== src/Launcher/Launched.antt =====
-- What the launcher of apps/launcher/src/main.rs launches has been verified.
use true_tick.Base.{
  ℕ, ◌≤◌, ◌≡◌, ◌⊎◌, true, false, Option, none, some, Result, ok, err, arith, inl, inr, ap, leb,
  Bool-cases, Option-cases, ◌∙◌,
}
use true_tick.Base.Bytes.{bytes_eq, eq_of_bytes_eq}
use true_tick.Base.Try.{bind_inv, ensure_inv, ensure, ok_or, ok_or_inv, Result-cases, ok_inj}
use true_tick.Base.Text.{Text}
use true_tick.Crypto.{
  SignedManifest, ManifestEntry, TrustAnchor, canonical_bytes, verify_manifest, find_entry,
  parse_signed_manifest, verify_entry_digest,
}
use true_tick.Ipc.Token.{to_hex}
use true_tick.Base.Words.{lines}
use true_tick.Launcher.{
  Slot, RelPath, Host, map_err, signature_verification_failed, metadata_read,
  signed_digest_mismatch, manifest_missing, manifest_read, manifest_hash_missing,
}
use true_tick.Launcher.Slots.{
  executable_path, executable_name, signed_manifest_path, checksums_path, load_signed_manifest,
  load_trust_anchor, read_release_counter, verify_slot_integrity_signed, pending_counter,
  check_signed_manifest, prepare_signed_manifest, check_listed, verify_slot_integrity_checksum,
  verify_slot_integrity, verify_slot_executable, listed_hash, compute_sha256, read_slot_health,
}
use true_tick.Launcher.Selection.{verify_and_check_slot}

map_err_inv :
    {A : Type 0} {E F : Type 0} (f : E → F) (r : Result A E) {a : A} → map_err f r ≡ ok a → r ≡ ok a
map_err_inv f (ok a) h = ground (arith, h)
map_err_inv f (err e) h = cc

module _ {W : Type 0} (host : Host W) where
  -- The signed manifest authorizes the slot: its signature verifies against the anchor of the
  -- package, it is no downgrade, and the bytes of the executable have the digest it gives them.
  pub record IsSigned (slot : Slot) (w : W) : Type 0 where
    pub manifest : SignedManifest
    pub loaded : load_signed_manifest host w ≡ ok (some manifest)
    pub anchor : TrustAnchor
    pub trusted : load_trust_anchor host w ≡ ok anchor
    pub signature :
        host.scheme.verify anchor.key (canonical_bytes manifest) manifest.signature ≡ true
    pub seen : ℕ
    pub counted : read_release_counter host w ≡ ok seen
    pub no_downgrade : seen ≤ manifest.release_counter
    pub bytes : Text
    pub read : host.files.read (executable_path slot) w ≡ ok bytes
    pub entry : ManifestEntry
    pub listed : find_entry (executable_name slot) manifest.entries ≡ some entry
    pub same : host.sha256 bytes ≡ entry.digest

  verify_manifest-signature :
      (manifest : SignedManifest) (anchor : TrustAnchor) (u : Unit {0})
      → verify_manifest host.scheme manifest anchor ≡ ok u
      → host.scheme.verify anchor.key (canonical_bytes manifest) manifest.signature ≡ true
  unfolding verify_manifest
  verify_manifest-signature manifest anchor u h =
      let good = host.scheme.is_key anchor.key in
      let signed = host.scheme.verify anchor.key (canonical_bytes manifest) manifest.signature in
      ground (arith, h)

  pending_counter-le :
      (manifest : SignedManifest) (seen : ℕ) (pending : Option ℕ)
      → pending_counter host manifest seen ≡ ok pending
      → seen ≤ manifest.release_counter
  unfolding pending_counter
  pending_counter-le manifest seen pending h = ground (arith, h)

  digest_same :
      (manifest : SignedManifest) (path bytes : Text) (u : Unit {0})
      → verify_entry_digest host.sha256 manifest path bytes ≡ ok u
      → (entry : ManifestEntry) × (find_entry path manifest.entries ≡ some entry)
        × (host.sha256 bytes ≡ entry.digest)
  unfolding verify_entry_digest
  digest_same manifest path bytes u h = elim (Option-cases (find_entry path manifest.entries)) [
    | inl e ↦ ground (arith, h, e)
    | inr (entry, e) ↦
        let equal : bytes_eq (host.sha256 bytes) entry.digest ≡ true = ground (arith, h, e) in
        (entry, e, eq_of_bytes_eq (host.sha256 bytes) entry.digest equal)
  ]

  check_signed_manifest-IsSigned :
      (slot : Slot) (manifest : SignedManifest) (w : W) (pending : Option ℕ)
      → load_signed_manifest host w ≡ ok (some manifest)
      → check_signed_manifest host slot manifest w ≡ ok pending
      → IsSigned slot w
  unfolding check_signed_manifest verify_slot_integrity_signed
  check_signed_manifest-IsSigned slot manifest w pending loaded h =
      let (anchor, trusted, h1) = bind_inv (load_trust_anchor host w) _ h in
      let (u, signed, h2) =
        bind_inv
          (map_err signature_verification_failed (verify_manifest host.scheme manifest anchor)) _
          h1 in
      let (seen, counted, h3) = bind_inv (read_release_counter host w) _ h2 in
      let (p, forward, h4) = bind_inv (pending_counter host manifest seen) _ h3 in
      let (v, digest, h5) = bind_inv (verify_slot_integrity_signed host slot manifest w) _ h4 in
      let (bytes, read, h6) =
        bind_inv (map_err metadata_read (host.files.read (executable_path slot) w)) _ digest in
      let (entry, listed, same) = digest_same manifest (executable_name slot) bytes v (
        map_err_inv (signed_digest_mismatch (executable_name slot))
          (verify_entry_digest host.sha256 manifest (executable_name slot) bytes) h6) in
      record {
        manifest = manifest;
        loaded = loaded;
        anchor = anchor;
        trusted = trusted;
        signature = verify_manifest-signature manifest anchor u (
            map_err_inv signature_verification_failed (verify_manifest host.scheme manifest anchor)
              signed);
        seen = seen;
        counted = counted;
        no_downgrade = pending_counter-le manifest seen p forward;
        bytes = bytes;
        read = map_err_inv metadata_read (host.files.read (executable_path slot) w) read;
        entry = entry;
        listed = listed;
        same = same;
      }

  -- No signed manifest is there, and the list of checksums names the hash of the executable.
  pub record IsListed (slot : Slot) (w : W) : Type 0 where
    pub unsigned : host.files.exists signed_manifest_path w ≡ false
    pub content : Text
    pub read_list : host.files.read_to_string checksums_path w ≡ ok content
    pub hash : Text
    pub named : listed_hash (executable_name slot) (lines content) ≡ some hash
    pub bytes : Text
    pub read : host.files.read (executable_path slot) w ≡ ok bytes
    pub same : host.to_lowercase (to_hex (host.sha256 bytes)) ≡ host.to_lowercase hash

  check_listed-IsListed :
      (slot : Slot) (w : W) (u : Unit {0})
      → host.files.exists signed_manifest_path w ≡ false
      → check_listed host (executable_name slot) (executable_path slot) w ≡ ok u
      → IsListed slot w
  unfolding check_listed compute_sha256
  check_listed-IsListed slot w u unsigned h =
      let exe = executable_path slot in
      let target = executable_name slot in
      let (a, there, h1) =
        bind_inv (ensure (host.files.exists checksums_path w) (manifest_missing checksums_path)) _
          h in
      let (content, read_list, h2) =
        bind_inv (map_err manifest_read (host.files.read_to_string checksums_path w)) _ h1 in
      let found = lines content in
      let (hash, named, h3) =
        bind_inv (ok_or (listed_hash target found) (manifest_hash_missing exe)) _ h2 in
      let (actual, hashed, h4) =
        bind_inv (map_err metadata_read (compute_sha256 host exe w)) _ h3 in
      let (bytes, read, h5) =
        bind_inv (host.files.read exe w) _
          (map_err_inv metadata_read (compute_sha256 host exe w) hashed) in
      let equal =
        eq_of_bytes_eq (host.to_lowercase actual) (host.to_lowercase hash) (ensure_inv _ _ h4) in
      record {
        unsigned = unsigned;
        content = content;
        read_list =
            map_err_inv manifest_read (host.files.read_to_string checksums_path w) read_list;
        hash = hash;
        named = ok_or_inv (listed_hash target found) (manifest_hash_missing exe) named;
        bytes = bytes;
        read = read;
        same = ap host.to_lowercase (ok_inj h5) ∙ equal;
      }

  load-unsigned :
      (w : W)
      → load_signed_manifest host w ≡ ok none
      → host.files.exists signed_manifest_path w ≡ false
  unfolding load_signed_manifest
  load-unsigned w h = elim (Bool-cases (host.files.exists signed_manifest_path w)) [
    | inr e ↦ e
    | inl e ↦ elim (Result-cases (host.files.read_to_string signed_manifest_path w)) [
      | inr (x, r) ↦ ground (arith, h, e, r)
      | inl (text, r) ↦ elim (Result-cases (parse_signed_manifest text)) [
        | inr (x, p) ↦ ground (arith, h, e, r, p)
        | inl (m, p) ↦ ground (arith, h, e, r, p)
      ]
    ]
  ]

  abbrev pub IsVerified : Slot → W → Type 0
  IsVerified slot w = IsSigned slot w ⊎ IsListed slot w

  verify_slot_integrity-IsVerified :
      (slot : Slot) (w : W) (pending : Option ℕ)
      → verify_slot_integrity host slot w ≡ ok pending
      → IsVerified slot w
  unfolding verify_slot_integrity prepare_signed_manifest verify_slot_integrity_checksum
  verify_slot_integrity-IsVerified slot w pending h =
      elim (Result-cases (load_signed_manifest host w)) [
        | inr (x, e) ↦ ground (arith, h, e)
        | inl (none, e) ↦
            let (u, listed, rest) =
              bind_inv (check_listed host (executable_name slot) (executable_path slot) w) _
                (rw (verify_slot_integrity, e) at h) in
            inr (check_listed-IsListed slot w u (load-unsigned w e) listed)
        | inl (some manifest, e) ↦
            elim (Result-cases (check_signed_manifest host slot manifest w)) [
              | inr (x, c) ↦ ground (arith, h, e, c)
              | inl (p, c) ↦ inl (check_signed_manifest-IsSigned slot manifest w p e c)
            ]
      ]

  pub verify_slot_executable-IsVerified :
      (slot : Slot) (w : W) (exe : RelPath) (pending : Option ℕ)
      → verify_slot_executable host slot w ≡ ok (exe, pending)
      → (exe ≡ executable_path slot) × IsVerified slot w
  unfolding verify_slot_executable
  verify_slot_executable-IsVerified slot w exe pending h =
      elim (Result-cases (verify_slot_integrity host slot w)) [
        | inr (x, e) ↦ ground (arith, h, e)
        | inl (p, e) ↦ (ground (arith, h, e), verify_slot_integrity-IsVerified slot w p e)
      ]

  -- The files at the time of a verification that the launched executable passed.
  abbrev pub IsLaunchable : Slot → RelPath → Type 0
  IsLaunchable slot exe = (exe ≡ executable_path slot) × (w : W) × IsVerified slot w

  pub verify_and_check-IsLaunchable :
      (slot : Slot) (w : W) (exe : RelPath) (pending : Option ℕ)
      → verify_and_check_slot host slot w ≡ ok (exe, pending)
      → IsLaunchable slot exe
  unfolding verify_and_check_slot
  verify_and_check-IsLaunchable slot w exe pending h =
      elim (Result-cases (read_slot_health host slot w)) [
        | inr (x, e) ↦ ground (arith, h, e)
        | inl (n, e) ↦ elim (Bool-cases (leb 3 n)) [
          | inl full ↦ ground (arith, h, e, full)
          | inr below ↦
              let (same, verified) =
                verify_slot_executable-IsVerified slot w exe pending
                  (ground (arith, h, e, below)) in
              (same, w, verified)
        ]
      ]
