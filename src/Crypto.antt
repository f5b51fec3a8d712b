-- ===== src/Crypto.antt =====
-- crates/tick-crypto/src/lib.rs: the signed release manifest. SHA-256 and Ed25519 are parameters:
-- the crates sha2 and ed25519-dalek are not part of the repository. Fixed arrays are byte lists.
pub mod Parsed
use true_tick.Base.{
  ℕ, zero, suc, ◌+◌, ◌-◌, ◌*◌, leb, ltb, ◌==◌, if◌then◌else◌, Bool, true, false, not, ◌&&◌, ◌||◌,
  Option, none, some, List, [], ◌∷◌, ◌++◌, Result, ok, err, length, drop, is_empty, option_map,
}
use true_tick.Base.Try.{◌>>=◌, ◌>>◌, ensure, ok_or}
use true_tick.Base.Bytes.{bytes_eq}
use true_tick.Base.Text.{
  Text, codes, all, any, in_range, is_ascii_digit, is_whitespace, parse_unsigned, show, split,
  starts_with, concat, chars, reverse, split_once,
}
use true_tick.Base.Words.{without_return}
use true_tick.Ipc.Token.{to_hex}

abbrev pub public_key_len : ℕ
public_key_len = 32

abbrev pub signature_len : ℕ
signature_len = 64

abbrev pub secret_key_len : ℕ
secret_key_len = 32

abbrev pub max_manifest_entries : ℕ
max_manifest_entries = 256

abbrev pub max_manifest_line_bytes : ℕ
max_manifest_line_bytes = 4096

pub data CryptoError : Type 0 where
  wrong_key_length wrong_signature_length malformed_manifest signature_invalid digest_mismatch :
      CryptoError

pub record TrustAnchor : Type 0 where
  pub key : Text

unfoldable pub anchor_from_bytes : Text → Result TrustAnchor CryptoError
anchor_from_bytes bytes =
    if length bytes == public_key_len
    then ok (record { key = bytes })
    else err CryptoError.wrong_key_length

pub record ManifestEntry : Type 0 where
  pub path : Text
  pub digest : Text

pub record SignedManifest : Type 0 where
  pub release_counter : ℕ
  pub entries : List ManifestEntry
  pub signature : Text

-- `to_digit(16)` of a byte that is a digit or a letter from a to f.
abbrev pub lower_hex_digit : ℕ → ℕ
lower_hex_digit b = if is_ascii_digit b then b - 48 else b - 87

abbrev pub is_lower_hex : ℕ → Bool
is_lower_hex b = is_ascii_digit b || in_range 97 102 b

abbrev pub hex_pairs : Text → Text
hex_pairs [] = []
hex_pairs (a ∷ []) = []
hex_pairs (a ∷ b ∷ s) = (lower_hex_digit a * 16 + lower_hex_digit b) ∷ hex_pairs s

unfoldable pub decode_hex : ℕ → Text → Result Text CryptoError
decode_hex n text = do
  ensure (length text == n * 2) CryptoError.malformed_manifest
  ensure (all is_lower_hex text) CryptoError.malformed_manifest
  ok (hex_pairs text)

-- What the lines so far have given.
pub record Parsing : Type 0 where
  pub release_counter : Option ℕ
  pub signature : Option Text
  pub entries : List ManifestEntry

abbrev pub is_none {ℓ} : {A : Type ℓ} → Option A → Bool
is_none none = true
is_none (some a) = false

abbrev pub strip_prefix : Text → Text → Option Text
strip_prefix prefix s = if starts_with prefix s then some (drop (length prefix) s) else none

-- `rsplit_once(' ')`: what stands before and after the last space.
abbrev pub rsplit_space : Text → Option (Text × Text)
rsplit_space [] = none
rsplit_space (b ∷ s) = elim (rsplit_space s) [
  | some (left, right) ↦ some (b ∷ left, right)
  | none ↦ if b == 32 then some ([], s) else none
]

abbrev pub has_path : Text → List ManifestEntry → Bool
has_path path = any (λ e. bytes_eq e.path path)

unfoldable pub counter_line : Text → Parsing → Result Parsing CryptoError
counter_line rest p = do
  ensure (is_none p.release_counter) CryptoError.malformed_manifest
  value ← ok_or (parse_unsigned 64 rest) CryptoError.malformed_manifest
  ok (record p { release_counter = some value })

unfoldable pub entry_line : Text → Parsing → Result Parsing CryptoError
entry_line rest p = do
  ensure (ltb (length p.entries) max_manifest_entries) CryptoError.malformed_manifest
  (path, hex_digest) ← ok_or (rsplit_space rest) CryptoError.malformed_manifest
  ensure (not (is_empty path) && not (any is_whitespace (chars path)))
      CryptoError.malformed_manifest
  digest ← decode_hex 32 hex_digest
  ensure (not (has_path path p.entries)) CryptoError.malformed_manifest
  ok (record p { entries = p.entries ++ record { path = path; digest = digest } ∷ [] })

unfoldable pub signature_line : Text → Parsing → Result Parsing CryptoError
signature_line rest p = do
  ensure (is_none p.signature) CryptoError.malformed_manifest
  ensure (length rest == signature_len * 2) CryptoError.wrong_signature_length
  signature ← decode_hex signature_len rest
  ok (record p { signature = some signature })

abbrev pub keyed_line : Text → Parsing → Result Parsing CryptoError
keyed_line line p = elim (strip_prefix (codes "release_counter ") line) [
  | some rest ↦ counter_line rest p
  | none ↦ elim (strip_prefix (codes "entry ") line) [
    | some rest ↦ entry_line rest p
    | none ↦ elim (strip_prefix (codes "signature ") line) [
      | some rest ↦ signature_line rest p
      | none ↦ err CryptoError.malformed_manifest
    ]
  ]
]

unfoldable pub parse_line : Text → Parsing → Result Parsing CryptoError
parse_line raw_line p =
    let line = without_return raw_line in
    if leb (length line) max_manifest_line_bytes
    then (if is_empty line then ok p else keyed_line line p)
    else err CryptoError.malformed_manifest

unfoldable pub parse_lines : List Text → Parsing → Result Parsing CryptoError
parse_lines [] p = ok p
parse_lines (line ∷ lines) p = parse_line line p >>= λ q. parse_lines lines q

unfoldable pub parse_signed_manifest : Text → Result SignedManifest CryptoError
parse_signed_manifest text = do
  p ←
      parse_lines (split (λ b. b == 10) text)
        (record { release_counter = none; signature = none; entries = [] })
  counter ← ok_or p.release_counter CryptoError.malformed_manifest
  signature ← ok_or p.signature CryptoError.malformed_manifest
  ok (record { release_counter = counter; entries = p.entries; signature = signature })

-- The order of byte strings, and the stable sort of the entries by path.
abbrev pub path_leb : Text → Text → Bool
path_leb [] t = true
path_leb (a ∷ s) [] = false
path_leb (a ∷ s) (b ∷ t) = ltb a b || (a == b && path_leb s t)

abbrev pub insert_entry : ManifestEntry → List ManifestEntry → List ManifestEntry
insert_entry e [] = e ∷ []
insert_entry e (f ∷ fs) =
    let rest = insert_entry e fs in if path_leb e.path f.path then e ∷ f ∷ fs else f ∷ rest

abbrev pub sort_entries : List ManifestEntry → List ManifestEntry
sort_entries [] = []
sort_entries (e ∷ es) = insert_entry e (sort_entries es)

-- `dedup_by`: an entry with the path of the one kept before it goes.
abbrev pub dedup_after : Text → List ManifestEntry → List ManifestEntry
dedup_after path [] = []
dedup_after path (e ∷ es) = elim (bytes_eq e.path path) [
  | true ↦ dedup_after path es
  | false ↦ e ∷ dedup_after e.path es
]

abbrev pub dedup_entries : List ManifestEntry → List ManifestEntry
dedup_entries [] = []
dedup_entries (e ∷ es) = e ∷ dedup_after e.path es

abbrev pub canonical_entries : List ManifestEntry → Text
canonical_entries [] = []
canonical_entries (e ∷ es) =
    codes "entry " ++ e.path ++ codes " " ++ to_hex e.digest ++ codes "\n" ++ canonical_entries es

unfoldable pub canonical_bytes : SignedManifest → Text
canonical_bytes manifest =
    codes "release_counter "
    ++ show manifest.release_counter
    ++ codes "\n"
    ++ canonical_entries (sort_entries manifest.entries)

-- The Ed25519 scheme: the keys it accepts, and its two operations.
pub record SignatureScheme : Type 0 where
  pub is_key : Text → Bool
  pub verify : Text → Text → Text → Bool
  pub sign : Text → Text → Text

unfoldable pub sign_bytes : SignatureScheme → Text → Text → Result Text CryptoError
sign_bytes scheme secret message =
    if length secret == secret_key_len
    then ok (scheme.sign secret message)
    else err CryptoError.wrong_key_length

unfoldable pub sign_manifest :
    SignatureScheme → Text → ℕ → List ManifestEntry → Result Text CryptoError
sign_manifest scheme secret release_counter entries =
    let canonical = canonical_bytes (record {
      release_counter = release_counter;
      entries = dedup_entries (sort_entries entries);
      signature = [];
    }) in
    sign_bytes scheme secret canonical >>= λ signature.
    ok (canonical ++ codes "signature " ++ to_hex signature ++ codes "\n")

unfoldable pub verify_manifest :
    SignatureScheme → SignedManifest → TrustAnchor → Result (Unit {0}) CryptoError
verify_manifest scheme manifest anchor = do
  ensure (scheme.is_key anchor.key) CryptoError.signature_invalid
  ensure (scheme.verify anchor.key (canonical_bytes manifest) manifest.signature)
      CryptoError.signature_invalid
  ok tt

unfoldable pub find_entry : Text → List ManifestEntry → Option ManifestEntry
find_entry path [] = none
find_entry path (e ∷ es) =
    let rest = find_entry path es in if bytes_eq e.path path then some e else rest

unfoldable pub verify_entry_digest :
    (Text → Text) → SignedManifest → Text → Text → Result (Unit {0}) CryptoError
verify_entry_digest sha256 manifest path bytes = do
  entry ← ok_or (find_entry path manifest.entries) CryptoError.digest_mismatch
  ensure (bytes_eq (sha256 bytes) entry.digest) CryptoError.digest_mismatch
  ok tt

unfoldable pub check_release_counter : SignedManifest → ℕ → Result (Unit {0}) CryptoError
check_release_counter manifest previously_seen =
    ensure (ltb previously_seen manifest.release_counter) CryptoError.signature_invalid
