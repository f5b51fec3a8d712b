-- ===== src/Tests/Release.antt =====
-- The signed manifest and the selection of a slot at concrete inputs.
use true_tick.Base.{ℕ, ◌≤◌, ◌≡◌, refl, Bool, true, false, ◌||◌, [], ◌∷◌, ◌++◌, ok, All, length, ◌⊎◌}
use true_tick.Base.Bytes.{bytes_eq}
use true_tick.Base.Pairs.{Pairwise}
use true_tick.Base.Text.{Text, codes, concat, digits_value}
use true_tick.Ipc.Token.{to_hex, hex_digit}
use true_tick.Crypto.{
  SignedManifest, parse_signed_manifest, parse_lines, parse_line, counter_line, entry_line,
  signature_line, decode_hex,
}
use true_tick.Crypto.Parsed.{HasDigest, AreApart, parse_signed_manifest-bounds}
use true_tick.Launcher.{
  Slot, slot_a, RelPath, FileSystem, Host, slot_name, normalize_active_slot, normalization_passes,
  parse_active_slot,
}
use true_tick.Launcher.Slots.{
  executable_path, checksums_path, hash_on_line, listed_hash, compute_sha256, load_signed_manifest,
  read_slot_health, prepare_signed_manifest, check_listed, verify_slot_integrity_checksum,
  verify_slot_integrity, verify_slot_executable,
}
use true_tick.Launcher.Launched.{IsSigned, IsListed}
use true_tick.Launcher.Selection.{
  active_slot_path, clear_slot_health, commit_release_counter, active_slot, verify_and_check_slot,
  commit_slot, select_active, select,
}
use true_tick.Launcher.Run.{Shell, run, launch, run-started}

-- Sixteen bytes in hexadecimal digits, and the same bytes.
abbrev sixteen_digits : Text
sixteen_digits = codes "0a0a0a0a0a0a0a0a0a0a0a0a0a0a0a0a"

abbrev sixteen : Text
sixteen = 10 ∷ 10 ∷ 10 ∷ 10 ∷ 10 ∷ 10 ∷ 10 ∷ 10 ∷ 10 ∷ 10 ∷ 10 ∷ 10 ∷ 10 ∷ 10 ∷ 10 ∷ 10 ∷ []

abbrev release_text : Text
release_text =
    codes "release_counter 7\r\nentry a "
    ++ sixteen_digits
    ++ sixteen_digits
    ++ codes "\n\nsignature "
    ++ sixteen_digits
    ++ sixteen_digits
    ++ sixteen_digits
    ++ sixteen_digits
    ++ codes "\n"

abbrev release : SignedManifest
release = record {
  release_counter = 7;
  entries = record { path = codes "a"; digest = sixteen ++ sixteen } ∷ [];
  signature = sixteen ++ sixteen ++ sixteen ++ sixteen;
}

parsed_release : parse_signed_manifest release_text ≡ ok release
unfolding parse_signed_manifest parse_lines parse_line counter_line entry_line signature_line
    decode_hex digits_value
parsed_release = refl

parse_signed_manifest-bounds_example :
    (length release.entries ≤ 256)
    × All HasDigest release.entries
    × Pairwise AreApart release.entries
    × (length release.signature ≡ 64)
parse_signed_manifest-bounds_example =
    parse_signed_manifest-bounds release_text release parsed_release

-- A package with slot A, listed in the checksums, whose files nothing changes.
abbrev is_path : RelPath → RelPath → Bool
is_path p q = bytes_eq (concat p) (concat q)

abbrev unsigned_files : FileSystem (Unit {0})
unsigned_files = record {
  exists = λ p w. is_path p (executable_path slot_a) || is_path p checksums_path;
  is_file = λ p w. is_path p (executable_path slot_a);
  read = λ p w. ok (1 ∷ 2 ∷ []);
  read_to_string = λ p w. elim (is_path p active_slot_path) [
    | true ↦ ok (codes "A \r\n")
    | false ↦ ok (codes "6162  Slots/A/true-tick.exe\n")
  ];
  create_dir_all = λ p w. (ok tt, w);
  write = λ p s w. (ok tt, w);
  append = λ p s w. (ok tt, w);
  remove_file = λ p w. (ok tt, w);
  copy = λ p q w. (ok tt, w);
  move_replacing = λ p q w. (ok tt, w);
}

abbrev small_package : Host (Unit {0})
small_package = record {
  files = unsigned_files;
  sha256 = λ s. 97 ∷ 98 ∷ [];
  scheme = record { is_key = λ k. false; verify = λ k m s. false; sign = λ k m. [] };
  to_lowercase = λ s. s;
  show_path = λ p. concat p;
  show_io = λ e. [];
  pid = codes "1";
}

-- The launcher of the package, whose programs start.
abbrev small_shell : Shell (Unit {0})
small_shell = record { host = small_package; root = codes "/p"; spawn = λ exe args w. (ok tt, w) }

started_slot_a : run small_shell [] tt ≡ (ok 0, tt)
unfolding run launch select select_active active_slot parse_active_slot normalize_active_slot
    normalization_passes verify_and_check_slot verify_slot_executable verify_slot_integrity
    verify_slot_integrity_checksum check_listed listed_hash hash_on_line compute_sha256
    prepare_signed_manifest load_signed_manifest read_slot_health commit_slot clear_slot_health
    commit_release_counter slot_name bytes_eq to_hex hex_digit
started_slot_a = refl

run-started_example :
    (slot : Slot) × (exe : RelPath) × (t : Unit {0}) × (u : Unit {0}) × (exe ≡ executable_path slot)
    × (IsSigned small_package slot t ⊎ IsListed small_package slot t)
    × (small_shell.spawn exe [] u ≡ (ok tt, tt))
    × ◌≡◌ {A = ℕ} 0 0
run-started_example = run-started small_shell [] tt tt 0 started_slot_a
