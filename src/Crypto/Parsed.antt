-- ===== src/Crypto/Parsed.antt =====
-- What the parser of crates/tick-crypto/src/lib.rs accepts: at most 256 entries with distinct
-- paths, and a digest and a signature of their exact lengths.
use true_tick.Base.{
  ℕ, zero, suc, ◌*◌, ◌≤◌, ◌≡◌, ◌≢◌, refl, Bool, true, false, not, ◌&&◌, none, some, List, [], ◌∷◌,
  Result, ok, err, All, All-append, length, length-append, arith, ap, ◌==◌, ltb, leb, if◌then◌else◌,
  subst, or-false, is_empty, ◌∙◌, Option-cases, inl, inr,
}
use true_tick.Base.Try.{bind_inv, ensure, ensure_inv, ok_or, ok_or_inv}
use true_tick.Base.Pairs.{Pairwise, Pairwise-snoc}
use true_tick.Base.Bytes.{bytes_eq, bytes_eq_self}
use true_tick.Base.Text.{Text, codes, all, any, split, chars, is_whitespace, parse_unsigned}
use true_tick.Base.Words.{without_return}
use true_tick.Crypto.{
  SignedManifest, ManifestEntry, Parsing, CryptoError, decode_hex, hex_pairs, is_lower_hex,
  counter_line, entry_line, signature_line, keyed_line, parse_line, parse_lines,
  parse_signed_manifest, has_path, is_none, strip_prefix, rsplit_space,
}

length-hex_pairs : (n : ℕ) (s : Text) → length s ≡ n * 2 → length (hex_pairs s) ≡ n
length-hex_pairs zero [] h = refl
length-hex_pairs (suc n) [] h = absurd (omega arith)
length-hex_pairs n (a ∷ []) h = absurd (omega arith)
length-hex_pairs zero (a ∷ b ∷ s) h = absurd (omega arith)
length-hex_pairs (suc n) (a ∷ b ∷ s) h = ap suc (length-hex_pairs n s (omega arith))

length-decode_hex : (n : ℕ) (s t : Text) → decode_hex n s ≡ ok t → length t ≡ n
unfolding decode_hex
length-decode_hex n s t h =
    let (u, size, h1) = bind_inv (ensure (length s == n * 2) CryptoError.malformed_manifest) _ h in
    let (v, hex, h2) = bind_inv (ensure (all is_lower_hex s) CryptoError.malformed_manifest) _ h1 in
    let even : length s ≡ n * 2 = ground (arith, ensure_inv _ _ size) in
    ok_same h2 (length-hex_pairs n s even)
  where
    ok_same :
        {a : Text} → ◌≡◌ {A = Result Text CryptoError} (ok a) (ok t) → length a ≡ n → length t ≡ n
    ok_same {a = a} e size = let same : a ≡ t = ground (arith, e) in rw (← same) size

abbrev pub HasDigest : ManifestEntry → Type 0
HasDigest e = length e.digest ≡ 32

abbrev pub AreApart : ManifestEntry → ManifestEntry → Type 0
AreApart e f = e.path ≢ f.path

-- What the lines read so far have.
abbrev IsParsed : Parsing → Type 0
IsParsed p =
    (length p.entries ≤ 256)
    × All HasDigest p.entries
    × Pairwise AreApart p.entries
    × ((s : Text) → p.signature ≡ some s → length s ≡ 64)

apart-has_path :
    (path : Text) (es : List ManifestEntry) → has_path path es ≡ false → All (λ e. e.path ≢ path) es
apart-has_path path [] h = tt
apart-has_path path (e ∷ es) h =
    let (first, rest) = or-false (bytes_eq e.path path) (has_path path es) h in
    (
      λ same.
          let equal : bytes_eq e.path path ≡ true =
            ap (λ t. bytes_eq t path) same ∙ bytes_eq_self path in
          cc,
      apart-has_path path es rest,
    )

Keeps : (Parsing → Result Parsing CryptoError) → Type 0
Keeps step = (p q : Parsing) → IsParsed p → step p ≡ ok q → IsParsed q

ok_keeps :
    {p q : Parsing} → ◌≡◌ {A = Result Parsing CryptoError} (ok p) (ok q) → IsParsed p → IsParsed q
ok_keeps {p = p} {q = q} e h = let same : p ≡ q = ground (arith, e) in subst IsParsed same h

counter_line-Keeps : (rest : Text) → Keeps (counter_line rest)
unfolding Keeps counter_line
counter_line-Keeps rest p q (few, digests, apart, signed) h =
    let (u, first, h1) =
      bind_inv (ensure (is_none p.release_counter) CryptoError.malformed_manifest) _ h in
    let (n, number, h2) =
      bind_inv (ok_or (parse_unsigned 64 rest) CryptoError.malformed_manifest) _ h1 in
    ok_keeps h2 (few, digests, apart, signed)

entry_line-Keeps : (rest : Text) → Keeps (entry_line rest)
unfolding Keeps entry_line
entry_line-Keeps rest p q (few, digests, apart, signed) h =
    let malformed = CryptoError.malformed_manifest in
    let (u, room, h1) = bind_inv (ensure (ltb (length p.entries) 256) malformed) _ h in
    let ((path, hex), parts, h2) = bind_inv (ok_or (rsplit_space rest) malformed) _ h1 in
    let (v, plain, h3) =
      bind_inv (ensure (not (is_empty path) && not (any is_whitespace (chars path))) malformed) _
        h2 in
    let (digest, decoded, h4) = bind_inv (decode_hex 32 hex) _ h3 in
    let (x, fresh, h5) = bind_inv (ensure (not (has_path path p.entries)) malformed) _ h4 in
    let e : ManifestEntry = record { path = path; digest = digest } in
    let new : has_path path p.entries ≡ false = ground (arith, ensure_inv _ _ fresh) in
    let below : ltb (length p.entries) 256 ≡ true = ensure_inv _ _ room in
    ok_keeps h5 (
      ground (arith, below, length-append p.entries (e ∷ [])),
      All-append HasDigest p.entries (e ∷ []) digests (length-decode_hex 32 hex digest decoded, tt),
      Pairwise-snoc AreApart p.entries e apart (apart-has_path path p.entries new),
      signed,
    )

signature_line-Keeps : (rest : Text) → Keeps (signature_line rest)
unfolding Keeps signature_line
signature_line-Keeps rest p q (few, digests, apart, signed) h =
    let (u, first, h1) =
      bind_inv (ensure (is_none p.signature) CryptoError.malformed_manifest) _ h in
    let (v, size, h2) =
      bind_inv (ensure (length rest == 128) CryptoError.wrong_signature_length) _ h1 in
    let (s, decoded, h3) = bind_inv (decode_hex 64 rest) _ h2 in
    ok_keeps h3 (
      few,
      digests,
      apart,
      λ t e.
          let same : s ≡ t = ground (arith, e) in rw (← same) (length-decode_hex 64 rest s decoded),
    )

keyed_line-Keeps : (line : Text) → Keeps (keyed_line line)
unfolding Keeps
keyed_line-Keeps line p q h e = elim (Option-cases (strip_prefix (codes "release_counter ") line)) [
  | inr (rest, r) ↦ counter_line-Keeps rest p q h (rw r at e)
  | inl none_one ↦ elim (Option-cases (strip_prefix (codes "entry ") line)) [
    | inr (rest, r) ↦ entry_line-Keeps rest p q h (rw (none_one, r) at e)
    | inl none_two ↦ elim (Option-cases (strip_prefix (codes "signature ") line)) [
      | inr (rest, r) ↦ signature_line-Keeps rest p q h (rw (none_one, none_two, r) at e)
      | inl none_three ↦ let refused = rw (none_one, none_two, none_three) at e in cc
    ]
  ]
]

parse_line-Keeps : (line : Text) → Keeps (parse_line line)
unfolding Keeps parse_line
parse_line-Keeps raw p q h e =
    let line = without_return raw in
    choice (leb (length line) 4096) (is_empty line) (keyed_line-Keeps line p q h) e
  where
    choice :
        (fits blank : Bool)
        → (keyed_line (without_return raw) p ≡ ok q → IsParsed q)
        → (if fits
            then (if blank then ok p else keyed_line (without_return raw) p)
            else err CryptoError.malformed_manifest)
          ≡ ok q
        → IsParsed q
    choice true true k r = ok_keeps r h
    choice true false k r = k r
    choice false blank k r = cc

parse_lines-Keeps : (lines : List Text) → Keeps (parse_lines lines)
unfolding Keeps parse_lines
parse_lines-Keeps [] p q h e = ok_keeps e h
parse_lines-Keeps (line ∷ lines) p q h e =
    let (r, first, rest) = bind_inv (parse_line line p) (parse_lines lines) e in
    parse_lines-Keeps lines r q (parse_line-Keeps line p r h first) rest

-- A manifest that is parsed has at most 256 entries, each with a digest of 32 bytes, no two with
-- the same path, and a signature of 64 bytes.
pub parse_signed_manifest-bounds :
    (text : Text) (m : SignedManifest)
    → parse_signed_manifest text ≡ ok m
    → (length m.entries ≤ 256)
      × All HasDigest m.entries
      × Pairwise AreApart m.entries
      × (length m.signature ≡ 64)
unfolding parse_signed_manifest Keeps
parse_signed_manifest-bounds text m h =
    let start : Parsing = record { release_counter = none; signature = none; entries = [] } in
    let malformed = CryptoError.malformed_manifest in
    let (p, parsed, h1) = bind_inv (parse_lines (split (λ b. b == 10) text) start) _ h in
    let (counter, counted, h2) = bind_inv (ok_or p.release_counter malformed) _ h1 in
    let (signature, signed, h3) = bind_inv (ok_or p.signature malformed) _ h2 in
    let (few, digests, apart, sized) =
      parse_lines-Keeps (split (λ b. b == 10) text) start p (omega arith, tt, tt, λ s e. cc)
        parsed in
    let size = sized signature (ok_or_inv p.signature malformed signed) in
    let entries : p.entries ≡ m.entries = ap (λ r. entries_of r) h3 in
    let signature_same : signature ≡ m.signature = ap (λ r. signature_of r) h3 in
    (
      rw (← entries) few,
      subst (All HasDigest) entries digests,
      subst (Pairwise AreApart) entries apart,
      rw (← signature_same) size,
    )
  where
    entries_of : Result SignedManifest CryptoError → List ManifestEntry
    entries_of (ok a) = a.entries
    entries_of (err x) = []

    signature_of : Result SignedManifest CryptoError → Text
    signature_of (ok a) = a.signature
    signature_of (err x) = []
