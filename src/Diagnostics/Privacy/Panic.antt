-- ===== src/Diagnostics/Privacy/Panic.antt =====
-- A text that starts with an account name makes the scan of crates/tick-diagnostics/src/privacy.rs
-- read the byte before its first one.
use true_tick.Base.{
  ℕ, zero, suc, ◌+◌, ◌<◌, ◌≡◌, refl, true, false, [], ◌∷◌, ◌++◌, Option, none, some, All, length,
  length-append, drop, arith, ◌==◌,
}
use true_tick.Base.Text.{Text}
use true_tick.Diagnostics.Privacy.{all_spans, collect_spans, sanitize_pii, then_scan}
use true_tick.Diagnostics.Privacy.Scan.{
  PiiKind, Spans, miss, panic, scan, run, is_ident_byte, windows_account_name_at,
  scan_windows_account_name, max_pii_findings,
}

abbrev pub IsIdent : ℕ → Type 0
IsIdent b = is_ident_byte b ≡ true

no_backslash : (b : ℕ) → IsIdent b → (b == 92) ≡ false
no_backslash b h = ground arith

nonzero : (n : ℕ) → (suc n == 0) ≡ false
nonzero n = ground arith

run_whole : (s : Text) → All IsIdent s → run is_ident_byte s ≡ length s
run_whole [] h = refl
run_whole (b ∷ s) h = rw (h.0, run_whole s h.1)

drop_whole : (s : Text) → drop (length s) s ≡ []
drop_whole [] = refl
drop_whole (b ∷ s) = drop_whole s

at_ident :
    (before text : Text) (b : ℕ) → IsIdent b → windows_account_name_at before (b ∷ text) ≡ miss
at_ident before text b h = rw (no_backslash b h)

at_backslash :
    (b : ℕ) (before text : Text)
    → All IsIdent (b ∷ before)
    → windows_account_name_at (b ∷ before) (92 ∷ text) ≡ panic
at_backslash b before text h =
    rw (no_backslash b h.0, h.0, run_whole before h.1, nonzero (length before), drop_whole before)
      refl

-- The scan from inside the domain, whose bytes behind the index are those in `before`.
scan_panics :
    (domain before text : Text) (cap fuel index : ℕ) (spans : Spans)
    → All IsIdent domain
    → All IsIdent before
    → 0 < length before + length domain
    → length domain < fuel
    → scan PiiKind.windows_account_name windows_account_name_at cap fuel index before
        (domain ++ 92 ∷ text)
        spans
      ≡ none
unfolding scan
scan_panics [] [] text cap fuel index spans h k some_bytes room = absurd (omega arith)
scan_panics domain before text cap zero index spans h k some_bytes room = absurd (omega arith)
scan_panics [] (b ∷ before) text cap (suc fuel) index spans h k some_bytes room =
    rw (scan, at_backslash b before text k)
scan_panics (b ∷ domain) before text cap (suc fuel) index spans h k some_bytes room =
    rw (scan, at_ident before (domain ++ 92 ∷ text) b h.0)
      (scan_panics domain (b ∷ before) text cap fuel (suc index) spans h.1 (h.0, k) (omega arith)
        (omega arith))

account_panics :
    (domain text : Text) (cap : ℕ) (spans : Spans)
    → All IsIdent domain
    → 0 < length domain
    → scan_windows_account_name (domain ++ 92 ∷ text) spans cap ≡ none
unfolding scan_windows_account_name
account_panics domain text cap spans h some_bytes =
    scan_panics domain [] text cap (length (domain ++ 92 ∷ text)) 0 spans h tt (omega arith)
      (omega (arith, length-append domain (92 ∷ text)))

then_panics :
    (scanner : Spans → Option Spans) (o : Option Spans)
    → ((s : Spans) → scanner s ≡ none)
    → then_scan scanner o ≡ none
then_panics scanner none h = refl
then_panics scanner (some s) h = h s

all_spans-account :
    (domain text : Text)
    → All IsIdent domain
    → 0 < length domain
    → all_spans (domain ++ 92 ∷ text) ≡ none
unfolding all_spans
all_spans-account domain text h some_bytes =
    let t = domain ++ 92 ∷ text in
    then_panics (λ s. scan_windows_account_name t s max_pii_findings) _
      (λ s. account_panics domain text max_pii_findings s h some_bytes)

-- A text that starts with identifier bytes, at least one, and a backslash makes the scan panic,
-- and with it the redaction.
pub sanitize_pii-account :
    (field domain text : Text)
    → All IsIdent domain
    → 0 < length domain
    → (collect_spans (domain ++ 92 ∷ text) ≡ none)
      × (sanitize_pii field (domain ++ 92 ∷ text) ≡ none)
unfolding sanitize_pii collect_spans
sanitize_pii-account field domain text h some_bytes =
    let panics = all_spans-account domain text h some_bytes in (rw panics, rw panics)
