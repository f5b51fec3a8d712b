-- ===== src/Diagnostics/Privacy.antt =====
-- crates/tick-diagnostics/src/privacy.rs: the scanners for personal data and the redaction. A
-- scanner walks the bytes with the text before its index, reversed, and the bytes from it on.
pub mod Scan
pub mod Panic
pub mod Bounds
pub mod Ordered
pub mod Redaction
use true_tick.Base.{
  ℕ, zero, suc, ◌+◌, ◌-◌, leb, ltb, ◌==◌, if◌then◌else◌, Bool, true, false, not, ◌&&◌, ◌||◌, Option,
  none, some, List, [], ◌∷◌, ◌++◌, length, take, drop, map, is_empty, option_map,
}
use true_tick.Base.Bytes.{bytes_eq}
use true_tick.Base.Text.{Text, codes}
use true_tick.Diagnostics.Privacy.Scan.{
  PiiKind, PiiSpan, Spans, scan_user_profile_path, scan_machine_name, scan_environment_variable,
  scan_ip_address, scan_email_address, scan_windows_account_name, max_pii_findings,
}

-- `left` stands before `right` in the order of the sort: by start, then the longer first.
abbrev pub in_order : PiiSpan → PiiSpan → Bool
in_order left right =
    ltb left.start right.start || (left.start == right.start && leb right.end left.end)

-- A stable sort: an element goes in front of the first one that it does not stand after.
abbrev pub insert_span : PiiSpan → List PiiSpan → List PiiSpan
insert_span s [] = s ∷ []
insert_span s (t ∷ ts) =
    let rest = insert_span s ts in if in_order s t then s ∷ t ∷ ts else t ∷ rest

abbrev pub sort_spans : List PiiSpan → List PiiSpan
sort_spans [] = []
sort_spans (s ∷ ss) = insert_span s (sort_spans ss)

-- The merge: a span that starts before the end of the last one kept is left out, and the loop
-- stops at the cap. `room` is what the cap still allows.
unfoldable pub merge_after : ℕ → ℕ → List PiiSpan → List PiiSpan
merge_after zero last_end spans = []
merge_after (suc room) last_end [] = []
merge_after (suc room) last_end (s ∷ ss) =
    let skipped = merge_after (suc room) last_end ss in
    let kept = s ∷ merge_after room s.end ss in if ltb s.start last_end then skipped else kept

abbrev pub then_scan : (Spans → Option Spans) → Option Spans → Option Spans
then_scan scanner none = none
then_scan scanner (some spans) = scanner spans

-- The scanners in their turn, each with the spans found before. `none` is a panic.
unfoldable pub all_spans : Text → Option Spans
all_spans text =
    let cap = max_pii_findings in
    let spans = scan_user_profile_path text [] cap in
    let spans = then_scan (λ s. scan_machine_name text s cap) spans in
    let spans = then_scan (λ s. scan_environment_variable text s cap) spans in
    let spans = then_scan (λ s. scan_ip_address text s cap) spans in
    let spans = then_scan (λ s. scan_email_address text s cap) spans in
    then_scan (λ s. scan_windows_account_name text s cap) spans

unfoldable pub collect_spans : Text → Option Spans
collect_spans text =
    option_map (λ s. merge_after max_pii_findings 0 (sort_spans s)) (all_spans text)

pub record PiiFinding : Type 0 where
  pub kind : PiiKind
  pub field : Text
  pub offset : ℕ

abbrev pub finding : Text → PiiSpan → PiiFinding
finding field span = record { kind = span.kind; field = field; offset = span.start }

unfoldable pub scan_for_pii : Text → Text → Option (List PiiFinding)
scan_for_pii field text = option_map (map (finding field)) (collect_spans text)

-- `replace_range` of each span, from the last to the first.
unfoldable pub redact : List PiiSpan → Text → Text
redact [] text = text
redact (s ∷ ss) text =
    let later = redact ss text in take s.start later ++ codes "[redacted]" ++ drop s.end later

unfoldable pub sanitize_pii : Text → Text → Option (Text × List PiiFinding)
sanitize_pii field text =
    option_map
      (λ spans.
        if is_empty spans then (text, []) else (redact spans text, map (finding field) spans))
      (collect_spans text)
