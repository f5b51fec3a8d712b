-- ===== src/Tests/Report.antt =====
-- The report of the diagnostic events and its redaction at concrete inputs.
use true_tick.Base.{
  ℕ, ◌<◌, ◌≤◌, ◌≡◌, ◌≢◌, ◌⊎◌, refl, Bool, false, List, [], ◌∷◌, none, some, arith, length, map, ltb,
}
use true_tick.Base.Bytes.{bytes_eq}
use true_tick.Base.Text.{Text, codes}
use true_tick.Diagnostics.{
  DiagnosticEvent, DiagnosticPhase, DiagnosticSource, DiagnosticOutcome, truncate_utf8,
  max_field_length,
}
use true_tick.Diagnostics.Privacy.{
  sanitize_pii, collect_spans, all_spans, merge_after, redact, finding, PiiFinding,
}
use true_tick.Diagnostics.Privacy.Scan.{
  PiiKind, Spans, scan_user_profile_path, scan_machine_name, scan_environment_variable,
  scan_ip_address, scan_email_address, scan_windows_account_name, scan, profile_base, octets,
  max_pii_findings,
}
use true_tick.Diagnostics.Privacy.Ordered.{IsOrdered}
use true_tick.Diagnostics.Privacy.Redaction.{copied, sanitize_pii-copied}
use true_tick.Diagnostics.State.{no_native}
use true_tick.Diagnostics.Rows.{RowSelection, selected_event_sequences, row_selection_for_sequences}
use true_tick.Diagnostics.Rows.Selected.{row_selection-selected}
use true_tick.Diagnostics.Report.{csv_field}
use true_tick.Diagnostics.Report.Fields.{read_field, IsFormula, read-csv_field}

abbrev event : ℕ → DiagnosticEvent
event n = record {
  sequence = n;
  elapsed = 5;
  context = record { operation_id = 1; parent_operation_id = none; correlation_id = 1 };
  phase = DiagnosticPhase.complete;
  source = DiagnosticSource.internal;
  outcome = DiagnosticOutcome.completed;
  native = no_native;
  name = codes "a";
  details = codes "b";
  prev_hash = [];
  entry_hash = [];
}

abbrev events : List DiagnosticEvent
events = event 3 ∷ event 5 ∷ event 6 ∷ event 7 ∷ []

abbrev two_rows : RowSelection
two_rows = record { start = 2; end = 3 }

differ : (m n : ℕ) → m < n → m ≢ n
differ m n h e = omega arith

row_selection-selected_example :
    row_selection_for_sequences events (selected_event_sequences events two_rows) ≡ some two_rows
row_selection-selected_example =
    row_selection-selected events two_rows
      (
        (differ 3 5 (omega arith), (differ 3 6 (omega arith), (differ 3 7 (omega arith), tt))),
        (
          (differ 5 6 (omega arith), (differ 5 7 (omega arith), tt)),
          ((differ 6 7 (omega arith), tt), (tt, tt)),
        ),
      )
      (omega arith) (omega arith) (omega arith)

abbrev is_letter : Text → Bool
is_letter [] = false
is_letter (b ∷ _) = ltb 64 b

read-csv_field_example :
    (value : Text) × (read_field (csv_field is_letter (codes "=A1,\"x\"")) ≡ some value)
    × (IsFormula is_letter value → ⊥)
    × ((value ≡ truncate_utf8 (codes "=A1,\"x\"") max_field_length)
        ⊎ (value ≡ 39 ∷ truncate_utf8 (codes "=A1,\"x\"") max_field_length))
read-csv_field_example = read-csv_field is_letter (codes "=A1,\"x\"")

abbrev user_text : Text
user_text = codes "by x@y.z"

abbrev user_findings : List PiiFinding
user_findings = record { kind = PiiKind.email_address; field = codes "details"; offset = 3 } ∷ []

user_redacted :
    sanitize_pii (codes "details") user_text ≡ some (codes "by [redacted]", user_findings)
unfolding sanitize_pii collect_spans all_spans scan_user_profile_path scan_machine_name
    scan_environment_variable scan_ip_address scan_email_address scan_windows_account_name scan
    profile_base octets bytes_eq merge_after redact
user_redacted = refl

sanitize_pii-copied_example :
    (spans : Spans) × IsOrdered (length user_text) 0 spans
    × (length spans ≤ max_pii_findings)
    × (codes "by [redacted]" ≡ copied 0 user_text spans)
    × (user_findings ≡ map (finding (codes "details")) spans)
sanitize_pii-copied_example =
    sanitize_pii-copied (codes "details") user_text (codes "by [redacted]") user_findings
      user_redacted
