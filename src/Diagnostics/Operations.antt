-- ===== src/Diagnostics/Operations.antt =====
-- crates/tick-diagnostics/src/lib.rs: the operations of the diagnostic store, and the outcome and the
-- phase of an event that is recorded by its name.
use true_tick.Base.{if◌then◌else◌, Bool, not, ◌&&◌, ◌||◌, Option, none, some, ◌++◌}
use true_tick.Base.Bytes.{bytes_eq}
use true_tick.Base.Text.{
  Text, codes, contains, to_ascii_lowercase, split, is_ascii_alphanumeric, any,
}
use true_tick.Diagnostics.{DiagnosticPhase, DiagnosticSource, DiagnosticOutcome, OperationContext}
use true_tick.Diagnostics.State.{next_u64, StoreState}

unfoldable pub allocate_operation :
    Option OperationContext → StoreState → OperationContext × StoreState
allocate_operation parent s =
    let id = s.next_operation_id in
    let context : OperationContext = record {
      operation_id = id;
      parent_operation_id = elim parent [ none ↦ none | some p ↦ some p.operation_id ];
      correlation_id = elim parent [ none ↦ id | some p ↦ p.correlation_id ];
    } in
    (context, record s { next_operation_id = next_u64 id })

unfoldable pub begin_operation : DiagnosticSource → StoreState → OperationContext × StoreState
begin_operation source = allocate_operation none

unfoldable pub child_operation :
    OperationContext → DiagnosticSource → StoreState → OperationContext × StoreState
child_operation parent source = allocate_operation (some parent)

-- The words of a text: what stands between the bytes that are not letters or digits.
abbrev pub has_word : Text → Text → Bool
has_word value word = any (bytes_eq word) (split (λ b. not (is_ascii_alphanumeric b)) value)

unfoldable pub derive_outcome : Text → Text → DiagnosticOutcome
derive_outcome name details =
    let value = to_ascii_lowercase (name ++ codes " " ++ details) in
    let has = has_word value in
    let no_error =
      contains (codes "error=none") value
      || contains (codes "errors=none") value
      || contains (codes "errors.cleared") value
      || contains (codes "error=0") value
      || contains (codes "errors=0") value in
    if has (codes "timedout") || has (codes "timeout")
    then DiagnosticOutcome.timed_out
    else (if has (codes "suppressed")
        then DiagnosticOutcome.suppressed
        else (if contains (codes "cancel") value
            then DiagnosticOutcome.cancelled
            else (if has (codes "unverified") || has (codes "uncertain")
                then DiagnosticOutcome.unverified
                else (if has (codes "degraded")
                    then DiagnosticOutcome.degraded
                    else (if not no_error
                          && (has (codes "error") || has (codes "errors") || has (codes "failed"))
                        then DiagnosticOutcome.failed
                        else (if has (codes "started") || has (codes "pending")
                            then DiagnosticOutcome.in_progress
                            else DiagnosticOutcome.completed))))))

unfoldable pub phase_of : Text → Text → DiagnosticPhase
phase_of name details =
    let value = to_ascii_lowercase (name ++ codes " " ++ details) in
    if contains (codes "window") value
      || contains (codes "layout") value
      || contains (codes "render") value
      || contains (codes "dpi") value
    then DiagnosticPhase.render
    else DiagnosticPhase.complete
