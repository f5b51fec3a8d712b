-- ===== src/Diagnostics.antt =====
-- crates/tick-diagnostics/src/lib.rs: the events of the diagnostic store and the bounds on their
-- text. A `Duration` is its nanoseconds.
pub mod Labels
pub mod Privacy
pub mod State
pub mod Operations
pub mod Coalescing
pub mod Store
pub mod Rows
pub mod Report
use true_tick.Base.{
  ℕ, zero, suc, ◌+◌, leb, if◌then◌else◌, Option, List, [], ◌∷◌, ◌++◌, map, ltb, ◌==◌, length, take,
}
use true_tick.Base.Int.{ℤ}
use true_tick.Base.Text.{Text, codes, chars, concat, is_control, one_of}

abbrev pub default_max_events : ℕ
default_max_events = 512

abbrev pub hard_max_events : ℕ
hard_max_events = 512

abbrev pub max_field_length : ℕ
max_field_length = 160

abbrev pub max_rendered_event_bytes : ℕ
max_rendered_event_bytes = 1024

pub data EventCategory : Type 0 where
  startup timer power ui schedule system : EventCategory

pub data DiagnosticPhase : Type 0 where
  begin observe decide acquire release verify handoff timer render persist shutdown complete :
      DiagnosticPhase

pub data DiagnosticSource : Type 0 where
  tray_command power_event startup pause resume handoff shutdown policy ownership platform native
        timer diagnostic internal :
      DiagnosticSource

pub data DiagnosticOutcome : Type 0 where
  in_progress completed degraded failed cancelled suppressed timed_out unverified :
      DiagnosticOutcome

pub record NativeOutcome : Type 0 where
  pub ntstatus : Option ℤ
  pub win32_last_error : Option ℕ
  pub requested_hns : Option ℕ
  pub selected_hns : Option ℕ
  pub effective_hns : Option ℕ

pub record OperationContext : Type 0 where
  pub operation_id : ℕ
  pub parent_operation_id : Option ℕ
  pub correlation_id : ℕ

pub record DiagnosticRecord : Type 0 where
  pub context : OperationContext
  pub phase : DiagnosticPhase
  pub source : DiagnosticSource
  pub outcome : DiagnosticOutcome
  pub native : NativeOutcome

-- The operation, parent and correlation numbers of an event stand in its `context`.
pub record DiagnosticEvent : Type 0 where
  pub sequence : ℕ
  pub elapsed : ℕ
  pub context : OperationContext
  pub phase : DiagnosticPhase
  pub source : DiagnosticSource
  pub outcome : DiagnosticOutcome
  pub native : NativeOutcome
  pub name : Text
  pub details : Text
  pub prev_hash : Text
  pub entry_hash : Text

-- The end of the last character that ends within the maximum, from the characters left, the
-- index of the next and the end found so far.
abbrev pub end_within : ℕ → ℕ → ℕ → List Text → ℕ
end_within maximum index found [] = found
end_within maximum index found (c ∷ cs) =
    let next = index + length c in
    let rest = end_within maximum next next cs in if leb next maximum then rest else found

unfoldable pub truncate_utf8 : Text → ℕ → Text
truncate_utf8 value maximum =
    if leb (length value) maximum
    then value
    else take (end_within maximum 0 0 (chars value)) value ++ codes "..."

abbrev pub sanitize_char : Text → Text
sanitize_char [] = []
sanitize_char (b ∷ rest) =
    if one_of (13 ∷ 10 ∷ 9 ∷ []) b
    then 32 ∷ []
    else (if is_control (b ∷ rest) then 63 ∷ [] else b ∷ rest)

unfoldable pub sanitize : Text → Text
sanitize value = truncate_utf8 (concat (map sanitize_char (chars value))) max_field_length
