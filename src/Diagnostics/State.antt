-- ===== src/Diagnostics/State.antt =====
-- crates/tick-diagnostics/src/lib.rs: the state of the diagnostic store.
use true_tick.Base.{ℕ, suc, Bool, Option, none, List, min}
use true_tick.Base.Text.{Text}
use true_tick.Diagnostics.{DiagnosticEvent, NativeOutcome}

abbrev pub u64_max : ℕ
u64_max = 18446744073709551615

-- `saturating_add(1)` on a `u64`.
abbrev pub next_u64 : ℕ → ℕ
next_u64 n = min (suc n) u64_max

pub record StoreState : Type 0 where
  pub next_sequence : ℕ
  pub next_operation_id : ℕ
  pub events : List DiagnosticEvent
  pub truncation_recorded : Bool
  pub last_entry_hash : Text
  pub coalesced_details : Option Text

-- The state behind the mutex, and the capacity that `new` fixes.
pub record DiagnosticStore : Type 0 where
  pub maximum_events : ℕ
  pub state : StoreState

abbrev pub snapshot : DiagnosticStore → List DiagnosticEvent
snapshot store = store.state.events

abbrev pub no_native : NativeOutcome
no_native = record {
  ntstatus = none;
  win32_last_error = none;
  requested_hns = none;
  selected_hns = none;
  effective_hns = none;
}
