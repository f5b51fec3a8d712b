-- ===== src/Tests/Diagnostics.antt =====
-- The diagnostic store, its report and its redaction, with a hash that keeps its input.
use true_tick.Base.{
  ℕ, ◌≡◌, ◌≢◌, ◌⊎◌, refl, List, [], ◌∷◌, ◌++◌, none, some, ok, arith, min, max, inl, inr,
}
use true_tick.Base.Text.{show, digits_within, Text, codes}
use true_tick.Diagnostics.{
  DiagnosticEvent, DiagnosticRecord, DiagnosticPhase, DiagnosticSource, DiagnosticOutcome,
  truncate_utf8, hard_max_events, sanitize,
}
use true_tick.Diagnostics.Privacy.{sanitize_pii, collect_spans, all_spans, merge_after}
use true_tick.Diagnostics.Privacy.Scan.{
  scan_user_profile_path, scan_machine_name, scan_environment_variable, scan_ip_address,
  scan_email_address, scan_windows_account_name, scan, profile_base, octets,
}
use true_tick.Base.Bytes.{bytes_eq}
use true_tick.Diagnostics.Privacy.Panic.{sanitize_pii-account}
use true_tick.Diagnostics.State.{DiagnosticStore, StoreState, no_native, snapshot}
use true_tick.Diagnostics.Store.{
  new_store, record_with_context, Recorded, unchanged, recorded, record_event, next_event,
  stored_details, compute_entry_hash, genesis_hash,
}
use true_tick.Diagnostics.Coalescing.{coalesce_repeated_layout_event, coalesce_events, coalesced}
use true_tick.Diagnostics.Store.Chain.{verify_event_chain, verify_after}
use true_tick.Diagnostics.Store.Verified.{verify_event_chain-Recorded}
use true_tick.Diagnostics.Store.Retained.{snapshot-Retained, Logged, Retained}
use true_tick.Diagnostics.Store.Coalesced.{IsLastChanged, hashed, verify_event_chain-coalesced}

abbrev keep : Text → Text
keep t = t

abbrev first_record : DiagnosticRecord
first_record = record {
  context = record { operation_id = 1; parent_operation_id = none; correlation_id = 1 };
  phase = DiagnosticPhase.complete;
  source = DiagnosticSource.internal;
  outcome = DiagnosticOutcome.completed;
  native = no_native;
}

abbrev with_event : ℕ → Text → Text → DiagnosticStore → DiagnosticStore
with_event elapsed name details s = record s {
  state =
      record_event keep s.maximum_events elapsed elapsed first_record (sanitize name) details
        s.state;
}

abbrev empty_store : DiagnosticStore
empty_store = new_store keep 2

abbrev one : DiagnosticStore
one = with_event 5 (codes "a") (codes "b") empty_store

abbrev two : DiagnosticStore
two = with_event 6 (codes "c") (codes "d") one

abbrev three : DiagnosticStore
three = with_event 7 (codes "e") (codes "f") two

stored : (d : ℕ) → (d ≡ 98) ⊎ (d ≡ 100) ⊎ (d ≡ 102) → stored_details (d ∷ []) ≡ some (d ∷ [])
unfolding stored_details sanitize truncate_utf8 sanitize_pii collect_spans all_spans
    scan_user_profile_path scan_machine_name scan_environment_variable scan_ip_address
    scan_email_address scan_windows_account_name scan profile_base octets bytes_eq merge_after
stored d (inl e) = rw e
stored d (inr (inl e)) = rw e
stored d (inr (inr e)) = rw e

plain_name :
    (b : ℕ) → (b ≡ 97) ⊎ (b ≡ 99) ⊎ (b ≡ 101) → sanitize (b ∷ []) ≢ codes "diagnostic.layout.error"
unfolding sanitize truncate_utf8
plain_name b (inl e) h = ground (arith, rw e at h)
plain_name b (inr (inl e)) h = ground (arith, rw e at h)
plain_name b (inr (inr e)) h = ground (arith, rw e at h)

step :
    (elapsed : ℕ) (name details : Text) (s : DiagnosticStore)
    → stored_details details ≡ some details
    → record_with_context keep elapsed elapsed first_record name details s
      ≡ some (with_event elapsed name details s)
unfolding record_with_context
step elapsed name details s h = rw h

abbrev inputs : List (Text × Text)
inputs = (codes "e", codes "f") ∷ (codes "c", codes "d") ∷ (codes "a", codes "b") ∷ []

run : Recorded keep inputs empty_store three
run =
    recorded 7 7 first_record (codes "e") (codes "f") (plain_name 101 (inr (inr refl)))
      (step 7 (codes "e") (codes "f") two (stored 102 (inr (inr refl))))
      (recorded 6 6 first_record (codes "c") (codes "d") (plain_name 99 (inr (inl refl)))
        (step 6 (codes "c") (codes "d") one (stored 100 (inr (inl refl))))
        (recorded 5 5 first_record (codes "a") (codes "b") (plain_name 97 (inl refl))
          (step 5 (codes "a") (codes "b") empty_store (stored 98 (inl refl))) unchanged))

verify_event_chain-Recorded_example : verify_event_chain keep (snapshot three) ≡ ok tt
verify_event_chain-Recorded_example =
    verify_event_chain-Recorded keep 2 inputs three run (omega arith)

snapshot-Retained_example :
    (log : List DiagnosticEvent) × Logged inputs log
    × Retained (min (max 2 2) hard_max_events) log (snapshot three) three.state.truncation_recorded
snapshot-Retained_example = snapshot-Retained keep 2 inputs three run

sanitize_pii-account_example :
    (collect_spans (codes "CORP" ++ 92 ∷ codes "alice") ≡ none)
    × (sanitize_pii (codes "details") (codes "CORP" ++ 92 ∷ codes "alice") ≡ none)
sanitize_pii-account_example =
    sanitize_pii-account (codes "details") (codes "CORP") (codes "alice")
      (refl, (refl, (refl, (refl, tt)))) (omega arith)

abbrev layout : Text
layout = codes "diagnostic.layout.error"

abbrev layout_event : DiagnosticEvent
layout_event = next_event keep empty_store.state 5 first_record layout (codes "x")

abbrev layout_state : StoreState
layout_state = record empty_store.state { events = layout_event ∷ []; next_sequence = 2 }

abbrev repeated_state : StoreState
repeated_state = record layout_state {
  events = record layout_event { details = codes "x repeat_count=2" } ∷ [];
  coalesced_details = some (codes "x repeat_count=2");
}

layout_verified : verify_event_chain keep layout_state.events ≡ ok tt
unfolding next_event verify_event_chain verify_after compute_entry_hash bytes_eq new_store
    genesis_hash
layout_verified = refl

layout_repeated :
    coalesce_repeated_layout_event layout (codes "x") layout_state ≡ some repeated_state
unfolding coalesce_repeated_layout_event coalesce_events coalesced next_event bytes_eq truncate_utf8
    new_store show digits_within
layout_repeated = refl

layout_differs : repeated_state.events ≢ layout_state.events
unfolding next_event
layout_differs h = ground (arith, h)

verify_event_chain-coalesced_example :
    (e : DiagnosticEvent) × (next : Text) × IsLastChanged layout_state.events repeated_state.events
      e next
    × (hashed e next ≢ hashed e e.details)
    × ((verify_event_chain keep repeated_state.events ≢ ok tt)
        ⊎ (keep (hashed e next) ≡ keep (hashed e e.details)))
verify_event_chain-coalesced_example =
    verify_event_chain-coalesced keep layout (codes "x") layout_state repeated_state layout_verified
      layout_repeated layout_differs
