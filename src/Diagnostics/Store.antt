-- ===== src/Diagnostics/Store.antt =====
-- crates/tick-diagnostics/src/lib.rs: `DiagnosticStore`, its hash chain and its retention. SHA-256
-- is a parameter: the sha2 crate is not part of the repository. An operation holds the mutex from
-- its first read to its last write, and is one step.
pub mod Chain
pub mod Verified
pub mod Retained
pub mod Coalesced
use true_tick.Base.{
  ℕ, zero, suc, ◌+◌, ◌-◌, ◌*◌, ◌≤◌, ◌<◌, ◌≡◌, ◌≢◌, leb, ltb, ◌==◌, if◌then◌else◌, Bool, true, false,
  not, ◌&&◌, ◌||◌, Option, none, some, List, [], ◌∷◌, ◌++◌, Result, ok, err, length, take, drop,
  is_empty, min, max, option_map,
}
use true_tick.Base.Bytes.{bytes_eq, to_le_bytes}
use true_tick.Base.Text.{
  Text, codes, contains, to_ascii_lowercase, split, is_ascii_alphanumeric, any, show,
  parse_unsigned, starts_with, reverse,
}
use true_tick.Diagnostics.{
  DiagnosticEvent, DiagnosticRecord, DiagnosticPhase, DiagnosticSource, DiagnosticOutcome,
  OperationContext, NativeOutcome, truncate_utf8, sanitize, max_field_length, hard_max_events,
}
use true_tick.Diagnostics.Privacy.{sanitize_pii, PiiFinding}
use true_tick.Diagnostics.State.{
  u64_max, next_u64, StoreState, DiagnosticStore, snapshot, no_native,
}
use true_tick.Diagnostics.Operations.{
  allocate_operation, begin_operation, child_operation, has_word, derive_outcome, phase_of,
}
use true_tick.Diagnostics.Coalescing.{
  rsplit_repeat, parsed_count, is_marker, repeated_details, coalesced, coalesce_events,
  coalesce_repeated_layout_event,
}

-- `Vec::remove`; the index is in bounds wherever the code calls it.
abbrev pub remove {ℓ} : {A : Type ℓ} → ℕ → List A → List A
remove i [] = []
remove zero (x ∷ xs) = xs
remove (suc i) (x ∷ xs) = x ∷ remove i xs

-- The details as the store keeps them: sanitized, then redacted, with the number of findings.
-- `none` is a panic of the scan.
unfoldable pub stored_details : Text → Option Text
stored_details details =
    let sanitized = sanitize details in
    elim (sanitize_pii (codes "details") sanitized) [
      | none ↦ none
      | some (redacted, findings) ↦
          if is_empty findings
          then some redacted
          else some (
              truncate_utf8 (redacted ++ codes " pii_redacted=" ++ show (length findings))
                max_field_length)
    ]

module _ (sha256 : Text → Text) where
  unfoldable pub genesis_hash : Text
  genesis_hash = sha256 (codes "TrueTick-Genesis-v1")

  unfoldable pub compute_entry_hash : Text → ℕ → ℕ → Text → Text → Text
  compute_entry_hash prev_hash sequence timestamp_nanos name details =
      sha256
        (prev_hash ++ to_le_bytes 8 sequence ++ to_le_bytes 16 timestamp_nanos ++ name ++ details)

  unfoldable pub new_store : ℕ → DiagnosticStore
  new_store maximum_events = record {
    maximum_events = min (max maximum_events 2) hard_max_events;
    state = record {
      next_sequence = 1;
      next_operation_id = 1;
      events = [];
      truncation_recorded = false;
      last_entry_hash = genesis_hash;
      coalesced_details = none;
    };
  }

  -- The event that the state's sequence and last hash give.
  unfoldable pub next_event : StoreState → ℕ → DiagnosticRecord → Text → Text → DiagnosticEvent
  next_event s elapsed r name details = record {
    sequence = s.next_sequence;
    elapsed = elapsed;
    context = r.context;
    phase = r.phase;
    source = r.source;
    outcome = r.outcome;
    native = r.native;
    name = name;
    details = details;
    prev_hash = s.last_entry_hash;
    entry_hash = compute_entry_hash s.last_entry_hash s.next_sequence elapsed name details;
  }

  abbrev pub with_event : DiagnosticEvent → List DiagnosticEvent → StoreState → StoreState
  with_event e events s = record s {
    events = events;
    next_sequence = next_u64 s.next_sequence;
    last_entry_hash = e.entry_hash;
  }

  abbrev pub truncation_record : DiagnosticRecord → DiagnosticRecord
  truncation_record r = record {
    context = r.context;
    phase = DiagnosticPhase.complete;
    source = DiagnosticSource.diagnostic;
    outcome = DiagnosticOutcome.completed;
    native = no_native;
  }

  -- The marker of the first truncation, put in front of the events.
  unfoldable pub record_truncation : ℕ → ℕ → DiagnosticRecord → StoreState → StoreState
  record_truncation maximum elapsed r s =
      if s.truncation_recorded
      then s
      else let e =
          next_event s elapsed (truncation_record r) (codes "diagnostic.log_truncated")
            (codes "retaining newest " ++ show (maximum - 1) ++ codes " events") in
        record (with_event e (e ∷ s.events) s) { truncation_recorded = true }

  -- The events make room for one more: the oldest goes, behind the marker once there is one.
  abbrev pub drop_overflow : ℕ → StoreState → StoreState
  drop_overflow maximum s =
      if leb maximum (length s.events) then record s { events = remove 1 s.events } else s

  unfoldable pub make_room : ℕ → ℕ → DiagnosticRecord → StoreState → StoreState
  make_room maximum elapsed r s =
      if leb maximum (length s.events)
      then drop_overflow maximum (
          record_truncation maximum elapsed r
            (record s { events = remove (if s.truncation_recorded then 1 else 0) s.events }))
      else s

  unfoldable pub push_event : ℕ → DiagnosticRecord → Text → Text → StoreState → StoreState
  push_event elapsed r name details s =
      let e = next_event s elapsed r name details in with_event e (s.events ++ e ∷ []) s

  -- From the sanitized name and the details stored. `marked` and `elapsed` are the two readings of
  -- the clock.
  unfoldable pub record_event : ℕ → ℕ → ℕ → DiagnosticRecord → Text → Text → StoreState → StoreState
  record_event maximum marked elapsed r name details s =
      let fresh =
        push_event elapsed r name details
          (make_room maximum marked r (record s { coalesced_details = none })) in
      if bytes_eq name (codes "diagnostic.layout.error")
      then elim (coalesce_repeated_layout_event name details s) [ none ↦ fresh | some t ↦ t ]
      else fresh

  unfoldable pub record_with_context :
      ℕ → ℕ → DiagnosticRecord → Text → Text → DiagnosticStore → Option DiagnosticStore
  record_with_context marked elapsed r name details store =
      option_map
        (λ stored. record store {
          state =
              record_event store.maximum_events marked elapsed r (sanitize name) stored store.state;
        })
        (stored_details details)

  unfoldable pub record_with_outcome :
      ℕ → ℕ → Text → Text → DiagnosticOutcome → DiagnosticStore → Option DiagnosticStore
  record_with_outcome marked elapsed name details outcome store =
      let (context, s) = begin_operation DiagnosticSource.internal store.state in
      record_with_context marked elapsed
        (record {
          context = context;
          phase = phase_of name details;
          source = DiagnosticSource.internal;
          outcome = outcome;
          native = no_native;
        })
        name details (record store { state = s })

  unfoldable pub record_named : ℕ → ℕ → Text → Text → DiagnosticStore → Option DiagnosticStore
  record_named marked elapsed name details =
      record_with_outcome marked elapsed name details (derive_outcome name details)

  unfoldable pub record_verification :
      ℕ
      → ℕ
      → OperationContext
      → DiagnosticSource
      → DiagnosticOutcome
      → Text
      → Text
      → DiagnosticStore
      → Option DiagnosticStore
  record_verification marked elapsed context source outcome =
      record_with_context marked elapsed (record {
        context = context;
        phase = DiagnosticPhase.verify;
        source = source;
        outcome = outcome;
        native = no_native;
      })

-- Any calls of a store, from one state to another, and the names and details recorded, the newest
-- first; none is a layout error, which may change the last event instead.
pub data Recorded (sha256 : Text → Text)
    : List (Text × Text) → DiagnosticStore → DiagnosticStore → Type 0 where
  unchanged : {a : DiagnosticStore} → Recorded sha256 [] a a
  began :
      {inputs : List (Text × Text)} {a b : DiagnosticStore} (parent : Option OperationContext)
      → Recorded sha256 inputs a b
      → Recorded sha256 inputs a (record b { state = (allocate_operation parent b.state).1 })
  recorded :
      {inputs : List (Text × Text)} {a b c : DiagnosticStore} (marked elapsed : ℕ)
      (r : DiagnosticRecord) (name details : Text)
      → sanitize name ≢ codes "diagnostic.layout.error"
      → record_with_context sha256 marked elapsed r name details b ≡ some c
      → Recorded sha256 inputs a b
      → Recorded sha256 ((name, details) ∷ inputs) a c
