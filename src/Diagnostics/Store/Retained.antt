-- ===== src/Diagnostics/Store/Retained.antt =====
-- What the diagnostic store (crates/tick-diagnostics/src/lib.rs) keeps: the whole log, or a marker
-- and the newest events.
use mathlib.Core.List.{append_assoc}
use true_tick.Base.{
  ℕ, suc, ◌<◌, ◌≤◌, ◌≡◌, ◌≢◌, refl, leb, Bool, true, false, List, [], ◌∷◌, ◌++◌, Option, none, some,
  length, length-append, arith, sym, min, max, map_inv, subst, of_both_known, leb-false, leb-true,
}
use true_tick.Base.Bytes.{bytes_eq, eq_of_bytes_eq}
use true_tick.Base.Text.{Text, codes}
use true_tick.Diagnostics.{DiagnosticEvent, DiagnosticRecord, sanitize, hard_max_events}
use true_tick.Diagnostics.State.{StoreState, DiagnosticStore, snapshot}
use true_tick.Diagnostics.Store.{
  next_event, push_event, record_truncation, make_room, record_event, record_with_context,
  new_store, stored_details, Recorded, unchanged, began, recorded,
}
use true_tick.Diagnostics.Operations.{allocate_operation}

-- The events kept of a log, at most `maximum`, and whether the truncation was recorded.
pub data Retained (maximum : ℕ) : List DiagnosticEvent → List DiagnosticEvent → Bool → Type 0 where
  whole : {log : List DiagnosticEvent} → length log ≤ maximum → Retained maximum log log false
  newest :
      (marker : DiagnosticEvent) (dropped : List DiagnosticEvent) {rest : List DiagnosticEvent}
      → marker.name ≡ codes "diagnostic.log_truncated"
      → 0 < length dropped
      → suc (length rest) ≡ maximum
      → Retained maximum (dropped ++ rest) (marker ∷ rest) true

-- The same with room for one more event.
data Roomy (maximum : ℕ) : List DiagnosticEvent → List DiagnosticEvent → Bool → Type 0 where
  spare : {log : List DiagnosticEvent} → length log < maximum → Roomy maximum log log false
  behind :
      (marker : DiagnosticEvent) (dropped : List DiagnosticEvent) {rest : List DiagnosticEvent}
      → marker.name ≡ codes "diagnostic.log_truncated"
      → 0 < length dropped
      → suc (suc (length rest)) ≡ maximum
      → Roomy maximum (dropped ++ rest) (marker ∷ rest) true

Roomy-push :
    (maximum : ℕ) (log events : List DiagnosticEvent) (flag : Bool) (e : DiagnosticEvent)
    → Roomy maximum log events flag
    → Retained maximum (log ++ e ∷ []) (events ++ e ∷ []) flag
Roomy-push maximum log _ _ e (spare room) = whole (omega (arith, length-append log (e ∷ [])))
Roomy-push maximum _ _ _ e (behind marker dropped {rest = rest} named some_dropped room) =
    subst (λ l. Retained maximum l (marker ∷ rest ++ e ∷ []) true)
      (sym (append_assoc dropped rest (e ∷ [])))
      (newest marker dropped named some_dropped (omega (arith, length-append rest (e ∷ []))))

module _ (sha256 : Text → Text) (maximum : ℕ) (at_least_two : 2 ≤ maximum) where
  abbrev StateIsRoomy : List DiagnosticEvent → StoreState → Type 0
  StateIsRoomy log s = Roomy maximum log s.events s.truncation_recorded

  abbrev StateIsRetained : List DiagnosticEvent → StoreState → Type 0
  StateIsRetained log s = Retained maximum log s.events s.truncation_recorded

  roomy :
      (elapsed : ℕ) (r : DiagnosticRecord) (log events : List DiagnosticEvent) (flag : Bool)
      (next_sequence next_operation_id : ℕ) (last_entry_hash : Text)
      (coalesced_details : Option Text)
      → Retained maximum log events flag
      → StateIsRoomy log (
          make_room sha256 maximum elapsed r (record {
            next_sequence = next_sequence;
            next_operation_id = next_operation_id;
            events = events;
            truncation_recorded = flag;
            last_entry_hash = last_entry_hash;
            coalesced_details = coalesced_details;
          }))
  unfolding make_room record_truncation next_event
  roomy elapsed r [] _ _ n o l c (whole bound) =
      of_both_known (StateIsRoomy []) (leb maximum 0)
        (λ full. absurd (omega (arith, leb-true maximum 0 full))) (λ _. spare (omega arith))
  roomy elapsed r (x ∷ []) _ _ n o l c (whole bound) =
      of_both_known (StateIsRoomy (x ∷ [])) (leb maximum 1)
        (λ full. absurd (omega (arith, leb-true maximum 1 full))) (λ _. spare (omega arith))
  roomy elapsed r (x ∷ y ∷ rest) _ _ n o l c (whole bound) =
      of_both_known (StateIsRoomy (x ∷ y ∷ rest)) (leb maximum (length (x ∷ y ∷ rest)))
        (λ full.
          let size = leb-true maximum (length (x ∷ y ∷ rest)) full in
          of_both_known (StateIsRoomy (x ∷ y ∷ rest)) (leb maximum (length (x ∷ y ∷ rest)))
            (λ _. behind _ (x ∷ y ∷ []) refl (omega arith) (omega arith))
            (λ room. absurd (omega (arith, leb-false maximum (length (x ∷ y ∷ rest)) room))))
        (λ room. spare (leb-false maximum (length (x ∷ y ∷ rest)) room))
  roomy elapsed r _ _ _ n o l c (newest marker dropped {rest = []} named some_dropped size) =
      absurd (omega arith)
  roomy elapsed r _ _ _ n o l c (newest marker dropped {rest = z ∷ rest} named some_dropped size) =
      let log = dropped ++ z ∷ rest in
      of_both_known (StateIsRoomy log) (leb maximum (length (marker ∷ z ∷ rest)))
        (λ _.
          of_both_known (StateIsRoomy log) (leb maximum (length (marker ∷ rest)))
            (λ full. absurd (omega (arith, leb-true maximum (length (marker ∷ rest)) full)))
            (λ _.
              subst (λ l. Roomy maximum l (marker ∷ rest) true) (append_assoc dropped (z ∷ []) rest)
                (behind marker (dropped ++ z ∷ []) named
                  (omega (arith, length-append dropped (z ∷ []))) (omega arith))))
        (λ room. absurd (omega (arith, leb-false maximum (length (marker ∷ z ∷ rest)) room)))

  -- What a record adds to the log: an event with this name and these details.
  abbrev Added : Text → Text → List DiagnosticEvent → StoreState → Type 0
  Added name details log t =
      (e : DiagnosticEvent) × (e.name ≡ name)
      × (e.details ≡ details)
      × StateIsRetained (log ++ e ∷ []) t

  push_retained :
      (elapsed : ℕ) (r : DiagnosticRecord) (name details : Text) (log : List DiagnosticEvent)
      (t : StoreState)
      → StateIsRoomy log t
      → Added name details log (push_event sha256 elapsed r name details t)
  unfolding push_event next_event
  push_retained elapsed r name details log t h = (
    next_event sha256 t elapsed r name details,
    refl,
    refl,
    Roomy-push maximum log t.events t.truncation_recorded
        (next_event sha256 t elapsed r name details) h,
  )

  record_retained :
      (marked elapsed : ℕ) (r : DiagnosticRecord) (name details : Text) (log : List DiagnosticEvent)
      (s : StoreState)
      → name ≢ codes "diagnostic.layout.error"
      → StateIsRetained log s
      → Added name details log (record_event sha256 maximum marked elapsed r name details s)
  unfolding record_event
  record_retained marked elapsed r name details log s other h =
      let room =
        roomy marked r log s.events s.truncation_recorded s.next_sequence s.next_operation_id
          s.last_entry_hash none h in
      of_both_known (Added name details log) (bytes_eq name (codes "diagnostic.layout.error"))
        (λ same. absurd (other (eq_of_bytes_eq name (codes "diagnostic.layout.error") same)))
        (λ _. push_retained elapsed r name details log _ room)

-- The log of the texts recorded, the newest first: each as it is stored.
pub data Logged : List (Text × Text) → List DiagnosticEvent → Type 0 where
  no_events : Logged [] []
  one_more :
      {inputs : List (Text × Text)} {log : List DiagnosticEvent} (name details : Text)
      (e : DiagnosticEvent)
      → e.name ≡ sanitize name
      → stored_details details ≡ some e.details
      → Logged inputs log
      → Logged ((name, details) ∷ inputs) (log ++ e ∷ [])

module _ (sha256 : Text → Text) where
  Holds : ℕ → List (Text × Text) → DiagnosticStore → Type 0
  Holds capacity inputs b =
      (log : List DiagnosticEvent) × Logged inputs log
      × (b.maximum_events ≡ capacity)
      × Retained b.maximum_events log (snapshot b) b.state.truncation_recorded

  recorded_retained :
      (capacity : ℕ) (inputs : List (Text × Text)) (a b : DiagnosticStore)
      → 2 ≤ capacity
      → Recorded sha256 inputs a b
      → Holds capacity [] a
      → Holds capacity inputs b
  unfolding Holds allocate_operation record_with_context
  recorded_retained capacity inputs a b two unchanged h = h
  recorded_retained capacity inputs a _ two (began {b = b} parent before) h =
      recorded_retained capacity inputs a b two before h
  recorded_retained capacity _ a c two
        (recorded {inputs = inputs} {b = b} marked elapsed r name details other given before) h =
      let (log, logged, fixed, kept) = recorded_retained capacity inputs a b two before h in
      let (stored, found, same) = map_inv _ (stored_details details) given in
      let (e, named, detailed, more) =
        record_retained sha256 b.maximum_events (omega arith) marked elapsed r (sanitize name)
          stored log b.state other kept in
      subst (Holds capacity ((name, details) ∷ inputs)) same
        (log ++ e ∷ [], one_more name details e named (rw detailed found) logged, fixed, more)

  -- After any records that are no layout errors, the events of a new store are those of the log of
  -- all records, each with its sanitized name and stored details, while these fit the capacity,
  -- and else a truncation marker and the newest of them, one fewer than the capacity.
  pub snapshot-Retained :
      (maximum : ℕ) (inputs : List (Text × Text)) (b : DiagnosticStore)
      → Recorded sha256 inputs (new_store sha256 maximum) b
      → (log : List DiagnosticEvent) × Logged inputs log
        × Retained
            (min (max maximum 2) hard_max_events)
            log
            (snapshot b)
            b.state.truncation_recorded
  unfolding new_store Holds
  snapshot-Retained maximum inputs b run =
      let capacity = min (max maximum 2) hard_max_events in
      let (log, logged, fixed, kept) =
        recorded_retained capacity inputs (new_store sha256 maximum) b (omega arith) run
          ([], no_events, refl, whole (omega arith)) in
      (log, logged, subst (λ n. Retained n log (snapshot b) b.state.truncation_recorded) fixed kept)
