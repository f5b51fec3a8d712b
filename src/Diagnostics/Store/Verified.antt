-- ===== src/Diagnostics/Store/Verified.antt =====
-- The snapshots of the diagnostic store (crates/tick-diagnostics/src/lib.rs) verify, however many
-- events have been dropped.
use true_tick.Base.{
  ℕ, zero, suc, ◌+◌, ◌-◌, ◌*◌, ◌<◌, ◌≤◌, ◌≡◌, ◌≢◌, refl, leb, if◌then◌else◌, List, [], ◌∷◌, ◌++◌,
  none, some, ok, All, All-append, length, arith, of_both, of_both_known, map_inv, subst,
}
use true_tick.Base.Pairs.{Pairwise, Pairwise-snoc, All-map}
use true_tick.Base.Bytes.{bytes_eq, eq_of_bytes_eq}
use true_tick.Base.Text.{Text, codes, show}
use true_tick.Diagnostics.{DiagnosticEvent, DiagnosticRecord, sanitize}
use true_tick.Diagnostics.State.{StoreState, DiagnosticStore, next_u64, u64_max, snapshot}
use true_tick.Diagnostics.Store.{
  remove, next_event, with_event, push_event, record_truncation, truncation_record, make_room,
  record_event, record_with_context, new_store, stored_details, Recorded, unchanged, began,
  recorded,
}
use true_tick.Diagnostics.Operations.{allocate_operation}
use true_tick.Diagnostics.Store.Chain.{
  IsGenuine, IsLinked, After, IsChain, verify_event_chain, verify_event_chain_iff,
}

module _ {ℓ κ} {A : Type ℓ} (P : A → Type κ) where
  All-remove : (i : ℕ) (xs : List A) → All P xs → All P (remove i xs)
  All-remove i [] h = tt
  All-remove zero (x ∷ xs) h = h.1
  All-remove (suc i) (x ∷ xs) h = (h.0, All-remove i xs h.1)

module _ {ℓ κ} {A : Type ℓ} (R : A → A → Type κ) where
  Pairwise-remove : (i : ℕ) (xs : List A) → Pairwise R xs → Pairwise R (remove i xs)
  Pairwise-remove i [] h = tt
  Pairwise-remove zero (x ∷ xs) h = h.1
  Pairwise-remove (suc i) (x ∷ xs) h = (All-remove (R x) i xs h.0, Pairwise-remove i xs h.1)

module _ (sha256 : Text → Text) where
  -- An event stands before the next sequence, and where it is the last before it, the next
  -- event's link is its hash.
  abbrev IsPast : ℕ → Text → DiagnosticEvent → Type 0
  IsPast next last e =
      (e.sequence < next) × (suc e.sequence ≡ next → e.entry_hash ≡ last) × IsGenuine sha256 e

  -- The events of a state, with the next sequence and the last hash.
  abbrev IsChained : ℕ → Text → List DiagnosticEvent → Type 0
  IsChained next last es = All (IsPast next last) es × Pairwise IsLinked es

  abbrev StateIsChained : StoreState → Type 0
  StateIsChained s = IsChained s.next_sequence s.last_entry_hash s.events

  After-chained :
      (next : ℕ) (last : Text) (p : DiagnosticEvent) (es : List DiagnosticEvent)
      → All (IsPast next last) es
      → Pairwise IsLinked (p ∷ es)
      → After sha256 p es
  After-chained next last p [] h k = tt
  After-chained next last p (e ∷ es) h k = (h.0.2, k.0.0, After-chained next last e es h.1 k.1)

  IsChained-IsChain :
      (next : ℕ) (last : Text) (es : List DiagnosticEvent)
      → IsChained next last es
      → IsChain sha256 es
  IsChained-IsChain next last [] h = tt
  IsChained-IsChain next last (e ∷ es) h = (h.0.0.2, After-chained next last e es h.0.1 h.1)

  chained_remove :
      (i : ℕ) (s : StoreState)
      → StateIsChained s
      → StateIsChained (record s { events = remove i s.events })
  chained_remove i s h = (
    All-remove (IsPast s.next_sequence s.last_entry_hash) i s.events h.0,
    Pairwise-remove IsLinked i s.events h.1,
  )

  -- Events that are past stay past when the sequence moves on.
  IsPast-next :
      (next : ℕ) (last hash : Text)
      → next < u64_max
      → (e : DiagnosticEvent) → IsPast next last e
      → IsPast (next_u64 next) hash e
  IsPast-next next last hash room e (before, link, genuine) =
      (omega arith, λ h. absurd (omega arith), genuine)

  module _ (elapsed : ℕ) (r : DiagnosticRecord) (name details : Text) (s : StoreState)
      (room : s.next_sequence < u64_max) where
    fresh-IsPast :
        IsPast
          (next_u64 s.next_sequence)
          (next_event sha256 s elapsed r name details).entry_hash
          (next_event sha256 s elapsed r name details)
    unfolding next_event IsGenuine
    fresh-IsPast = (omega arith, λ h. refl, refl)

    -- Every event is linked to the next one, and that one to none of them.
    IsLinked-next :
        (e : DiagnosticEvent)
        → IsPast s.next_sequence s.last_entry_hash e
        → IsLinked e (next_event sha256 s elapsed r name details)
    unfolding next_event
    IsLinked-next e (before, link, genuine) h = link (omega arith)

    unlinked :
        (e : DiagnosticEvent)
        → IsPast s.next_sequence s.last_entry_hash e
        → IsLinked (next_event sha256 s elapsed r name details) e
    unfolding next_event
    unlinked e (before, link, genuine) h = absurd (omega arith)

    push_chained : StateIsChained s → StateIsChained (push_event sha256 elapsed r name details s)
    unfolding push_event
    push_chained (past, links) =
        let e = next_event sha256 s elapsed r name details in
        let moved =
          All-map (IsPast s.next_sequence s.last_entry_hash)
            (IsPast (next_u64 s.next_sequence) e.entry_hash)
            (IsPast-next s.next_sequence s.last_entry_hash e.entry_hash room) s.events past in
        let linked =
          All-map (IsPast s.next_sequence s.last_entry_hash) (λ x. IsLinked x e) IsLinked-next
            s.events past in
        (
          All-append (IsPast (next_u64 s.next_sequence) e.entry_hash) s.events (e ∷ []) moved
              (fresh-IsPast, tt),
          Pairwise-snoc IsLinked s.events e links linked,
        )

    front_chained :
        StateIsChained s
        → StateIsChained (
            with_event sha256
              (next_event sha256 s elapsed r name details)
              (next_event sha256 s elapsed r name details ∷ s.events)
              s)
    front_chained (past, links) =
        let e = next_event sha256 s elapsed r name details in
        let moved =
          All-map (IsPast s.next_sequence s.last_entry_hash)
            (IsPast (next_u64 s.next_sequence) e.entry_hash)
            (IsPast-next s.next_sequence s.last_entry_hash e.entry_hash room) s.events past in
        let apart =
          All-map (IsPast s.next_sequence s.last_entry_hash) (IsLinked e) unlinked s.events past in
        ((fresh-IsPast, moved), (apart, links))

  -- What an operation keeps: the chain, and the sequence moves on by at most two.
  abbrev Kept : ℕ → StoreState → StoreState → Type 0
  Kept n s t = StateIsChained t × (t.next_sequence ≤ s.next_sequence + n)

  module _ (maximum elapsed : ℕ) (r : DiagnosticRecord) (s : StoreState)
      (room : suc s.next_sequence < u64_max) where
    truncation-Kept : StateIsChained s → Kept 1 s (record_truncation sha256 maximum elapsed r s)
    unfolding record_truncation
    truncation-Kept h =
        let name = codes "diagnostic.log_truncated" in
        let details = codes "retaining newest " ++ show (maximum - 1) ++ codes " events" in
        of_both (Kept 1 s) s.truncation_recorded (h, omega arith)
          (
            front_chained elapsed (truncation_record sha256 r) name details s (omega arith) h,
            omega arith,
          )

  removed-Kept :
      (i n : ℕ) (s t : StoreState) → Kept n s t → Kept n s (record t { events = remove i t.events })
  removed-Kept i n s t (h, bound) = (chained_remove i t h, bound)

  make_room-Kept :
      (maximum elapsed : ℕ) (r : DiagnosticRecord) (s : StoreState)
      → suc s.next_sequence < u64_max
      → StateIsChained s
      → Kept 1 s (make_room sha256 maximum elapsed r s)
  unfolding make_room
  make_room-Kept maximum elapsed r s room h =
      let i = if s.truncation_recorded then 1 else 0 in
      let u = record s { events = remove i s.events } in
      let t = record_truncation sha256 maximum elapsed r u in
      let kept = truncation-Kept maximum elapsed r u room (chained_remove i s h) in
      of_both (Kept 1 s) (leb maximum (length s.events))
        (of_both (Kept 1 s) (leb maximum (length t.events)) (removed-Kept 1 1 u t kept) kept)
        (h, omega arith)

  push-Kept :
      (elapsed : ℕ) (r : DiagnosticRecord) (name details : Text) (s t : StoreState)
      → suc s.next_sequence < u64_max
      → Kept 1 s t
      → Kept 2 s (push_event sha256 elapsed r name details t)
  unfolding push_event
  push-Kept elapsed r name details s t room (h, bound) =
      (push_chained elapsed r name details t (omega arith) h, omega arith)

  record_event-Kept :
      (maximum marked elapsed : ℕ) (r : DiagnosticRecord) (name details : Text) (s : StoreState)
      → name ≢ codes "diagnostic.layout.error"
      → suc s.next_sequence < u64_max
      → StateIsChained s
      → Kept 2 s (record_event sha256 maximum marked elapsed r name details s)
  unfolding record_event
  record_event-Kept maximum marked elapsed r name details s other room h =
      let u = record s { coalesced_details = none } in
      let roomy = make_room-Kept maximum marked r u room h in
      let fresh =
        push-Kept elapsed r name details u (make_room sha256 maximum marked r u) room roomy in
      of_both_known (Kept 2 s) (bytes_eq name (codes "diagnostic.layout.error"))
        (λ same. absurd (other (eq_of_bytes_eq name (codes "diagnostic.layout.error") same)))
        (λ _. fresh)

  recorded-Kept :
      (marked elapsed : ℕ) (r : DiagnosticRecord) (name details : Text) (b c : DiagnosticStore)
      → sanitize name ≢ codes "diagnostic.layout.error"
      → record_with_context sha256 marked elapsed r name details b ≡ some c
      → suc b.state.next_sequence < u64_max
      → StateIsChained b.state
      → Kept 2 b.state c.state
  unfolding record_with_context
  recorded-Kept marked elapsed r name details b c other given room h =
      let (stored, found, same) = map_inv _ (stored_details details) given in
      let kept =
        record_event-Kept b.maximum_events marked elapsed r (sanitize name) stored b.state other
          room h in
      subst (λ t. Kept 2 b.state t.state) same kept

  Recorded-chained :
      (inputs : List (Text × Text)) (a b : DiagnosticStore)
      → Recorded sha256 inputs a b
      → a.state.next_sequence + length inputs * 2 < u64_max
      → StateIsChained a.state
      → Kept (length inputs * 2) a.state b.state
  unfolding allocate_operation
  Recorded-chained inputs a b unchanged room h = (h, omega arith)
  Recorded-chained inputs a _ (began {b = b} parent before) room h =
      Recorded-chained inputs a b before room h
  Recorded-chained _ a c
        (recorded {inputs = inputs} {b = b} marked elapsed r name details other given before) room
        h =
      let (chained, bound) = Recorded-chained inputs a b before (omega arith) h in
      let (kept, more) =
        recorded-Kept marked elapsed r name details b c other given (omega arith) chained in
      (kept, omega arith)

  -- After any records that are no layout errors and any operations begun, fewer than 2 ^ 63 - 1
  -- records, the events of a new store verify, whatever the hash and however many events were
  -- dropped.
  pub verify_event_chain-Recorded :
      (maximum : ℕ) (inputs : List (Text × Text)) (b : DiagnosticStore)
      → Recorded sha256 inputs (new_store sha256 maximum) b
      → length inputs * 2 + 1 < u64_max
      → verify_event_chain sha256 (snapshot b) ≡ ok tt
  unfolding new_store
  verify_event_chain-Recorded maximum inputs b run room =
      (verify_event_chain_iff sha256 (snapshot b)).1 (
        IsChained-IsChain b.state.next_sequence b.state.last_entry_hash (snapshot b)
          (Recorded-chained inputs (new_store sha256 maximum) b run (omega arith) (tt, tt)).0)
