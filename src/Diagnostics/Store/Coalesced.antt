-- ===== src/Diagnostics/Store/Coalesced.antt =====
-- A repeated layout error changes the details of the last event but not its hash
-- (crates/tick-diagnostics/src/lib.rs).
use mathlib.Core.List.{append_cancel_left}
use true_tick.Base.{
  ◌≡◌, ◌≢◌, refl, List, [], ◌∷◌, ◌++◌, Option, some, ok, ap, sym, ◌∙◌, map_inv, subst, ◌⊎◌, inl,
  inr,
}
use true_tick.Base.Try.{Result-cases}
use true_tick.Base.Bytes.{to_le_bytes}
use true_tick.Base.Text.{Text}
use true_tick.Diagnostics.{DiagnosticEvent}
use true_tick.Diagnostics.State.{StoreState}
use true_tick.Diagnostics.Coalescing.{coalesce_events, coalesce_repeated_layout_event}
use true_tick.Diagnostics.Store.{compute_entry_hash}
use true_tick.Diagnostics.Store.Chain.{
  IsGenuine, After, IsChain, verify_event_chain, verify_event_chain_iff,
}

-- The last event has new details, and all else stays.
data Changed : Text → List DiagnosticEvent → List DiagnosticEvent → Type 0 where
  last_event :
      (next : Text) (e : DiagnosticEvent) → Changed next (e ∷ []) (record e { details = next } ∷ [])
  behind :
      {next : Text} {events changed : List DiagnosticEvent} (e : DiagnosticEvent)
      → Changed next events changed
      → Changed next (e ∷ events) (e ∷ changed)

coalesce_events-Changed :
    (marker : Option Text) (name details next : Text) (events changed : List DiagnosticEvent)
    → coalesce_events marker name details events ≡ some (next, changed)
    → Changed next events changed
unfolding coalesce_events
coalesce_events-Changed marker name details next [] changed h = cc
coalesce_events-Changed marker name details next (e ∷ []) changed h =
    let (next', found, same) = map_inv _ _ h in
    subst (λ p. Changed p.0 (e ∷ []) p.1) same (last_event next' e)
coalesce_events-Changed marker name details next (e ∷ f ∷ es) changed h =
    let ((next', changed'), found, same) =
      map_inv _ (coalesce_events marker name details (f ∷ es)) h in
    subst (λ p. Changed p.0 (e ∷ f ∷ es) p.1) same
      (behind e (coalesce_events-Changed marker name details next' (f ∷ es) changed' found))

-- The text whose hash is that of an event, were its details those given.
abbrev pub hashed : DiagnosticEvent → Text → Text
hashed e details =
    e.prev_hash ++ to_le_bytes 8 e.sequence ++ to_le_bytes 16 e.elapsed ++ e.name ++ details

-- The last event of a list has other details in the second, and all else is the same.
abbrev pub IsLastChanged :
    List DiagnosticEvent → List DiagnosticEvent → DiagnosticEvent → Text → Type 0
IsLastChanged events changed e next =
    (older : List DiagnosticEvent) × (events ≡ older ++ e ∷ [])
    × (changed ≡ older ++ record e { details = next } ∷ [])

module _ (sha256 : Text → Text) where
  IsCollision : DiagnosticEvent → Text → Type 0
  IsCollision e next = sha256 (hashed e next) ≡ sha256 (hashed e e.details)

  same_hash :
      (next : Text) (e : DiagnosticEvent)
      → IsGenuine sha256 e
      → IsGenuine sha256 (record e { details = next })
      → IsCollision e next
  unfolding IsGenuine compute_entry_hash IsCollision
  same_hash next e genuine changed = sym changed ∙ genuine

  -- The two lists, and the collision of the two last events where both lists verify.
  Found : List DiagnosticEvent → List DiagnosticEvent → Text → Type 0 → Type 0 → Type 0
  Found events changed next is_chain was_chain =
      (e : DiagnosticEvent) × IsLastChanged events changed e next
      × (was_chain → is_chain → IsCollision e next)

  found-behind :
      (next : Text) (q : DiagnosticEvent) (events changed : List DiagnosticEvent) (A B C D : Type 0)
      → (C → A)
      → (D → B)
      → Found events changed next A B
      → Found (q ∷ events) (q ∷ changed) next C D
  unfolding Found
  found-behind next q events changed A B C D f g (e, (older, was, now), collides) =
      (e, (q ∷ older, ap (λ t. q ∷ t) was, ap (λ t. q ∷ t) now), λ d c. collides (g d) (f c))

  After-Found :
      (next : Text) (p q : DiagnosticEvent) (events changed : List DiagnosticEvent)
      → Changed next events changed
      → Found events changed next (After sha256 q changed) (After sha256 p events)
  unfolding Found
  After-Found next p q _ _ (last_event _ e) = (e, ([], refl, refl), λ h k. same_hash next e h.0 k.0)
  After-Found next p q _ _ (behind {events = es} {changed = fs} e rest) =
      found-behind next e es fs _ _ _ _ (λ c. c.2) (λ d. d.2) (After-Found next e e es fs rest)

  IsChain-Found :
      (next : Text) (events changed : List DiagnosticEvent)
      → Changed next events changed
      → Found events changed next (IsChain sha256 changed) (IsChain sha256 events)
  unfolding Found
  IsChain-Found next _ _ (last_event _ e) = (e, ([], refl, refl), λ h k. same_hash next e h.0 k.0)
  IsChain-Found next _ _ (behind {events = es} {changed = fs} e rest) =
      found-behind next e es fs _ _ _ _ (λ c. c.1) (λ d. d.1) (After-Found next e e es fs rest)

  -- A repeated layout error that changes the events of a store that verifies gives its last event
  -- other details, and leaves events that do not verify, unless the text hashed for that event and
  -- the different text that its new details give have the same hash.
  pub verify_event_chain-coalesced :
      (name details : Text) (s t : StoreState)
      → verify_event_chain sha256 s.events ≡ ok tt
      → coalesce_repeated_layout_event name details s ≡ some t
      → t.events ≢ s.events
      → (e : DiagnosticEvent) × (next : Text) × IsLastChanged s.events t.events e next
        × (hashed e next ≢ hashed e e.details)
        × ((verify_event_chain sha256 t.events ≢ ok tt)
            ⊎ (sha256 (hashed e next) ≡ sha256 (hashed e e.details)))
  unfolding coalesce_repeated_layout_event Found IsCollision
  verify_event_chain-coalesced name details s t verified repeated differs =
      let ((next, changed), found, same) =
        map_inv _ (coalesce_events s.coalesced_details name details s.events) repeated in
      let same_events : changed ≡ t.events = ap (λ u. u.events) same in
      let (e, (older, was, now), collides) =
        IsChain-Found next s.events changed
          (coalesce_events-Changed s.coalesced_details name details next s.events changed found) in
      (
        e,
        next,
        (older, was, sym same_events ∙ now),
        λ texts. differs (
            sym same_events
            ∙ now
            ∙ ap (λ d. older ++ record e { details = d } ∷ [])
                (append_cancel_left
                  (e.prev_hash ++ to_le_bytes 8 e.sequence ++ to_le_bytes 16 e.elapsed ++ e.name)
                  next e.details texts)
            ∙ sym was),
        elim (Result-cases (verify_event_chain sha256 t.events)) [
          | inr (x, refused) ↦ inl (λ accepted. cc)
          | inl (u, accepted) ↦ inr (
              collides ((verify_event_chain_iff sha256 s.events).0 verified) (
                subst (IsChain sha256) (sym same_events)
                  ((verify_event_chain_iff sha256 t.events).0 accepted)))
        ],
      )
