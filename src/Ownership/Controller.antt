-- ===== src/Ownership/Controller.antt =====
-- `TimerController` of crates/tick-ownership/src/lib.rs, over any `TimerPlatform`.
pub mod Steps
pub mod Invariant
pub mod Outcomes
pub mod Token
use true_tick.Base.{
  ℕ, ◌+◌, ◌-◌, Bool, true, false, not, ◌||◌, ◌&&◌, Option, none, some, Result, ok, err, Method,
  done, ltb, ◌==◌, if◌then◌else◌, min, ◌>>=◌, ◌>>◌,
}
use true_tick.Base.Int.{ℤ, pos}
use true_tick.Core.{Hns, CoreError}
use true_tick.Platform.{
  TimerPlatform, TimerQuery, TimerObservation, TimerError, KernelSettleProbe,
  KernelSettleProbeOutcome, restored, external_timing, unsupported, invalid_interval,
  invalid_state_transition, query_failed, request_failed, release_failed, postcondition_unverified,
  u32_max,
}
use true_tick.Ownership.{
  Ownership, OwnershipState, released, owned, uncertain, Transition, Verification, not_collected,
  verified, TimingSnapshot, new_ownership, apply, transition, mark_uncertain, or_else,
  invalidate_effective, verification_for_observation, SettleProbeStep, not_applicable, settled,
  resolved, external_client_confirmed, exhausted, settle_probe_no_change,
  settle_probe_budget_remaining, kernel_settle_high_resolution_threshold_hns,
  kernel_settle_probe_candidate_interval_hns,
}

pub record TimerController {ℓ} (P : Type ℓ) : Type ℓ where
  pub platform : P
  pub ownership : Ownership
  pub requested_interval : Hns
  pub selected_interval : Option Hns
  pub release_boundary : Option Hns
  pub verification : Verification
  pub observation : Option TimerObservation
  pub snapshot : TimingSnapshot

abbrev pub is_released : OwnershipState → Bool
is_released released = true
is_released owned = false
is_released uncertain = false

abbrev is_unverified : Verification → Bool
is_unverified Verification.unverified = true
is_unverified not_collected = false
is_unverified verified = false
is_unverified Verification.finer_than_requested = false

abbrev observed : Hns → TimerQuery → TimerObservation
observed interval q = record {
  requested = interval;
  reported_current = q.reported_current;
  raw_status = q.raw_status;
}

module _ {ℓ} {P : Type ℓ} where
  unfoldable pub new : P → Hns → TimerController P
  unfolding new_ownership
  new platform requested_interval = record {
    platform = platform;
    ownership = new_ownership;
    requested_interval = requested_interval;
    selected_interval = none;
    release_boundary = none;
    verification = not_collected;
    observation = none;
    snapshot = record {
      requested = none;
      selected = none;
      effective = none;
      minimum_interval = none;
      maximum_interval = none;
      raw_status = none;
    };
  }

  -- A call of the platform, with the controller around it.
  abbrev on_platform :
      {A : Type 0} → Method P A TimerError → Method (TimerController P) A TimerError
  on_platform m c = let (r, p) = m c.platform in (r, record c { platform = p })

  abbrev modify :
      (TimerController P → TimerController P) → Method (TimerController P) (Unit {0}) TimerError
  modify f c = (ok tt, f c)

  unfoldable pub record_query : Hns → Hns → ℤ → TimerController P → TimerController P
  record_query interval reported_current raw_status c = record c {
    observation = some (record {
      requested = interval;
      reported_current = reported_current;
      raw_status = raw_status;
    });
    snapshot = record (c.snapshot) {
      requested = some interval;
      effective = some reported_current;
      raw_status = some raw_status;
    };
  }

  unfoldable pub invalidate_query : TimerController P → TimerController P
  unfolding invalidate_effective
  invalidate_query c = record c { observation = none; snapshot = invalidate_effective c.snapshot }

  -- `match call { Ok(value) => value, Err(error) => { self.invalidate_query(); return Err(error); } }`
  abbrev or_invalidate :
      {A : Type 0}
      → Method (TimerController P) A TimerError
      → Method (TimerController P) A TimerError
  or_invalidate m c =
      let (r, c') = m c in elim r [ ok a ↦ (ok a, c') | err e ↦ (err e, invalidate_query c') ]

  -- The four snapshot fields that a query fills, then `record_query`.
  abbrev record_bounds : Option Hns → Hns → TimerQuery → TimerController P → TimerController P
  record_bounds selected interval q c =
      record_query interval q.reported_current q.raw_status (record c {
        snapshot = record (c.snapshot) {
          selected = selected;
          minimum_interval = some q.bounds.minimum_interval;
          maximum_interval = some q.bounds.maximum_interval;
        };
      })

  -- Raises the floor, and drops a selection that is finer.
  unfoldable pub clamp_requested_interval_floor : Hns → TimerController P → TimerController P
  clamp_requested_interval_floor floor c =
      let c' =
        (if ltb c.requested_interval floor then record c { requested_interval = floor } else c) in
      elim c.selected_interval [
        | some value ↦ if ltb value floor then record c' { selected_interval = none } else c'
        | none ↦ c'
      ]

  unfoldable pub clear_release_boundary : TimerController P → TimerController P
  clear_release_boundary c = record c {
    release_boundary = none;
    snapshot = record (c.snapshot) { selected = none };
  }

module _ {ℓ} {P : Type ℓ} (t : TimerPlatform P) where
  abbrev C : Type ℓ
  C = TimerController P

  unfoldable pub selected_for_query : Method C Hns TimerError
  selected_for_query c = elim c.release_boundary [
    | some interval ↦ (ok interval, c)
    | none ↦ elim c.selected_interval [
      | some interval ↦ (ok interval, c)
      | none ↦
          (do
            interval ← on_platform (t.resolve c.requested_interval)
            modify (λ c. record c { selected_interval = some interval })
            done (ok interval))
            c
    ]
  ]

  unfoldable pub query : Method C TimerObservation TimerError
  unfolding selected_for_query record_query invalidate_query or_else
  query = do
    interval ← or_invalidate selected_for_query
    q ← or_invalidate (on_platform (t.query interval))
    modify (λ c. record_bounds (or_else c.selected_interval c.release_boundary) interval q c)
    done (ok (observed interval q))

  abbrev is_boundary : Option Hns → Hns → Bool
  is_boundary (some b) boundary = b == boundary
  is_boundary none boundary = false

  unfoldable pub observe_current : Hns → Method C TimerObservation TimerError
  unfolding record_query invalidate_query
  observe_current boundary c =
      if is_boundary c.release_boundary boundary
      then (do
        q ← or_invalidate (on_platform (t.query boundary))
        modify (record_bounds (some boundary) boundary q)
        done (ok (observed boundary q)))
          c
      else (err invalid_interval, c)

  -- What `start` does when the request is refused.
  unfoldable pub request_refused : Hns → TimerError → C → C
  unfolding record_query mark_uncertain
  request_refused interval (postcondition_unverified raw_status reported_current) c =
      let c' =
        record_query interval reported_current raw_status
          (record c { snapshot = record (c.snapshot) { selected = some interval } }) in
      record c' { ownership = mark_uncertain c'.ownership; verification = Verification.unverified }
  request_refused interval e c = c

  abbrev request_or_refuse : Hns → Method C TimerObservation TimerError
  request_or_refuse interval c =
      let (r, c') = on_platform (t.request interval) c in
      elim r [ ok o ↦ (ok o, c') | err e ↦ (err e, request_refused interval e c') ]

  -- `self.ownership.apply(..).map_err(|_| InvalidStateTransition)?`
  abbrev apply_transition : Transition → Method C Bool TimerError
  apply_transition change c =
      let (r, o) = apply change c.ownership in
      elim r [
        | ok changed ↦ (ok changed, record c { ownership = o })
        | err e ↦ (err invalid_state_transition, record c { ownership = o })
      ]

  abbrev record_observation : Hns → TimerObservation → C → C
  record_observation interval o c =
      record_query o.requested o.reported_current o.raw_status
        (record c { snapshot = record (c.snapshot) { selected = some interval } })

  unfoldable pub acquire : Method C Verification TimerError
  unfolding record_query invalidate_query request_refused apply transition
      verification_for_observation
  acquire c =
      (do
        interval ← or_invalidate (on_platform (t.resolve c.requested_interval))
        modify (λ c. record c { selected_interval = some interval; release_boundary = none })
        q ← or_invalidate (on_platform (t.preflight interval))
        modify (record_bounds (some interval) interval q)
        o ← request_or_refuse interval
        modify (record_observation interval o)
        _ ← apply_transition Transition.acquire
        modify (λ c. record c { verification = verification_for_observation o })
        done (ok (verification_for_observation o)))
        c

  unfoldable pub start : Method C Verification TimerError
  unfolding acquire
  start c =
      if not (is_released c.ownership.state) || is_unverified c.verification
      then (ok c.verification, c)
      else acquire c

  abbrev release_or_unverify : Hns → Method C TimerObservation TimerError
  release_or_unverify interval c =
      let (r, c') = on_platform (t.release interval) c in
      elim r [
        | ok o ↦ (ok o, c')
        | err e ↦ (err e, record c' { verification = Verification.unverified })
      ]

  abbrev selected_or_invalid : Option Hns → Result Hns TimerError
  selected_or_invalid (some interval) = ok interval
  selected_or_invalid none = err invalid_interval

  unfoldable pub stop : Method C Bool TimerError
  unfolding record_query apply transition
  stop c =
      if is_released c.ownership.state
      then (ok false, c)
      else (do
        interval ← done (selected_or_invalid c.selected_interval)
        o ← release_or_unverify interval
        modify (record_observation interval o)
        _ ← apply_transition Transition.release
        modify (λ c. record c {
          verification = not_collected;
          release_boundary = some interval;
          selected_interval = none;
        })
        done (ok true))
          c

  -- The last `match` of the probe.
  classify_probe : ℕ → KernelSettleProbe → SettleProbeStep
  unfolding settle_probe_no_change
  classify_probe attempts_consumed probe = elim probe.outcome [
    | restored ↦
        if ltb probe.before_effective probe.after_effective
        then settled (resolved (probe.after_effective - probe.before_effective))
        else settle_probe_no_change attempts_consumed
    | external_timing ↦ settled external_client_confirmed
  ]

  abbrev probe_recorded : KernelSettleProbe → C → C
  probe_recorded probe c =
      let c' =
        record_query kernel_settle_probe_candidate_interval_hns probe.after_effective (pos 0) c in
      record c' { release_boundary = none; selected_interval = none }

  unfoldable pub probe_platform : ℕ → C → SettleProbeStep × C
  unfolding record_query settle_probe_no_change classify_probe
  probe_platform attempts_consumed c =
      let (r, c') =
        on_platform (t.attempt_kernel_settle_probe kernel_settle_probe_candidate_interval_hns) c in
      elim r [
        | ok probe ↦ (classify_probe attempts_consumed probe, probe_recorded probe c')
        | err e ↦ (settle_probe_no_change attempts_consumed, c')
      ]

  unfoldable pub attempt_startup_kernel_settle_probe : ℕ → C → SettleProbeStep × C
  unfolding probe_platform settle_probe_budget_remaining
  attempt_startup_kernel_settle_probe attempts_used c = elim c.snapshot.effective [
    | none ↦ (not_applicable, c)
    | some effective ↦
        if not (is_released c.ownership.state)
        then (not_applicable, c)
        else if ltb kernel_settle_high_resolution_threshold_hns effective
        then (settled external_client_confirmed, c)
        else if settle_probe_budget_remaining attempts_used == 0
        then (settled exhausted, c)
        else probe_platform (min (attempts_used + 1) u32_max) c
  ]
