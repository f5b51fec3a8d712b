-- ===== src/Pause/Coordinator.antt =====
-- Which timer messages the coordinator of apps/true-tick/src/pause.rs acts on.
use true_tick.Base.{
  ℕ, ◌+◌, ◌-◌, ◌≤◌, ◌<◌, ◌≡◌, ◌≢◌, ◌⊎◌, inl, inr, refl, some, arith, Option-cases, min, ◌*◌,
  Bool-cases, ◌==◌,
}
use true_tick.Pause.{
  DurationAction, DurationPreset, ScheduledAction, DurationCoordinator, schedule, cancel,
  timer_event, expired, early, stale, remaining, new_coordinator, next_generation,
}

pub data Call : DurationCoordinator → DurationCoordinator → Type 0 where
  scheduling :
      {c : DurationCoordinator} (action : DurationAction) (duration : DurationPreset) (now : ℕ)
      → Call c (schedule action duration now c).1
  cancelling : {c : DurationCoordinator} → Call c (cancel c).1

pub data Calls : DurationCoordinator → DurationCoordinator → Type 0 where
  nothing : {c : DurationCoordinator} → Calls c c
  call : {c d e : DurationCoordinator} → Call c d → Calls d e → Calls c e

-- The action is the latest, and its generation has not been given out since.
unfoldable pub IsCurrent : DurationCoordinator → Type 0
IsCurrent c =
    (c.generation ≤ 18446744073709551615)
    × ((a : ScheduledAction) → c.scheduled ≡ some a → a.generation ≡ c.generation)

current_generation :
    {c : DurationCoordinator}
    → IsCurrent c
    → (a : ScheduledAction) → c.scheduled ≡ some a
    → a.generation ≡ c.generation
unfolding IsCurrent
current_generation h = h.1

Call-IsCurrent : {c d : DurationCoordinator} → Call c d → IsCurrent c → IsCurrent d
unfolding IsCurrent schedule cancel
Call-IsCurrent (scheduling action duration now) h = (omega arith, λ a e. ground arith)
Call-IsCurrent (cancelling {c = c}) h = elim (Option-cases c.scheduled) [
  | inl e ↦ rw e (h.0, λ a q. cc)
  | inr (a, e) ↦ rw e (omega (arith, h.0), λ b q. cc)
]

Call-generation : {c d : DurationCoordinator} → IsCurrent c → Call c d → c.generation ≤ d.generation
unfolding IsCurrent schedule cancel
Call-generation h (scheduling action duration now) = omega (arith, h.0)
Call-generation h (cancelling {c = c}) = elim (Option-cases c.scheduled) [
  | inl e ↦ rw e (omega arith)
  | inr (a, e) ↦ rw e (omega (arith, h.0))
]

Calls-generation :
    {c d : DurationCoordinator} → IsCurrent c → Calls c d → c.generation ≤ d.generation
Calls-generation h nothing = omega arith
Calls-generation h (call step rest) =
    omega (arith, Call-generation h step, Calls-generation (Call-IsCurrent step h) rest)

-- A call on a coordinator with an action gives a new generation.
supersede :
    {c d : DurationCoordinator} (a : ScheduledAction)
    → c.scheduled ≡ some a
    → c.generation < 18446744073709551615
    → Call c d
    → c.generation < d.generation
unfolding schedule cancel
supersede a e small (scheduling action duration now) = omega arith
supersede a e small cancelling = rw e (omega arith)

timer_event-other :
    (c : DurationCoordinator) (generation now : ℕ)
    → generation ≢ c.generation
    → timer_event c generation now ≡ stale
unfolding timer_event
timer_event-other c generation now other = elim (Option-cases c.scheduled) [
  | inl e ↦ rw e
  | inr (a, e) ↦ rw e (ground arith)
]

Calls-IsCurrent : {c d : DurationCoordinator} → Calls c d → IsCurrent c → IsCurrent d
Calls-IsCurrent nothing h = h
Calls-IsCurrent (call step rest) h = Calls-IsCurrent rest (Call-IsCurrent step h)

new_coordinator-IsCurrent : IsCurrent new_coordinator
unfolding IsCurrent new_coordinator
new_coordinator-IsCurrent = (omega arith, λ a e. cc)

-- Once an action is scheduled over or cancelled, its timer messages are stale for good: after any
-- further calls, at any instant, as long as the generation had not reached the greatest u64.
pub timer_event-superseded :
    {c d e : DurationCoordinator} (a : ScheduledAction) (now : ℕ)
    → Calls new_coordinator c
    → c.scheduled ≡ some a
    → c.generation < 18446744073709551615
    → Call c d
    → Calls d e
    → timer_event e a.generation now ≡ stale
timer_event-superseded {c = c} {e = e} a now before q small step rest =
    let h = Calls-IsCurrent before new_coordinator-IsCurrent in
    let same : a.generation ≡ c.generation = current_generation h a q in
    timer_event-other e a.generation now (λ g. absurd (
      omega (arith, same, supersede a q small step, Calls-generation (Call-IsCurrent step h) rest)))

-- After an action is scheduled, a timer message of another generation is stale, and one of its own
-- expires the action exactly from its deadline on, the preset after the call and at most a day,
-- and before that is early with the time left.
pub timer_event-schedule :
    (action : DurationAction) (duration : DurationPreset) (scheduled_at now generation : ℕ)
    (c : DurationCoordinator)
    → let d = (schedule action duration scheduled_at c).1 in
      ((generation ≢ d.generation) × (timer_event d generation now ≡ stale))
      ⊎ ((a : ScheduledAction) × (d.scheduled ≡ some a)
          × (a.action ≡ action)
          × (a.deadline ≡ scheduled_at + min duration 86400 * 1000000000)
          × (generation ≡ d.generation)
          × (((a.deadline ≤ now) × (timer_event d generation now ≡ expired a))
              ⊎ ((now < a.deadline)
                  × (timer_event d generation now ≡ early action generation (a.deadline - now)))))
unfolding schedule timer_event remaining
timer_event-schedule action duration scheduled_at now generation c =
    let next = next_generation c.generation in
    let a : ScheduledAction = record {
      action = action;
      duration = duration;
      deadline = scheduled_at + min (duration * 1000000000) 86400000000000;
      generation = next;
    } in
    elim (Bool-cases (generation == next)) [
      | inl e ↦
          let same : generation ≡ next = ground (arith, e) in
          inr (
            a,
            refl,
            refl,
            omega arith,
            same,
            elim (Bool-cases (a.deadline - now == 0)) [
              | inl z ↦ inl (ground (arith, z), rw (e, z))
              | inr z ↦ inr (ground (arith, z), rw (e, z))
            ],
          )
      | inr e ↦ inl (λ q. ground (arith, e), rw e)
    ]
