-- ===== src/App/Power.antt =====
-- apps/true-tick/src/tray_surface.rs and tray/power.rs: what a change of power leads to, and the
-- bounded wait for the kernel after a release.
use true_tick.Base.{
  ℕ, suc, ◌+◌, ◌≤◌, ◌<◌, ◌≡◌, ◌↔◌, ◌⊎◌, inl, inr, refl, Bool, true, false, ◌&&◌, not, List, [], ◌∷◌,
  Option, none, some, leb, min, if◌then◌else◌, arith, length, Bool-cases,
}
use true_tick.Core.{Hns}
use true_tick.Ownership.Controller.{is_released}
use true_tick.Ownership.{OwnershipState, released, owned, uncertain}
use true_tick.App.Quit.{TrayStatus}
use true_tick.Policy.{PowerState, ac, battery, battery_saver, unknown, decide, decide_power}
use true_tick.Pause.{acquisition_is_allowed}

pub data PowerReconciliation : Type 0 where
  acquire release_blocked show_stopped preserve_owned preserve_uncertain : PowerReconciliation

abbrev is_ac : PowerState → Bool
is_ac ac = true
is_ac battery = false
is_ac battery_saver = false
is_ac unknown = false

-- On line power, or on battery power without the lockout, by the ownership.
unfoldable pub reconcile_by_ownership : Bool → OwnershipState → PowerReconciliation
reconcile_by_ownership automatic owned = preserve_owned
reconcile_by_ownership automatic uncertain = preserve_uncertain
reconcile_by_ownership automatic released = if automatic then acquire else show_stopped

unfoldable pub power_reconciliation :
    Bool → PowerState → OwnershipState → Bool → PowerReconciliation
power_reconciliation automatic ac ownership battery_lockout =
    reconcile_by_ownership automatic ownership
power_reconciliation automatic battery ownership battery_lockout =
    if not battery_lockout then reconcile_by_ownership automatic ownership else release_blocked
power_reconciliation automatic battery_saver ownership battery_lockout =
    if not battery_lockout then reconcile_by_ownership automatic ownership else release_blocked
power_reconciliation automatic unknown ownership battery_lockout = release_blocked

unfoldable pub uncertain_recovery_attempts_acquire : Bool → PowerState → Bool
uncertain_recovery_attempts_acquire automatic power = automatic && is_ac power

unfoldable pub resume_on_ac_applies : Bool → Bool → PowerState → OwnershipState → Bool
resume_on_ac_applies auto_resume pending power ownership =
    auto_resume && pending && is_ac power && is_released ownership

unfoldable pub release_needs_handoff : Hns → Option Hns → Bool
release_needs_handoff boundary none = false
release_needs_handoff boundary (some value) = not (leb boundary value)

abbrev pub handoff_max_polls : ℕ
handoff_max_polls = 12

pub data HandoffProgress : Type 0 where
  pending completed timed_out : HandoffProgress

pub record HandoffTracker : Type 0 where
  pub boundary : Hns
  pub released_status : TrayStatus
  pub polls : ℕ
  pub max_polls : ℕ

unfoldable pub new_tracker : Hns → TrayStatus → HandoffTracker
new_tracker boundary shown = record {
  boundary = boundary;
  released_status = shown;
  polls = 0;
  max_polls = handoff_max_polls;
}

unfoldable pub reaches : Hns → Option Hns → Bool
reaches boundary none = false
reaches boundary (some value) = leb boundary value

-- `polls` is a `u8`.
unfoldable pub observe : Option Hns → HandoffTracker → HandoffProgress × HandoffTracker
observe effective t =
    if reaches t.boundary effective
    then (completed, t)
    else (let polls = min (t.polls + 1) 255 in
        (
          if leb t.max_polls polls then timed_out else pending,
          record {
            boundary = t.boundary;
            released_status = t.released_status;
            polls = polls;
            max_polls = t.max_polls;
          },
        ))

-- After a change of power an acquisition is chosen exactly when the ownership is released and the
-- acquisition test, without a pause, allows one.
pub power_reconciliation-acquire_iff :
    (automatic : Bool) (power : PowerState) (ownership : OwnershipState) (lockout : Bool)
    → (power_reconciliation automatic power ownership lockout ≡ acquire)
      ↔ ((ownership ≡ released) × (acquisition_is_allowed false automatic power lockout ≡ true))
unfolding power_reconciliation reconcile_by_ownership acquisition_is_allowed decide decide_power
power_reconciliation-acquire_iff true ac released lockout = (λ h. (refl, refl), λ h. refl)
power_reconciliation-acquire_iff false ac released lockout = (λ h. cc, λ (_, e). cc)
power_reconciliation-acquire_iff automatic ac owned lockout = (λ h. cc, λ (e, _). cc)
power_reconciliation-acquire_iff automatic ac uncertain lockout = (λ h. cc, λ (e, _). cc)
power_reconciliation-acquire_iff true battery released false = (λ h. (refl, refl), λ h. refl)
power_reconciliation-acquire_iff false battery released false = (λ h. cc, λ (_, e). cc)
power_reconciliation-acquire_iff automatic battery owned false = (λ h. cc, λ (e, _). cc)
power_reconciliation-acquire_iff automatic battery uncertain false = (λ h. cc, λ (e, _). cc)
power_reconciliation-acquire_iff true battery ownership true = (λ h. cc, λ (_, e). cc)
power_reconciliation-acquire_iff false battery ownership true = (λ h. cc, λ (_, e). cc)
power_reconciliation-acquire_iff true battery_saver released false = (λ h. (refl, refl), λ h. refl)
power_reconciliation-acquire_iff false battery_saver released false = (λ h. cc, λ (_, e). cc)
power_reconciliation-acquire_iff automatic battery_saver owned false = (λ h. cc, λ (e, _). cc)
power_reconciliation-acquire_iff automatic battery_saver uncertain false = (λ h. cc, λ (e, _). cc)
power_reconciliation-acquire_iff true battery_saver ownership true = (λ h. cc, λ (_, e). cc)
power_reconciliation-acquire_iff false battery_saver ownership true = (λ h. cc, λ (_, e). cc)
power_reconciliation-acquire_iff true unknown ownership lockout = (λ h. cc, λ (_, e). cc)
power_reconciliation-acquire_iff false unknown ownership lockout = (λ h. cc, λ (_, e). cc)

-- The ticks of the handoff timer of tray/tier.rs, one reading each, until a poll completes or times
-- out, where its handler stops the timer: what ends the wait and how many polls were made.
unfoldable pub after_poll : HandoffProgress → HandoffProgress × ℕ → HandoffProgress × ℕ
after_poll pending (final, more) = (final, suc more)
after_poll completed rest = (completed, 1)
after_poll timed_out rest = (timed_out, 1)

unfoldable pub wait_for_handoff : List (Option Hns) → HandoffTracker → HandoffProgress × ℕ
wait_for_handoff [] t = (pending, 0)
wait_for_handoff (effective ∷ readings) t =
    after_poll (observe effective t).0 (wait_for_handoff readings (observe effective t).1)

wait-bounded :
    (readings : List (Option Hns)) (boundary : ℕ) (shown : TrayStatus) (polls : ℕ)
    → polls < handoff_max_polls
    → let (final, made) = wait_for_handoff readings (record {
      boundary = boundary;
      released_status = shown;
      polls = polls;
      max_polls = handoff_max_polls;
    }) in
      (made + polls ≤ handoff_max_polls)
      × ((made ≡ length readings) ⊎ ((final ≡ completed) ⊎ (final ≡ timed_out)))
      × ((final ≡ pending) → made + polls < handoff_max_polls)
unfolding wait_for_handoff observe after_poll
wait-bounded [] boundary shown polls h = (omega arith, inl refl, λ e. omega arith)
wait-bounded (effective ∷ readings) boundary shown polls h =
    let next = min (polls + 1) 255 in
    let sum : next ≡ polls + 1 = omega arith in
    elim (Bool-cases (reaches boundary effective)) [
      | inl e ↦ rw e (omega arith, inr (inl refl), λ q. cc)
      | inr e ↦ elim (Bool-cases (leb handoff_max_polls next)) [
        | inl f ↦ rw (e, f) (omega arith, inr (inr refl), λ q. cc)
        | inr f ↦
            let room : next < handoff_max_polls = ground (arith, f) in
            let (bound, ends, waits) = wait-bounded readings boundary shown next room in
            rw (e, f)
              (
                omega (arith, bound, sum),
                elim ends [ inl q ↦ inl (omega (arith, q)) | inr q ↦ inr q ],
                λ q. omega (arith, waits q, sum),
              )
      ]
    ]

progress-cases : (p : HandoffProgress) → (p ≡ pending) ⊎ ((p ≡ completed) ⊎ (p ≡ timed_out))
progress-cases pending = inl refl
progress-cases completed = inr (inl refl)
progress-cases timed_out = inr (inr refl)

-- The wait for the kernel after a release makes at most twelve polls, and twelve readings are
-- enough for it to complete or to time out.
pub wait_for_handoff_bounded :
    (readings : List (Option Hns)) (boundary : Hns) (shown : TrayStatus)
    → ((wait_for_handoff readings (new_tracker boundary shown)).1 ≤ handoff_max_polls)
      × (handoff_max_polls ≤ length readings
          → ((wait_for_handoff readings (new_tracker boundary shown)).0 ≡ completed)
            ⊎ ((wait_for_handoff readings (new_tracker boundary shown)).0 ≡ timed_out))
unfolding new_tracker
wait_for_handoff_bounded readings boundary shown =
    let (bound, ends, waits) = wait-bounded readings boundary shown 0 (omega arith) in
    (
      omega (arith, bound),
      λ long. elim ends [
        | inr ended ↦ ended
        | inl all ↦
            elim (progress-cases (wait_for_handoff readings (new_tracker boundary shown)).0) [
              | inr ended ↦ ended
              | inl still ↦ absurd (omega (arith, waits still, all, long))
            ]
      ],
    )
