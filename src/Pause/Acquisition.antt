-- ===== src/Pause/Acquisition.antt =====
-- When apps/true-tick/src/pause.rs lets a request start, and how long its timer waits.
use true_tick.Base.{ℕ, ◌+◌, ◌*◌, ◌≤◌, ◌<◌, ◌≡◌, ◌↔◌, refl, Bool, true, false, arith}
use true_tick.Policy.{PowerState, ac, battery, battery_saver, unknown, decide, decide_power}
use true_tick.Policy.Decisions.{IsUnrestricted}
use true_tick.Pause.{acquisition_is_allowed, timer_interval_ms}

-- An acquisition is allowed exactly when no pause is active, the mode is automatic, and the power
-- is on line, or a battery state with the lockout off.
pub acquisition_is_allowed_iff :
    (paused automatic : Bool) (power : PowerState) (lockout : Bool)
    → (acquisition_is_allowed paused automatic power lockout ≡ true)
      ↔ ((paused ≡ false) × (automatic ≡ true) × IsUnrestricted power lockout)
unfolding acquisition_is_allowed decide decide_power IsUnrestricted
acquisition_is_allowed_iff true automatic power lockout = (λ h. cc, λ (e, _, _). cc)
acquisition_is_allowed_iff false false power lockout = (λ h. cc, λ (_, e, _). cc)
acquisition_is_allowed_iff false true ac lockout = (λ h. (refl, refl, tt), λ h. refl)
acquisition_is_allowed_iff false true battery true = (λ h. cc, λ (_, _, e). cc)
acquisition_is_allowed_iff false true battery false = (λ h. (refl, refl, refl), λ h. refl)
acquisition_is_allowed_iff false true battery_saver true = (λ h. cc, λ (_, _, e). cc)
acquisition_is_allowed_iff false true battery_saver false = (λ h. (refl, refl, refl), λ h. refl)
acquisition_is_allowed_iff false true unknown lockout = (λ h. cc, λ (_, _, e). cc)

timer_interval_ms_lem :
    (remaining : ℕ)
    → (1 ≤ timer_interval_ms remaining)
      × (timer_interval_ms remaining ≤ 3600000)
      × (1000000 ≤ remaining → timer_interval_ms remaining * 1000000 ≤ remaining)
      × (remaining < 3600001000000 → remaining < (timer_interval_ms remaining + 1) * 1000000)
unfolding timer_interval_ms
timer_interval_ms_lem remaining = (omega arith, omega arith, λ h. omega arith, λ h. omega arith)
