-- ===== src/Observation/Blocking.antt =====
-- What crates/tick-observation-windows/src/lib.rs observes lets apps/true-tick/src/pause.rs acquire.
use true_tick.Base.{◌≡◌, ◌⊎◌, Bool, true, false, ok, err}
use true_tick.Observation.{NativePower, saver_is_on}

-- The power that lets a request start: the call succeeds and shows line power without battery
-- saver, or, where the lockout is off, battery saver or battery power.
unfoldable pub IsPowered : NativePower → Bool → Type 0
IsPowered (err raw_status) lockout = true ≡ false
IsPowered (ok status) lockout =
    ((saver_is_on status ≡ false) × (status.ac_line_status ≡ 1))
    ⊎ ((lockout ≡ false) × ((saver_is_on status ≡ true) ⊎ (status.ac_line_status ≡ 0)))
