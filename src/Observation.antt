-- ===== src/Observation.antt =====
-- crates/tick-observation-windows/src/lib.rs: the power state, over what the two native calls
-- return. The adapter yields no events.
pub mod Blocking
use Prim.Native.Nat.{bit_and}
use true_tick.Base.{
  ℕ, Bool, true, false, not, Option, none, some, Result, ok, err, ◌==◌, if◌then◌else◌,
}
use true_tick.Core.{CoreError, observation_failed}
use true_tick.Policy.{PowerState, ac, battery, battery_saver, unknown}

pub record PowerSnapshot : Type 0 where
  pub state : PowerState
  pub saver : Option Bool

-- The fields that are read of `SystemPowerStatus`.
pub record SystemPowerStatus : Type 0 where
  pub ac_line_status : ℕ
  pub system_status_flag : ℕ

-- `GetSystemPowerStatus` fills the structure, or fails and `GetLastError` gives a status.
abbrev pub NativePower : Type 0
NativePower = Result SystemPowerStatus ℕ

unfoldable pub saver_is_on : SystemPowerStatus → Bool
saver_is_on status = not (bit_and status.system_status_flag 1 == 0)

unfoldable pub base_state : ℕ → PowerState
base_state ac_line_status =
    if ac_line_status == 1 then ac else if ac_line_status == 0 then battery else unknown

unfoldable pub query_power : NativePower → Result PowerSnapshot CoreError
query_power (err raw_status) = err (observation_failed raw_status)
query_power (ok status) = ok (record {
  state = if saver_is_on status then battery_saver else base_state status.ac_line_status;
  saver = some (saver_is_on status);
})

pub record WindowsObservation : Type 0 where
  pub power : PowerSnapshot
  pub power_error : Option CoreError

abbrev unknown_power : PowerSnapshot
unknown_power = record { state = unknown; saver = none }

unfoldable pub default_observation : WindowsObservation
default_observation = record { power = unknown_power; power_error = none }

unfoldable pub apply_power_query_result :
    Result PowerSnapshot CoreError
    → WindowsObservation
    → Result PowerSnapshot CoreError × WindowsObservation
apply_power_query_result (ok snapshot) o =
    (ok snapshot, record { power = snapshot; power_error = none })
apply_power_query_result (err error) o =
    (err error, record { power = unknown_power; power_error = some error })

unfoldable pub refresh_power :
    NativePower → WindowsObservation → Result PowerSnapshot CoreError × WindowsObservation
refresh_power native o = apply_power_query_result (query_power native) o
