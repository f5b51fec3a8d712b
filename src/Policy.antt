-- ===== src/Policy.antt =====
-- crates/tick-policy/src/lib.rs: whether a request is wanted, and in which tier the program runs.
pub mod Latency
pub mod Decisions
use true_tick.Base.{
  ℕ, Bool, true, false, not, ◌&&◌, ◌||◌, List, [], ◌∷◌, ◌++◌, leb, ◌==◌, if◌then◌else◌,
}
use true_tick.Core.{Hns, Status}

pub data PowerState : Type 0 where
  ac battery battery_saver unknown : PowerState

pub data PolicyReason : Type 0 where
  no_eligible_profile eligible_profile battery_restricted : PolicyReason
  battery_saver_restricted power_unknown globally_disabled : PolicyReason

pub record PolicyInput : Type 0 where
  pub enabled : Bool
  pub profile : Bool
  pub power : PowerState
  pub battery_lockout_enabled : Bool

pub record PolicyDecision : Type 0 where
  pub status : Status
  pub reason : PolicyReason

abbrev decision : Status → PolicyReason → PolicyDecision
decision status reason = record { status = status; reason = reason }

unfoldable pub decide_power : PowerState → Bool → PolicyDecision
decide_power ac lockout = decision Status.requested eligible_profile
decide_power battery lockout =
    if lockout
    then decision Status.blocked battery_restricted
    else decision Status.requested eligible_profile
decide_power battery_saver lockout =
    if lockout
    then decision Status.blocked battery_saver_restricted
    else decision Status.requested eligible_profile
decide_power unknown lockout = decision Status.blocked power_unknown

unfoldable pub decide : PolicyInput → PolicyDecision
decide input =
    if not input.enabled
    then decision Status.blocked globally_disabled
    else if not input.profile
    then decision Status.released no_eligible_profile
    else decide_power input.power input.battery_lockout_enabled

abbrev reason_index : PolicyReason → ℕ
reason_index no_eligible_profile = 0
reason_index eligible_profile = 1
reason_index battery_restricted = 2
reason_index battery_saver_restricted = 3
reason_index power_unknown = 4
reason_index globally_disabled = 5

-- The derived equality.
abbrev pub reason_eq : PolicyReason → PolicyReason → Bool
reason_eq r q = reason_index r == reason_index q

unfoldable pub contains : List PolicyReason → PolicyReason → Bool
contains [] reason = false
contains (r ∷ rs) reason = reason_eq r reason || contains rs reason

-- The loop, over the vector built so far.
unfoldable pub push_unique : List PolicyReason → List PolicyReason → List PolicyReason
push_unique unique [] = unique
push_unique unique (r ∷ rs) =
    push_unique (if not (contains unique r) then unique ++ r ∷ [] else unique) rs

unfoldable pub from_reasons : List PolicyReason → List PolicyReason
from_reasons reasons = push_unique [] reasons

abbrev pub max_anomalies_before_quiescent : ℕ
max_anomalies_before_quiescent = 3

abbrev pub kernel_rejections_before_floor : ℕ
kernel_rejections_before_floor = 3

abbrev pub fallback_floor_hns : Hns
fallback_floor_hns = 10000

pub data OperatingTier : Type 0 where
  nominal surface_degraded : OperatingTier
  metrology_degraded : Hns → OperatingTier
  quiescent : OperatingTier

pub data TierTransition : Type 0 where
  stay enter_surface_degraded : TierTransition
  enter_metrology_degraded : Hns → TierTransition
  enter_quiescent recover : TierTransition

pub record TierContext : Type 0 where
  pub tray_surface_available : Bool
  pub kernel_rejected_requests : ℕ
  pub unhandled_anomalies : ℕ
  pub current_floor_hns : Hns
  pub nominally_recoverable : Bool

abbrev pub is_nominal : OperatingTier → Bool
is_nominal nominal = true
is_nominal surface_degraded = false
is_nominal (metrology_degraded floored_hns) = false
is_nominal quiescent = false

abbrev pub is_floored : OperatingTier → Bool
is_floored nominal = false
is_floored surface_degraded = false
is_floored (metrology_degraded floored_hns) = true
is_floored quiescent = true

abbrev pub is_degraded : OperatingTier → Bool
is_degraded nominal = false
is_degraded surface_degraded = true
is_degraded (metrology_degraded floored_hns) = true
is_degraded quiescent = false

unfoldable pub evaluate_tier : OperatingTier → TierContext → TierTransition
evaluate_tier current ctx =
    if leb max_anomalies_before_quiescent ctx.unhandled_anomalies
    then enter_quiescent
    else if not ctx.tray_surface_available && is_nominal current
    then enter_surface_degraded
    else if leb kernel_rejections_before_floor ctx.kernel_rejected_requests
        && not (is_floored current)
    then enter_metrology_degraded fallback_floor_hns
    else if is_degraded current && ctx.nominally_recoverable && (ctx.unhandled_anomalies == 0)
    then recover
    else stay

unfoldable pub tier_allows_high_resolution : OperatingTier → Bool
tier_allows_high_resolution nominal = true
tier_allows_high_resolution surface_degraded = true
tier_allows_high_resolution (metrology_degraded floored_hns) = false
tier_allows_high_resolution quiescent = false
