-- ===== src/Ownership.antt =====
-- crates/tick-ownership/src/lib.rs: the ownership cell and the values that the timer controller
-- keeps. The controller itself is the child `Controller`.
pub mod Controller
use true_tick.Base.{
  ℕ, ◌+◌, ◌-◌, Bool, true, false, Option, none, some, Result, ok, ltb, ◌==◌, if◌then◌else◌, min,
}
use true_tick.Base.Int.{ℤ}
use true_tick.Core.{Hns, Status, CoreError}
use true_tick.Platform.{
  TimerObservation, EffectiveRelation, finer, equal, is_finer_than_requested, u32_max,
}

pub data OwnershipState : Type 0 where
  released owned uncertain : OwnershipState

pub data Transition : Type 0 where
  acquire release : Transition

pub record Ownership : Type 0 where
  pub state : OwnershipState

unfoldable pub new_ownership : Ownership
new_ownership = record { state = released }

-- The pairs of `match (self.state, transition)`: whether the state changes, and the state after.
unfoldable pub transition : OwnershipState → Transition → Bool × OwnershipState
transition released Transition.acquire = (true, owned)
transition owned Transition.release = (true, released)
transition uncertain Transition.release = (true, released)
transition owned Transition.acquire = (false, owned)
transition uncertain Transition.acquire = (false, uncertain)
transition released Transition.release = (false, released)

unfoldable pub apply : Transition → Ownership → Result Bool CoreError × Ownership
unfolding transition
apply t o = let (changed, state) = transition o.state t in (ok changed, record { state = state })

unfoldable pub mark_uncertain : Ownership → Ownership
mark_uncertain o = record { state = uncertain }

unfoldable pub status : OwnershipState → Status
status released = Status.released
status owned = Status.active
status uncertain = Status.unknown

pub data Verification : Type 0 where
  not_collected verified finer_than_requested unverified : Verification

pub record TimingSnapshot : Type 0 where
  pub requested : Option Hns
  pub selected : Option Hns
  pub effective : Option Hns
  pub minimum_interval : Option Hns
  pub maximum_interval : Option Hns
  pub raw_status : Option ℤ

unfoldable pub or_else {ℓ} : {A : Type ℓ} → Option A → Option A → Option A
or_else (some a) b = some a
or_else none b = b

-- The words that the snapshot's `effective_relation` returns are three of the observation's.
relation_to : Option Hns → Option Hns → Option EffectiveRelation
relation_to (some boundary) (some effective) = some (
    if ltb effective boundary
    then finer
    else if effective == boundary
    then equal
    else EffectiveRelation.unverified)
relation_to (some boundary) none = none
relation_to none effective = none

unfoldable pub snapshot_relation : TimingSnapshot → Option EffectiveRelation
unfolding or_else relation_to
snapshot_relation s = relation_to (or_else s.selected s.requested) s.effective

unfoldable pub invalidate_effective : TimingSnapshot → TimingSnapshot
invalidate_effective s = record s { effective = none; raw_status = none }

unfoldable pub verification_for_observation : TimerObservation → Verification
unfolding is_finer_than_requested
verification_for_observation o =
    if is_finer_than_requested o then finer_than_requested else verified

-- The startup probe.
abbrev pub kernel_settle_high_resolution_threshold_hns : Hns
kernel_settle_high_resolution_threshold_hns = 10000

abbrev pub kernel_settle_probe_candidate_interval_hns : Hns
kernel_settle_probe_candidate_interval_hns = 5000

abbrev pub settle_probe_attempts : ℕ
settle_probe_attempts = 3

unfoldable pub settle_probe_budget_remaining : ℕ → ℕ
settle_probe_budget_remaining attempts_used = settle_probe_attempts - attempts_used

pub data SettleProbeOutcome : Type 0 where
  resolved : ℕ → SettleProbeOutcome
  external_client_confirmed exhausted : SettleProbeOutcome

pub data SettleProbeStep : Type 0 where
  not_applicable : SettleProbeStep
  retry : ℕ → SettleProbeStep
  settled : SettleProbeOutcome → SettleProbeStep

unfoldable pub settle_probe_no_change : ℕ → SettleProbeStep
unfolding settle_probe_budget_remaining
settle_probe_no_change attempts_consumed =
    let budget_remaining = settle_probe_budget_remaining attempts_consumed in
    if budget_remaining == 0 then settled exhausted else retry budget_remaining
