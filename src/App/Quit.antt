-- ===== src/App/Quit.antt =====
-- apps/true-tick/src/tray/quit.rs: whether the program may quit without a dialog.
use true_tick.Base.{
  ◌≡◌, ◌↔◌, refl, Bool, true, false, ◌&&◌, if◌then◌else◌, ◌==◌, ◌⊎◌, inl, inr, Bool-cases, arith,
}
use true_tick.Base.Int.{ℤ, pos, negsuc}
use true_tick.Ownership.Controller.{is_released}
use true_tick.Ownership.{OwnershipState, released, owned, uncertain}

pub data TrayStatus : Type 0 where
  running starting scheduled_start pausing stopping scheduled_stop paused pending : TrayStatus
  degraded unverified stopped blocked unsupported error : TrayStatus

pub data QuitSafetyReason : Type 0 where
  owned_active ownership_uncertain timing_not_settled : QuitSafetyReason

pub data QuitDecision : Type 0 where
  exit_normally : QuitDecision
  require_safety_dialog : QuitSafetyReason → QuitDecision

pub data QuitDialogDecision : Type 0 where
  stop_and_quit cancel : QuitDialogDecision

abbrev pub is_unsettled : TrayStatus → Bool
is_unsettled running = true
is_unsettled starting = true
is_unsettled stopping = true
is_unsettled pending = true
is_unsettled degraded = true
is_unsettled unverified = true
is_unsettled scheduled_start = false
is_unsettled pausing = false
is_unsettled scheduled_stop = false
is_unsettled paused = false
is_unsettled stopped = false
is_unsettled blocked = false
is_unsettled unsupported = false
is_unsettled error = false

unfoldable pub quit_decision_for : TrayStatus → OwnershipState → QuitDecision
quit_decision_for status owned = require_safety_dialog owned_active
quit_decision_for status uncertain = require_safety_dialog ownership_uncertain
quit_decision_for status released =
    if is_unsettled status then require_safety_dialog timing_not_settled else exit_normally

unfoldable pub quit_decision_for_handoff : TrayStatus → OwnershipState → Bool → QuitDecision
quit_decision_for_handoff status ownership handoff_active =
    if handoff_active && is_released ownership
    then exit_normally
    else if handoff_active
    then require_safety_dialog timing_not_settled
    else quit_decision_for status ownership

-- IDYES is 6.
unfoldable pub message_box_decision : ℤ → QuitDialogDecision
message_box_decision (pos n) = if n == 6 then stop_and_quit else cancel
message_box_decision (negsuc n) = cancel

-- The program exits without the safety dialog exactly when the ownership is released and either a
-- handoff is active or the status is settled.
pub quit_decision_for_handoff_iff :
    (status : TrayStatus) (ownership : OwnershipState) (handoff_active : Bool)
    → (quit_decision_for_handoff status ownership handoff_active ≡ exit_normally)
      ↔ ((ownership ≡ released) × ((handoff_active ≡ true) ⊎ (is_unsettled status ≡ false)))
unfolding quit_decision_for_handoff quit_decision_for
quit_decision_for_handoff_iff status released true = (λ h. (refl, inl refl), λ h. refl)
quit_decision_for_handoff_iff status released false = elim (Bool-cases (is_unsettled status)) [
  | inl e ↦ (λ h. ground (arith, e, h), λ (_, r). elim r [ inl q ↦ cc | inr q ↦ cc ])
  | inr e ↦ (λ h. (refl, inr e), λ h. rw e)
]
quit_decision_for_handoff_iff status owned true = (λ h. cc, λ (e, _). cc)
quit_decision_for_handoff_iff status owned false = (λ h. cc, λ (e, _). cc)
quit_decision_for_handoff_iff status uncertain true = (λ h. cc, λ (e, _). cc)
quit_decision_for_handoff_iff status uncertain false = (λ h. cc, λ (e, _). cc)
