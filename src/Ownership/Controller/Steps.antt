-- ===== src/Ownership/Controller/Steps.antt =====
-- The calls of the public methods of `TimerController`, in any order and with any results.
use true_tick.Base.{ℕ}
use true_tick.Core.{Hns}
use true_tick.Platform.{TimerPlatform}
use true_tick.Ownership.Controller.{
  TimerController, query, observe_current, start, stop, clamp_requested_interval_floor,
  clear_release_boundary, attempt_startup_kernel_settle_probe,
}

pub data Step {ℓ} {P : Type ℓ} (t : TimerPlatform P) (c : TimerController P)
    : TimerController P → Type ℓ where
  queries : Step t c (query t c).1
  observes : (boundary : Hns) → Step t c (observe_current t boundary c).1
  starts : Step t c (start t c).1
  stops : Step t c (stop t c).1
  probes : (attempts_used : ℕ) → Step t c (attempt_startup_kernel_settle_probe t attempts_used c).1
  clears : Step t c (clear_release_boundary c)

-- The floor is raised only where `Allowed` lets it.
pub data Reach {ℓ} {P : Type ℓ} (t : TimerPlatform P) (Allowed : TimerController P → Type 0)
    (c : TimerController P) : TimerController P → Type ℓ where
  here : Reach t Allowed c c
  next : {d e : TimerController P} → Reach t Allowed c d → Step t d e → Reach t Allowed c e
  clamped :
      {d : TimerController P} (floor : Hns)
      → Allowed d
      → Reach t Allowed c d
      → Reach t Allowed c (clamp_requested_interval_floor floor d)

abbrev pub Anytime {ℓ} : {P : Type ℓ} → TimerController P → Type 0
Anytime c = Unit
