-- ===== src/Tests/Timer.antt =====
-- The timer adapter and its controller over a kernel that grants every request.
use true_tick.Base.{
  ◌⊎◌, ℕ, ◌≡◌, ◌≢◌, ◌↔◌, refl, Bool, true, false, Option, none, some, ok, err, arith,
}
use true_tick.Base.Int.{pos}
use true_tick.Platform.{TimerQuery, resolve_request, is_satisfied, invalid_interval}
use true_tick.Platform.Bounds.{resolve_request_iff, wanted, IsSupported}
use true_tick.Platform.Sampling.{sample_interval_median}
use true_tick.Platform.Windows.{Kernel, WindowsTimerPlatform, windows_platform}
use true_tick.Platform.Windows.Token.{KernelLaws, windows_platform-TokenLaws, holds}
use true_tick.Platform.Token.{TokenLaws}
use true_tick.Ownership.{released}
use true_tick.Ownership.Controller.{
  TimerController, new, start, stop, clamp_requested_interval_floor,
  attempt_startup_kernel_settle_probe,
}
use true_tick.Ownership.Controller.Steps.{starts, stops, here, next}
use true_tick.Ownership.Controller.Invariant.{IsCoherent, reachable-IsCoherent, new-IsCoherent}
use true_tick.Ownership.Controller.Token.{IsTruthful, reachable-IsTruthful}
use true_tick.Ownership.Controller.Outcomes.{
  Started, start-Started, Stopped, stop-Stopped, clamp_strands, Probed,
  attempt_startup_kernel_settle_probe-Probed,
}

-- The state of the kernel is the request that the process holds.
abbrev current : Option ℕ → ℕ
current none = 156250
current (some d) = d

abbrev after : ℕ → Bool → Option ℕ
after d true = some d
after d false = none

abbrev granting : Kernel (Option ℕ)
granting = record {
  nt_query = λ k. (
    record {
      status = pos 0;
      minimum_resolution = 156250;
      maximum_resolution = 5000;
      current_resolution = current k;
    },
    k,
  );
  nt_set = λ desired set k. ((pos 0, current (after desired set)), after desired set);
}

abbrev held : Option ℕ → Bool
held none = false
held (some d) = true

held-after : (d : ℕ) (set : Bool) → held (after d set) ≡ set
held-after d true = refl
held-after d false = refl

granting-KernelLaws : KernelLaws granting held
granting-KernelLaws = record {
  query_keeps = λ k. refl;
  set_success = λ d s k h. held-after d s;
  set_failure = λ d s k h. cc;
}

abbrev W : Type 0
W = WindowsTimerPlatform (Option ℕ)

abbrev idle : W
idle = record { requested = none; kernel = none }

windows_platform-TokenLaws_example : TokenLaws (windows_platform granting) (holds held)
windows_platform-TokenLaws_example = windows_platform-TokenLaws granting held granting-KernelLaws

fresh : TimerController W
fresh = new idle 10000

fresh-IsCoherent : IsCoherent fresh
unfolding fresh
fresh-IsCoherent = new-IsCoherent idle 10000

started : TimerController W
unfolding fresh
started = (start (windows_platform granting) fresh).1

reachable-IsTruthful_example : IsTruthful (holds held) (stop (windows_platform granting) started).1
unfolding started fresh
reachable-IsTruthful_example =
    reachable-IsTruthful (windows_platform granting) (holds held) windows_platform-TokenLaws_example
      idle 10000 refl (next (next here starts) stops)

reachable-IsCoherent_example : IsCoherent started
unfolding started fresh
reachable-IsCoherent_example =
    reachable-IsCoherent (windows_platform granting) idle 10000 (next here starts)

start-Started_example : Started (start (windows_platform granting) fresh).0 started
unfolding started
start-Started_example =
    start-Started (windows_platform granting) (holds held) windows_platform-TokenLaws_example fresh
      fresh-IsCoherent (unfold fresh new in refl)

stop-Stopped_example :
    Stopped
      (holds held)
      started
      (stop (windows_platform granting) started).0
      (stop (windows_platform granting) started).1
    × ((started.ownership.state ≢ released)
        ⊎ (stop (windows_platform granting) started ≡ (ok false, started)))
stop-Stopped_example =
    stop-Stopped (windows_platform granting) (holds held) windows_platform-TokenLaws_example started
      reachable-IsCoherent_example

-- 0.5 ms is held, and the floor is raised to 1 ms.
fine : TimerController W
fine = (start (windows_platform granting) (new idle 5000)).1

fine_held : (fine.ownership.state ≢ released) × (fine.selected_interval ≡ some 5000)
unfolding fine new start windows_platform resolve_request sample_interval_median is_satisfied
fine_held = ((λ e. cc), refl)

clamp_strands_example :
    stop (windows_platform granting) (clamp_requested_interval_floor 10000 fine)
    ≡ (err invalid_interval, clamp_requested_interval_floor 10000 fine)
clamp_strands_example =
    clamp_strands (windows_platform granting) fine 10000 5000 fine_held.0 fine_held.1 (omega arith)

attempt_startup_kernel_settle_probe-Probed_example :
    Probed 2 (attempt_startup_kernel_settle_probe (windows_platform granting) 2 fresh).0
attempt_startup_kernel_settle_probe-Probed_example =
    attempt_startup_kernel_settle_probe-Probed (windows_platform granting) 2 fresh

abbrev windows_query : TimerQuery
windows_query = record {
  bounds = record { minimum_interval = 156250; maximum_interval = 5000 };
  reported_current = 9966;
  raw_status = pos 0;
}

resolve_request_iff_example :
    (resolve_request windows_query 0 ≡ ok 5000)
    ↔ ((5000 ≡ wanted windows_query.bounds 0) × IsSupported windows_query.bounds 5000)
resolve_request_iff_example = resolve_request_iff windows_query 0 5000
