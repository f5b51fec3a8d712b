-- ===== src/Ownership/Controller/Invariant.antt =====
-- What holds of a timer controller between two calls, over any platform.
use true_tick.Base.{ℕ, ◌+◌, ◌≡◌, ◌≢◌, Option, none, some, arith, min}
use true_tick.Core.{Hns}
use true_tick.Platform.{TimerPlatform, TimerObservation, u32_max}
use true_tick.Ownership.{released, owned, uncertain, Verification, not_collected, TimingSnapshot}
use true_tick.Ownership.Controller.Steps.{
  Step, queries, observes, starts, stops, probes, clears, Reach, here, next, clamped,
}
use true_tick.Ownership.Controller.{
  TimerController, new, query, observe_current, start, stop, acquire,
  clamp_requested_interval_floor, clear_release_boundary, attempt_startup_kernel_settle_probe,
  probe_platform,
}

-- The snapshot repeats the observation, and shows no effective value where there is none.
abbrev pub Shows : Option TimerObservation → TimingSnapshot → Type 0
Shows none s = (s.effective ≡ none) × (s.raw_status ≡ none)
Shows (some o) s =
    (s.requested ≡ some o.requested)
    × (s.effective ≡ some o.reported_current)
    × (s.raw_status ≡ some o.raw_status)

pub record IsCoherent {ℓ} {P : Type ℓ} (c : TimerController P) : Type 0 where
  pub held_selected : c.ownership.state ≢ released → c.selected_interval ≢ none
  pub held_boundary : c.ownership.state ≢ released → c.release_boundary ≡ none
  pub released_verification : c.ownership.state ≡ released → c.verification ≡ not_collected
  pub owned_verification : c.ownership.state ≡ owned → c.verification ≢ not_collected
  pub uncertain_verification :
      c.ownership.state ≡ uncertain → c.verification ≡ Verification.unverified
  pub shown : Shows c.observation c.snapshot

abbrev pub WhenReleased {ℓ} : {P : Type ℓ} → TimerController P → Type 0
WhenReleased c = c.ownership.state ≡ released

module _ {ℓ} {P : Type ℓ} where
  pub new-IsCoherent : (p : P) (requested : Hns) → IsCoherent (new p requested)
  unfolding new
  new-IsCoherent p requested = ground arith

  pub clear_release_boundary-IsCoherent :
      (c : TimerController P) → IsCoherent c → IsCoherent (clear_release_boundary c)
  unfolding clear_release_boundary
  clear_release_boundary-IsCoherent c h = ground arith

  clamp-IsCoherent :
      (f : Hns) (c : TimerController P)
      → WhenReleased c
      → IsCoherent c
      → IsCoherent (clamp_requested_interval_floor f c)
  unfolding clamp_requested_interval_floor
  clamp-IsCoherent f c r h = ground arith

module _ {ℓ} {P : Type ℓ} (t : TimerPlatform P) where
  pub query-IsCoherent : (c : TimerController P) → IsCoherent c → IsCoherent (query t c).1
  unfolding query
  query-IsCoherent c h = ground arith

  pub observe_current-IsCoherent :
      (b : Hns) (c : TimerController P) → IsCoherent c → IsCoherent (observe_current t b c).1
  unfolding observe_current
  observe_current-IsCoherent b c h = ground arith

  pub acquire-IsCoherent :
      (c : TimerController P)
      → c.ownership.state ≡ released
      → IsCoherent c
      → IsCoherent (acquire t c).1
  unfolding acquire
  acquire-IsCoherent c r h = ground arith

  pub start-IsCoherent : (c : TimerController P) → IsCoherent c → IsCoherent (start t c).1
  unfolding start
  start-IsCoherent c h = ground (arith, acquire-IsCoherent c)

  pub stop-IsCoherent : (c : TimerController P) → IsCoherent c → IsCoherent (stop t c).1
  unfolding stop
  stop-IsCoherent c h = ground arith

  pub probe_platform-IsCoherent :
      (n : ℕ) (c : TimerController P)
      → c.ownership.state ≡ released
      → IsCoherent c
      → IsCoherent (probe_platform t n c).1
  unfolding probe_platform
  probe_platform-IsCoherent n c r h = ground arith

  pub attempt_startup_kernel_settle_probe-IsCoherent :
      (n : ℕ) (c : TimerController P)
      → IsCoherent c
      → IsCoherent (attempt_startup_kernel_settle_probe t n c).1
  unfolding attempt_startup_kernel_settle_probe
  attempt_startup_kernel_settle_probe-IsCoherent n c h =
      ground (arith, probe_platform-IsCoherent (min (n + 1) u32_max) c)

  Step-IsCoherent : {c d : TimerController P} → Step t c d → IsCoherent c → IsCoherent d
  Step-IsCoherent {c} queries h = query-IsCoherent c h
  Step-IsCoherent {c} (observes b) h = observe_current-IsCoherent b c h
  Step-IsCoherent {c} starts h = start-IsCoherent c h
  Step-IsCoherent {c} stops h = stop-IsCoherent c h
  Step-IsCoherent {c} (probes n) h = attempt_startup_kernel_settle_probe-IsCoherent n c h
  Step-IsCoherent {c} clears h = clear_release_boundary-IsCoherent c h

  Reach-IsCoherent :
      {c d : TimerController P} → Reach t WhenReleased c d → IsCoherent c → IsCoherent d
  Reach-IsCoherent here h = h
  Reach-IsCoherent (next r s) h = Step-IsCoherent s (Reach-IsCoherent r h)
  Reach-IsCoherent (clamped {d} f a r) h = clamp-IsCoherent f d a (Reach-IsCoherent r h)

  -- After any calls, the floor being raised only while released, a held request has a selected
  -- interval and no release boundary, the verification agrees with the ownership state, and the
  -- snapshot shows the last observation.
  pub reachable-IsCoherent :
      (p : P) (requested : Hns) {c : TimerController P}
      → Reach t WhenReleased (new p requested) c
      → IsCoherent c
  reachable-IsCoherent p requested r = Reach-IsCoherent r (new-IsCoherent p requested)
