-- ===== src/Ownership/Controller/Token.antt =====
-- Whether the controller's ownership state tells the truth about the resolution request that the
-- process holds, over any platform that keeps the laws of the token.
use true_tick.Base.{ℕ, ◌≡◌, Bool, true, false, arith}
use true_tick.Core.{Hns}
use true_tick.Platform.{TimerPlatform}
use true_tick.Platform.Token.{TokenLaws}
use true_tick.Ownership.{released, owned}
use true_tick.Ownership.Controller.{
  TimerController, new, query, observe_current, start, stop, clamp_requested_interval_floor,
  clear_release_boundary, attempt_startup_kernel_settle_probe,
}
use true_tick.Ownership.Controller.Steps.{
  Step, queries, observes, starts, stops, probes, clears, Reach, here, next, clamped, Anytime,
}

-- `Released` means that no request is held, and `Owned` that one is. `Uncertain` says nothing.
pub record IsTruthful {ℓ} {P : Type ℓ} (holds : P → Bool) (c : TimerController P) : Type 0 where
  pub released_free : c.ownership.state ≡ released → holds c.platform ≡ false
  pub owned_held : c.ownership.state ≡ owned → holds c.platform ≡ true

module _ {ℓ} {P : Type ℓ} (t : TimerPlatform P) (holds : P → Bool) (laws : TokenLaws t holds) where
  query-IsTruthful : (c : TimerController P) → IsTruthful holds c → IsTruthful holds (query t c).1
  unfolding query
  query-IsTruthful c h = grind (arith, laws.query_keeps, laws.resolve_keeps)

  observe_current-IsTruthful :
      (b : Hns) (c : TimerController P)
      → IsTruthful holds c
      → IsTruthful holds (observe_current t b c).1
  unfolding observe_current
  observe_current-IsTruthful b c h = ground (arith, laws.query_keeps b c.platform)

  start-IsTruthful : (c : TimerController P) → IsTruthful holds c → IsTruthful holds (start t c).1
  unfolding start
  start-IsTruthful c h = grind (arith, laws.preflight_keeps, laws.resolve_keeps, laws.request_moves)

  stop-IsTruthful : (c : TimerController P) → IsTruthful holds c → IsTruthful holds (stop t c).1
  unfolding stop
  stop-IsTruthful c h = grind (arith, laws.release_moves)

  probe-IsTruthful :
      (n : ℕ) (c : TimerController P)
      → IsTruthful holds c
      → IsTruthful holds (attempt_startup_kernel_settle_probe t n c).1
  unfolding attempt_startup_kernel_settle_probe
  probe-IsTruthful n c h = ground (arith, laws.probe_frees 5000 c.platform)

  clamp-IsTruthful :
      (f : Hns) (c : TimerController P)
      → IsTruthful holds c
      → IsTruthful holds (clamp_requested_interval_floor f c)
  unfolding clamp_requested_interval_floor
  clamp-IsTruthful f c h = ground arith

  clear-IsTruthful :
      (c : TimerController P) → IsTruthful holds c → IsTruthful holds (clear_release_boundary c)
  unfolding clear_release_boundary
  clear-IsTruthful c h = ground arith

  Step-IsTruthful : {c d : TimerController P} → Step t c d → IsTruthful holds c → IsTruthful holds d
  Step-IsTruthful {c} queries h = query-IsTruthful c h
  Step-IsTruthful {c} (observes b) h = observe_current-IsTruthful b c h
  Step-IsTruthful {c} starts h = start-IsTruthful c h
  Step-IsTruthful {c} stops h = stop-IsTruthful c h
  Step-IsTruthful {c} (probes n) h = probe-IsTruthful n c h
  Step-IsTruthful {c} clears h = clear-IsTruthful c h

  Reach-IsTruthful :
      {c d : TimerController P} → Reach t Anytime c d → IsTruthful holds c → IsTruthful holds d
  Reach-IsTruthful here h = h
  Reach-IsTruthful (next r s) h = Step-IsTruthful s (Reach-IsTruthful r h)
  Reach-IsTruthful (clamped {d} f a r) h = clamp-IsTruthful f d (Reach-IsTruthful r h)

  -- After any calls of the public methods, in any order and with any results, a controller in the
  -- state Released holds no resolution request of the process, and one in the state Owned holds
  -- one.
  pub reachable-IsTruthful :
      (p : P) (requested : Hns) {c : TimerController P}
      → holds p ≡ false
      → Reach t Anytime (new p requested) c
      → IsTruthful holds c
  unfolding new
  reachable-IsTruthful p requested free r = Reach-IsTruthful r (ground arith)
