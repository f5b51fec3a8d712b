-- ===== src/Watchdog/Episodes.antt =====
-- The callbacks of the monitor of crates/tick-watchdog/src/lib.rs are the stall episodes, up to
-- the bound.
use true_tick.Base.{
  ℕ, zero, suc, ◌+◌, ◌-◌, ◌≤◌, ◌<◌, ◌≡◌, ◌↔◌, inl, inr, refl, ap, Bool, true, false, List, [], ◌∷◌,
  arith, length, take, Bool-cases, sym, leb-false, leb, if◌then◌else◌,
}
use true_tick.Watchdog.{
  WatchdogVerdict, alive, stalled, evaluate, Cycle, stop_requested, elapsed, Monitor, on_verdict,
  monitor, max_stall_episodes,
}

-- The verdict is a stall of a given time exactly when that time has passed since the last kick and
-- exceeds the threshold.
pub evaluate-stalled_iff :
    (now_ms last_kick_ms threshold_ms stall_ms : ℕ)
    → (evaluate now_ms last_kick_ms threshold_ms ≡ stalled stall_ms)
      ↔ ((last_kick_ms + stall_ms ≡ now_ms) × (threshold_ms < stall_ms))
unfolding evaluate
evaluate-stalled_iff now_ms last_kick_ms threshold_ms stall_ms =
    (λ h. ground arith, λ h. ground arith)

-- The first stall time of each episode: of each run of stalled cycles, until a stop.
unfoldable pub starts_from : WatchdogVerdict → (Bool → List ℕ) → Bool → List ℕ
starts_from alive starts in_episode = starts false
starts_from (stalled stall_ms) starts in_episode =
    let rest = starts true in if in_episode then rest else stall_ms ∷ rest

unfoldable pub episode_starts : ℕ → List Cycle → Bool → List ℕ
episode_starts threshold_ms [] in_episode = []
episode_starts threshold_ms (stop_requested ∷ cycles) in_episode = []
episode_starts threshold_ms (elapsed now_ms last_kick_ms ∷ cycles) in_episode =
    starts_from (evaluate now_ms last_kick_ms threshold_ms) (episode_starts threshold_ms cycles)
      in_episode

-- A run that has counted `episodes` reports the next ones, as far as the bound allows.
unfoldable pub Reports : Monitor → List ℕ → ℕ → Type 0
Reports run starts episodes =
    (run.callbacks ≡ take (max_stall_episodes - episodes) starts)
    × (run.episodes ≡ episodes + length run.callbacks)
    × (run.episodes ≤ max_stall_episodes)

take_nil : (n : ℕ) → take {A = ℕ} n [] ≡ []
take_nil zero = refl
take_nil (suc n) = refl

on_verdict-Reports :
    (v : WatchdogVerdict) (go : Bool → ℕ → Monitor) (starts : Bool → List ℕ)
    → ((b : Bool) (n : ℕ) → n ≤ max_stall_episodes → Reports (go b n) (starts b) n)
    → (in_episode : Bool) (episodes : ℕ) → episodes ≤ max_stall_episodes
    → Reports (on_verdict v go in_episode episodes) (starts_from v starts in_episode) episodes
unfolding on_verdict starts_from
on_verdict-Reports alive go starts next in_episode episodes h = next false episodes h
on_verdict-Reports (stalled stall_ms) go starts next true episodes h = next true episodes h
on_verdict-Reports (stalled stall_ms) go starts next false episodes h =
    elim (Bool-cases (leb max_stall_episodes episodes)) [
      | inl full ↦
          let none_left : max_stall_episodes - episodes ≡ 0 = ground (arith, full) in
          rw full (unfold Reports in rw none_left (refl, omega arith, h))
      | inr free ↦
          let room = leb-false max_stall_episodes episodes free in
          let left : max_stall_episodes - episodes ≡ suc (max_stall_episodes - suc episodes) =
            omega arith in
          let reported = next true (suc episodes) (omega arith) in
          rw free (
            unfold Reports in
            (rw left (ap (λ t. stall_ms ∷ t) reported.0), omega (arith, reported.1), reported.2))
    ]

monitor-Reports :
    (threshold_ms : ℕ) (cycles : List Cycle) (in_episode : Bool) (episodes : ℕ)
    → episodes ≤ max_stall_episodes
    → Reports
        (monitor threshold_ms cycles in_episode episodes)
        (episode_starts threshold_ms cycles in_episode)
        episodes
unfolding monitor episode_starts
monitor-Reports threshold_ms [] in_episode episodes h =
    unfold Reports in (sym (take_nil (max_stall_episodes - episodes)), omega arith, h)
monitor-Reports threshold_ms (stop_requested ∷ cycles) in_episode episodes h =
    unfold Reports in (sym (take_nil (max_stall_episodes - episodes)), omega arith, h)
monitor-Reports threshold_ms (elapsed now_ms last_kick_ms ∷ cycles) in_episode episodes h =
    on_verdict-Reports (evaluate now_ms last_kick_ms threshold_ms) (monitor threshold_ms cycles)
      (episode_starts threshold_ms cycles) (monitor-Reports threshold_ms cycles) in_episode episodes
      h

-- The callbacks of a monitor are the starts of the first eight stall episodes, in order and once
-- each, and the shared count is their number and at most eight.
pub monitor-callbacks :
    (threshold_ms : ℕ) (cycles : List Cycle)
    → ((monitor threshold_ms cycles false 0).callbacks
        ≡ take max_stall_episodes (episode_starts threshold_ms cycles false))
      × ((monitor threshold_ms cycles false 0).episodes
          ≡ length (monitor threshold_ms cycles false 0).callbacks)
      × ((monitor threshold_ms cycles false 0).episodes ≤ max_stall_episodes)
unfolding Reports
monitor-callbacks threshold_ms cycles =
    let (calls, count, bound) = monitor-Reports threshold_ms cycles false 0 (omega arith) in
    (calls, omega (arith, count), bound)
