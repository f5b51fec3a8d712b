-- ===== src/Watchdog.antt =====
-- crates/tick-watchdog/src/lib.rs: the verdict on a heartbeat, and the monitor thread. A cycle of
-- the loop is what its wait and its two clock reads yield; the thread and its condition variable
-- are the operating system's.
pub mod Episodes
use true_tick.Base.{ℕ, suc, ◌+◌, ◌-◌, Bool, true, false, List, [], ◌∷◌, leb, ltb, if◌then◌else◌}

abbrev pub heartbeat_interval_ms : ℕ
heartbeat_interval_ms = 1000

abbrev pub stall_threshold_ms : ℕ
stall_threshold_ms = 4000

abbrev pub max_stall_episodes : ℕ
max_stall_episodes = 8

pub data WatchdogVerdict : Type 0 where
  alive : WatchdogVerdict
  stalled : ℕ → WatchdogVerdict

-- The subtraction saturates, as that on ℕ does.
unfoldable pub evaluate : ℕ → ℕ → ℕ → WatchdogVerdict
evaluate now_ms last_kick_ms threshold_ms =
    let stall_ms = now_ms - last_kick_ms in
    if ltb threshold_ms stall_ms then stalled stall_ms else alive

-- A stop was requested before or during the wait, or the interval elapsed and the clock and the
-- last kick were read.
pub data Cycle : Type 0 where
  stop_requested : Cycle
  elapsed : ℕ → ℕ → Cycle

-- The state of the loop: the episode flag, the shared counter, the callbacks made and whether the
-- thread has ended.
pub record Monitor : Type 0 where
  pub in_episode : Bool
  pub episodes : ℕ
  pub callbacks : List ℕ
  pub ended : Bool

abbrev pub spawned : Monitor
spawned = record { in_episode = false; episodes = 0; callbacks = []; ended = false }

-- `on_stall` is called at most once per cycle; the callbacks stand in their order.
unfoldable pub on_verdict : WatchdogVerdict → (Bool → ℕ → Monitor) → Bool → ℕ → Monitor
on_verdict alive continue_with in_episode episodes = continue_with false episodes
on_verdict (stalled stall_ms) continue_with in_episode episodes =
    if in_episode
    then continue_with true episodes
    else if leb max_stall_episodes episodes
    then record { in_episode = true; episodes = episodes; callbacks = []; ended = true }
    else (let rest = continue_with true (suc episodes) in
        record {
          in_episode = rest.in_episode;
          episodes = rest.episodes;
          callbacks = stall_ms ∷ rest.callbacks;
          ended = rest.ended;
        })

unfoldable pub monitor : ℕ → List Cycle → Bool → ℕ → Monitor
monitor threshold_ms [] in_episode episodes = record {
  in_episode = in_episode;
  episodes = episodes;
  callbacks = [];
  ended = false;
}
monitor threshold_ms (stop_requested ∷ cycles) in_episode episodes = record {
  in_episode = in_episode;
  episodes = episodes;
  callbacks = [];
  ended = true;
}
monitor threshold_ms (elapsed now_ms last_kick_ms ∷ cycles) in_episode episodes =
    on_verdict (evaluate now_ms last_kick_ms threshold_ms) (monitor threshold_ms cycles) in_episode
      episodes
