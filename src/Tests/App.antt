-- ===== src/Tests/App.antt =====
-- Policy, watchdog, presets and the scheduled action.
use true_tick.Base.{◌≤◌, ◌<◌, ◌≡◌, refl, false, some, arith, List, [], ◌∷◌, take, length}
use true_tick.Watchdog.{monitor, elapsed, Cycle, max_stall_episodes}
use true_tick.Watchdog.Episodes.{episode_starts, monitor-callbacks}
use true_tick.Pause.{
  from_seconds_list, schedule, cancel, timer_event, stale, start, ScheduledAction, new_coordinator,
}
use true_tick.Pause.Presets.{IsPresets, loaded, Reached-IsPresets}
use true_tick.Pause.Coordinator.{nothing, call, scheduling, cancelling, timer_event-superseded}

abbrev cycles : List Cycle
cycles =
    elapsed 1000 0 ∷ elapsed 5001 0 ∷ elapsed 6001 0 ∷ elapsed 7001 7000 ∷ elapsed 12000 7000 ∷ []

monitor-callbacks_example :
    ((monitor 4000 cycles false 0).callbacks
      ≡ take max_stall_episodes (episode_starts 4000 cycles false))
    × ((monitor 4000 cycles false 0).episodes ≡ length (monitor 4000 cycles false 0).callbacks)
    × ((monitor 4000 cycles false 0).episodes ≤ max_stall_episodes)
monitor-callbacks_example = monitor-callbacks 4000 cycles

Reached-IsPresets_example : IsPresets (from_seconds_list (600 ∷ 5 ∷ 60 ∷ 600 ∷ 90000 ∷ []))
Reached-IsPresets_example = Reached-IsPresets (loaded (600 ∷ 5 ∷ 60 ∷ 600 ∷ 90000 ∷ []))

abbrev first : ScheduledAction
first = record { action = start; duration = 60; deadline = 60000000005; generation = 1 }

first_scheduled : (schedule start 60 5 new_coordinator).1.scheduled ≡ some first
unfolding schedule new_coordinator
first_scheduled = refl

first_generation : (schedule start 60 5 new_coordinator).1.generation < 18446744073709551615
unfolding schedule new_coordinator
first_generation = omega arith

timer_event-superseded_example :
    timer_event (cancel (schedule start 60 5 new_coordinator).1).1 1 70000000000 ≡ stale
timer_event-superseded_example =
    timer_event-superseded first 70000000000 (call (scheduling start 60 5) nothing) first_scheduled
      first_generation cancelling nothing
