-- ===== src/Pause.antt =====
-- apps/true-tick/src/pause.rs: the presets of durations and the one scheduled action. A preset is
-- its seconds; instants and durations are nanoseconds.
pub mod Ordering
pub mod Presets
pub mod Coordinator
pub mod Acquisition
use true_tick.Base.{
  ℕ, zero, suc, ◌+◌, ◌-◌, ◌*◌, ◌/◌, ◌%◌, Bool, true, false, not, ◌&&◌, ◌||◌, List, [], ◌∷◌, ◌++◌,
  map, Option, none, some, Result, ok, err, leb, ltb, ◌==◌, if◌then◌else◌, length, take, filter,
  is_empty, min, max,
}
use true_tick.Base.Try.{◌>>=◌, ◌>>◌, ensure}
use true_tick.Core.{Status}
use true_tick.Policy.{PowerState, decide}

abbrev pub min_preset_seconds : ℕ
min_preset_seconds = 10

abbrev pub max_preset_seconds : ℕ
max_preset_seconds = 86400

abbrev pub max_presets : ℕ
max_presets = 12

abbrev nanos : ℕ → ℕ
nanos seconds = seconds * 1000000000

abbrev pub DurationPreset : Type 0
DurationPreset = ℕ

-- The messages of the refusals.
pub data PresetError : Type 0 where
  too_short too_long already_exists maximum_reached out_of_range must_remain : PresetError

unfoldable pub new_preset : ℕ → Result DurationPreset PresetError
new_preset seconds = do
  ensure (not (ltb seconds min_preset_seconds)) too_short
  ensure (not (ltb max_preset_seconds seconds)) too_long
  ok seconds

-- `filter_map` with `DurationPreset::new(...).ok()`.
unfoldable pub keep_ok :
    Result DurationPreset PresetError → List DurationPreset → List DurationPreset
keep_ok (ok preset) rest = preset ∷ rest
keep_ok (err e) rest = rest

unfoldable pub valid_presets : List ℕ → List DurationPreset
valid_presets [] = []
valid_presets (s ∷ list) = keep_ok (new_preset s) (valid_presets list)

unfoldable pub contains : DurationPreset → List DurationPreset → Bool
contains preset [] = false
contains preset (p ∷ ps) = p == preset || contains preset ps

-- `sort`, `dedup` and `remove` of the standard library, on numbers.
unfoldable pub insert : DurationPreset → List DurationPreset → List DurationPreset
insert preset [] = preset ∷ []
insert preset (p ∷ ps) = if leb preset p then preset ∷ p ∷ ps else p ∷ insert preset ps

unfoldable pub sort : List DurationPreset → List DurationPreset
sort [] = []
sort (p ∷ ps) = insert p (sort ps)

unfoldable pub dedup_from : DurationPreset → List DurationPreset → List DurationPreset
dedup_from kept [] = []
dedup_from kept (p ∷ ps) = if p == kept then dedup_from kept ps else p ∷ dedup_from p ps

unfoldable pub dedup : List DurationPreset → List DurationPreset
dedup [] = []
dedup (p ∷ ps) = p ∷ dedup_from p ps

unfoldable pub remove_at : ℕ → List DurationPreset → List DurationPreset
remove_at index [] = []
remove_at zero (p ∷ ps) = ps
remove_at (suc index) (p ∷ ps) = p ∷ remove_at index ps

-- `PresetsManager`, its one field.
pub record PresetsManager : Type 0 where
  pub presets : List DurationPreset

unfoldable pub default_presets : List DurationPreset
default_presets = valid_presets (60 ∷ 300 ∷ 900 ∷ 1800 ∷ 3600 ∷ [])

unfoldable pub new_presets : PresetsManager
new_presets = record { presets = default_presets }

unfoldable pub add :
    DurationPreset → PresetsManager → Result (Unit {0}) PresetError × PresetsManager
add preset m =
    if contains preset m.presets
    then (err already_exists, m)
    else if leb max_presets (length m.presets)
    then (err maximum_reached, m)
    else (ok tt, record { presets = sort (m.presets ++ preset ∷ []) })

unfoldable pub remove : ℕ → PresetsManager → Result (Unit {0}) PresetError × PresetsManager
remove index m =
    if leb (length m.presets) index
    then (err out_of_range, m)
    else if leb (length m.presets) 1
    then (err must_remain, m)
    else (ok tt, record { presets = remove_at index m.presets })

unfoldable pub reset_defaults : PresetsManager → PresetsManager
reset_defaults m = record { presets = default_presets }

unfoldable pub to_seconds_list : PresetsManager → List ℕ
to_seconds_list m = m.presets

unfoldable pub from_seconds_list : List ℕ → PresetsManager
from_seconds_list list =
    let presets = take max_presets (dedup (sort (valid_presets list))) in
    record { presets = if is_empty presets then default_presets else presets }

pub data DurationAction : Type 0 where
  start stop pause : DurationAction

pub record ScheduledAction : Type 0 where
  pub action : DurationAction
  pub duration : DurationPreset
  pub deadline : ℕ
  pub generation : ℕ

unfoldable pub remaining : ScheduledAction → ℕ → ℕ
remaining a now = a.deadline - now

pub data ScheduleRequest : Type 0 where
  started : ScheduledAction → ScheduleRequest
  replaced : ScheduledAction → ScheduledAction → ScheduleRequest

pub data CoordinatorTimerEvent : Type 0 where
  expired : ScheduledAction → CoordinatorTimerEvent
  early : DurationAction → ℕ → ℕ → CoordinatorTimerEvent
  stale : CoordinatorTimerEvent

pub record DurationCoordinator : Type 0 where
  pub scheduled : Option ScheduledAction
  pub generation : ℕ

unfoldable pub new_coordinator : DurationCoordinator
new_coordinator = record { scheduled = none; generation = 0 }

unfoldable pub pause_active : DurationCoordinator → Bool
pause_active c = elim c.scheduled [
  | none ↦ false
  | some a ↦ elim a.action [ start ↦ false | stop ↦ false | pause ↦ true ]
]

-- `saturating_add(1)` on a `u64`.
abbrev pub next_generation : ℕ → ℕ
next_generation generation = min (generation + 1) 18446744073709551615

unfoldable pub schedule :
    DurationAction
    → DurationPreset
    → ℕ
    → DurationCoordinator
    → ScheduleRequest × DurationCoordinator
schedule action duration now c =
    let generation = next_generation c.generation in
    let current : ScheduledAction = record {
      action = action;
      duration = duration;
      deadline = now + min (nanos duration) (nanos max_preset_seconds);
      generation = generation;
    } in
    (
      elim c.scheduled [ none ↦ started current | some previous ↦ replaced previous current ],
      record { scheduled = some current; generation = generation },
    )

unfoldable pub cancel : DurationCoordinator → Option ScheduledAction × DurationCoordinator
cancel c = elim c.scheduled [
  | none ↦ (none, record { scheduled = none; generation = c.generation })
  | some previous ↦
      (some previous, record { scheduled = none; generation = next_generation c.generation })
]

unfoldable pub timer_event : DurationCoordinator → ℕ → ℕ → CoordinatorTimerEvent
timer_event c generation now = elim c.scheduled [
  | none ↦ stale
  | some a ↦
      if not (generation == c.generation) || not (generation == a.generation)
      then stale
      else if remaining a now == 0
      then expired a
      else early a.action generation (remaining a now)
]

abbrev status_is_requested : Status → Bool
status_is_requested Status.requested = true
status_is_requested Status.released = false
status_is_requested Status.active = false
status_is_requested Status.warning = false
status_is_requested Status.blocked = false
status_is_requested Status.error = false
status_is_requested Status.unknown = false
status_is_requested Status.unsupported = false

unfoldable pub acquisition_is_allowed : Bool → Bool → PowerState → Bool → Bool
acquisition_is_allowed paused automatic power battery_lockout =
    not paused
    && automatic
    && status_is_requested
        (decide (record {
          enabled = true;
          profile = true;
          power = power;
          battery_lockout_enabled = battery_lockout;
        })).status

abbrev pub max_timer_interval_ms : ℕ
max_timer_interval_ms = 3600000

-- `as_millis` of a duration, held between one millisecond and an hour.
unfoldable pub timer_interval_ms : ℕ → ℕ
timer_interval_ms duration = min (max (duration / 1000000) 1) max_timer_interval_ms
