-- ===== src/Diagnostics/Labels.antt =====
-- crates/tick-diagnostics/src/lib.rs: the words shown for a status, a phase, a source, an outcome
-- and a category, and the category of an event's name.
use true_tick.Base.{◌||◌, if◌then◌else◌}
use true_tick.Base.Text.{Text, codes, to_ascii_lowercase, starts_with, contains}
use true_tick.Core.{Status}
use true_tick.Diagnostics.{EventCategory, DiagnosticPhase, DiagnosticSource, DiagnosticOutcome}

unfoldable pub status_label : Status → Text
status_label Status.released = codes "Released"
status_label Status.active = codes "Active"
status_label Status.requested = codes "Requested"
status_label Status.warning = codes "Warning"
status_label Status.blocked = codes "Blocked"
status_label Status.error = codes "Error"
status_label Status.unknown = codes "Unknown"
status_label Status.unsupported = codes "Unsupported"

pub data Evidence : Type 0 where
  not_collected unsupported inconclusive : Evidence

unfoldable pub evidence_label : Evidence → Text
evidence_label Evidence.not_collected = codes "NotCollected"
evidence_label Evidence.unsupported = codes "Unsupported"
evidence_label Evidence.inconclusive = codes "Inconclusive"

unfoldable pub phase_label : DiagnosticPhase → Text
phase_label DiagnosticPhase.begin = codes "Begin"
phase_label DiagnosticPhase.observe = codes "Observe"
phase_label DiagnosticPhase.decide = codes "Decide"
phase_label DiagnosticPhase.acquire = codes "Acquire"
phase_label DiagnosticPhase.release = codes "Release"
phase_label DiagnosticPhase.verify = codes "Verify"
phase_label DiagnosticPhase.handoff = codes "Handoff"
phase_label DiagnosticPhase.timer = codes "Timer"
phase_label DiagnosticPhase.render = codes "Render"
phase_label DiagnosticPhase.persist = codes "Persist"
phase_label DiagnosticPhase.shutdown = codes "Shutdown"
phase_label DiagnosticPhase.complete = codes "Complete"

unfoldable pub source_label : DiagnosticSource → Text
source_label DiagnosticSource.tray_command = codes "TrayCommand"
source_label DiagnosticSource.power_event = codes "PowerEvent"
source_label DiagnosticSource.startup = codes "Startup"
source_label DiagnosticSource.pause = codes "Pause"
source_label DiagnosticSource.resume = codes "Resume"
source_label DiagnosticSource.handoff = codes "Handoff"
source_label DiagnosticSource.shutdown = codes "Shutdown"
source_label DiagnosticSource.policy = codes "Policy"
source_label DiagnosticSource.ownership = codes "Ownership"
source_label DiagnosticSource.platform = codes "Platform"
source_label DiagnosticSource.native = codes "Native"
source_label DiagnosticSource.timer = codes "Timer"
source_label DiagnosticSource.diagnostic = codes "Diagnostic"
source_label DiagnosticSource.internal = codes "Internal"

unfoldable pub outcome_label : DiagnosticOutcome → Text
outcome_label DiagnosticOutcome.in_progress = codes "InProgress"
outcome_label DiagnosticOutcome.completed = codes "Completed"
outcome_label DiagnosticOutcome.degraded = codes "Degraded"
outcome_label DiagnosticOutcome.failed = codes "Failed"
outcome_label DiagnosticOutcome.cancelled = codes "Cancelled"
outcome_label DiagnosticOutcome.suppressed = codes "Suppressed"
outcome_label DiagnosticOutcome.timed_out = codes "TimedOut"
outcome_label DiagnosticOutcome.unverified = codes "Unverified"

unfoldable pub category_label : EventCategory → Text
category_label EventCategory.startup = codes "Startup"
category_label EventCategory.timer = codes "Timer"
category_label EventCategory.power = codes "Power"
category_label EventCategory.ui = codes "UI"
category_label EventCategory.schedule = codes "Schedule"
category_label EventCategory.system = codes "System"

unfoldable pub from_event_name : Text → EventCategory
from_event_name name =
    let lower = to_ascii_lowercase name in
    if starts_with (codes "startup") lower
      || starts_with (codes "lifecycle") lower
      || starts_with (codes "portable") lower
      || starts_with (codes "config") lower
      || contains (codes "single_instance") lower
      || contains (codes "slot") lower
    then EventCategory.startup
    else (if starts_with (codes "timer") lower
          || starts_with (codes "ownership") lower
          || starts_with (codes "handoff") lower
          || starts_with (codes "verification") lower
          || starts_with (codes "resolution") lower
        then EventCategory.timer
        else (if starts_with (codes "power") lower
              || contains (codes "battery") lower
              || contains (codes "ac_online") lower
            then EventCategory.power
            else (if starts_with (codes "ui") lower
                  || starts_with (codes "tray") lower
                  || starts_with (codes "menu") lower
                  || starts_with (codes "command") lower
                  || starts_with (codes "window") lower
                  || starts_with (codes "grid") lower
                then EventCategory.ui
                else (if starts_with (codes "schedule") lower
                      || starts_with (codes "duration") lower
                      || starts_with (codes "pause") lower
                      || starts_with (codes "cancel") lower
                    then EventCategory.schedule
                    else EventCategory.system))))
