-- ===== src/Core.antt =====
-- crates/tick-core/src/lib.rs: the domain types and the queue of the latest intent.
use true_tick.Base.{ℕ, Option, none, some}

-- `Hns(u64)`: a duration in units of 100 nanoseconds. A value stands below 2 ^ 64.
abbrev pub Hns : Type 0
Hns = ℕ

abbrev pub hns_per_millisecond : ℕ
hns_per_millisecond = 10000

pub data Status : Type 0 where
  released active requested warning blocked error unknown unsupported : Status

pub data DesiredIntent : Type 0 where
  acquire release : DesiredIntent

pub data CoreError : Type 0 where
  invalid_lifecycle_transition unsupported : CoreError
  observation_failed : ℕ → CoreError

-- `DesiredIntentQueue`, its one field.
pub record DesiredIntentQueue : Type 0 where
  pub pending : Option DesiredIntent

unfoldable pub empty_queue : DesiredIntentQueue
empty_queue = record { pending = none }

unfoldable pub request : DesiredIntentQueue → DesiredIntent → DesiredIntentQueue
request q intent = record { pending = some intent }

unfoldable pub take_intent : DesiredIntentQueue → Option DesiredIntent × DesiredIntentQueue
take_intent q = (q.pending, record { pending = none })
