-- ===== src/Ipc/RateLimit.antt =====
-- `PidRateLimiter` of crates/tick-ipc/src/lib.rs. An `Instant` is the nanoseconds since the
-- earliest one that the platform's clock represents, so `checked_sub` fails below zero.
pub mod Eviction
pub mod Windows
pub mod Bounded
use true_tick.Base.{
  ℕ, zero, suc, ◌+◌, ◌-◌, Bool, true, false, not, ◌&&◌, ◌||◌, List, [], ◌∷◌, ◌++◌, Option, none,
  some, Result, ok, err, leb, ltb, ◌==◌, if◌then◌else◌, length, filter, is_empty,
}
use true_tick.Ipc.{IpcError, rate_limit_exceeded}

abbrev pub Instant : Type 0
Instant = ℕ

abbrev pub max_requests_per_second : ℕ
max_requests_per_second = 10

-- One second.
abbrev pub rate_limit_window : ℕ
rate_limit_window = 1000000000

abbrev pub max_tracked_pids : ℕ
max_tracked_pids = 64

pub record PidRecord : Type 0 where
  pub pid : ℕ
  pub timestamps : List Instant
  pub last_seen : Instant

-- `PidRateLimiter`, its one field.
pub record PidRateLimiter : Type 0 where
  pub records : List PidRecord

unfoldable pub new : PidRateLimiter
new = record { records = [] }

-- `now.checked_sub(RATE_LIMIT_WINDOW).unwrap_or(now)`.
unfoldable pub cutoff_at : Instant → Instant
cutoff_at now = if leb rate_limit_window now then now - rate_limit_window else now

-- Whether `r` goes before `q` in the order of eviction.
unfoldable pub seen_before : PidRecord → PidRecord → Bool
seen_before r q = ltb r.last_seen q.last_seen || (r.last_seen == q.last_seen && ltb r.pid q.pid)

-- The index that `min_by` yields: of equal records, the first.
unfoldable pub oldest_from : ℕ → PidRecord → ℕ → List PidRecord → ℕ
oldest_from best r index [] = best
oldest_from best r index (q ∷ qs) =
    if seen_before q r
    then oldest_from index q (suc index) qs
    else oldest_from best r (suc index) qs

-- `Vec::remove`.
unfoldable pub remove : ℕ → List PidRecord → List PidRecord
remove index [] = []
remove zero (r ∷ rs) = rs
remove (suc index) (r ∷ rs) = r ∷ remove index rs

unfoldable pub evict_least_recently_seen : List PidRecord → List PidRecord
evict_least_recently_seen [] = []
evict_least_recently_seen (r ∷ rs) = remove (oldest_from 0 r 1 rs) (r ∷ rs)

unfoldable pub tracks : ℕ → List PidRecord → Bool
tracks pid [] = false
tracks pid (r ∷ rs) = r.pid == pid || tracks pid rs

-- The records once the caller has one.
unfoldable pub with_record : ℕ → Instant → List PidRecord → List PidRecord
with_record pid now records =
    if tracks pid records
    then records
    else (if leb max_tracked_pids (length records)
        then evict_least_recently_seen records
        else records)
      ++ record { pid = pid; timestamps = []; last_seen = now } ∷ []

unfoldable pub recent : Instant → List Instant → List Instant
recent now timestamps = filter (λ t. ltb (cutoff_at now) t) timestamps

-- The check on the caller's record.
unfoldable pub admit : Instant → PidRecord → Result (Unit {0}) IpcError × PidRecord
admit now r =
    let kept = recent now r.timestamps in
    if leb max_requests_per_second (length kept)
    then (
      err (rate_limit_exceeded r.pid),
      record { pid = r.pid; timestamps = kept; last_seen = now },
    )
    else (ok tt, record { pid = r.pid; timestamps = kept ++ now ∷ []; last_seen = now })

-- `&mut self.records[index]`, the first record of the caller, which is there.
unfoldable pub admit_first :
    ℕ → Instant → List PidRecord → Result (Unit {0}) IpcError × List PidRecord
admit_first pid now [] = (ok tt, [])
admit_first pid now (r ∷ rs) =
    let (result, r') = admit now r in
    let (rest, rs') = admit_first pid now rs in
    if r.pid == pid then (result, r' ∷ rs) else (rest, r ∷ rs')

unfoldable pub check_and_record :
    ℕ → Instant → PidRateLimiter → Result (Unit {0}) IpcError × PidRateLimiter
check_and_record pid now limiter =
    let (result, records) = admit_first pid now (with_record pid now limiter.records) in
    (result, record { records = records })

abbrev prune : Instant → List PidRecord → List PidRecord
prune now [] = []
prune now (r ∷ rs) =
    record { pid = r.pid; timestamps = recent now r.timestamps; last_seen = r.last_seen }
    ∷ prune now rs

unfoldable pub prune_idle_callers : Instant → PidRateLimiter → PidRateLimiter
prune_idle_callers now limiter = record {
  records = filter (λ r. not (is_empty r.timestamps)) (prune now limiter.records);
}

unfoldable pub active_caller_count : PidRateLimiter → ℕ
active_caller_count limiter = length limiter.records
