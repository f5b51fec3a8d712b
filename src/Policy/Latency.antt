-- ===== src/Policy/Latency.antt =====
-- `ResponsivenessTracker` of crates/tick-policy/src/lib.rs. A latency is a `u64`; the saturating
-- operations stop at its greatest value.
pub mod Tracking
use true_tick.Base.{
  ℕ, zero, suc, ◌+◌, ◌-◌, ◌*◌, ◌/◌, Bool, true, false, not, ◌&&◌, ◌||◌, List, [], ◌∷◌, leb, ltb,
  ◌==◌, if◌then◌else◌, min, max,
}

pub data ResponsivenessState : Type 0 where
  normal elevated degraded : ResponsivenessState

abbrev pub anomaly_factor_percent : ℕ
anomaly_factor_percent = 300

abbrev pub anomaly_absolute_floor_ms : ℕ
anomaly_absolute_floor_ms = 250

abbrev pub escalate_consecutive_samples : ℕ
escalate_consecutive_samples = 3

abbrev pub recover_consecutive_samples : ℕ
recover_consecutive_samples = 5

abbrev pub worsening_factor_percent : ℕ
worsening_factor_percent = 200

abbrev pub saturate_u64 : ℕ → ℕ
saturate_u64 n = min n 18446744073709551615

abbrev pub saturate_u32 : ℕ → ℕ
saturate_u32 n = min n 4294967295

pub record ResponsivenessTracker : Type 0 where
  pub baseline_ms : ℕ
  pub worst_ms : ℕ
  pub anomalous_streak : ℕ
  pub clean_streak : ℕ
  pub seeded : Bool
  pub state : ResponsivenessState

unfoldable pub new : ResponsivenessTracker
new = record {
  baseline_ms = 0;
  worst_ms = 0;
  anomalous_streak = 0;
  clean_streak = 0;
  seeded = false;
  state = normal;
}

-- The first sample is the first baseline.
unfoldable pub seed : ℕ → ResponsivenessTracker → ResponsivenessTracker
seed latency_ms t =
    if not t.seeded
    then record {
      baseline_ms = latency_ms;
      worst_ms = t.worst_ms;
      anomalous_streak = t.anomalous_streak;
      clean_streak = t.clean_streak;
      seeded = true;
      state = t.state;
    }
    else t

unfoldable pub threshold : ℕ → ℕ
threshold baseline_ms =
    max (saturate_u64 (baseline_ms * anomaly_factor_percent) / 100) anomaly_absolute_floor_ms

unfoldable pub observe_anomalous : ℕ → ResponsivenessTracker → ResponsivenessTracker
observe_anomalous latency_ms t =
    let worsening =
      not (t.worst_ms == 0)
      && leb (saturate_u64 (t.worst_ms * worsening_factor_percent) / 100) latency_ms in
    let streak = saturate_u32 (t.anomalous_streak + 1) in
    record {
      baseline_ms = t.baseline_ms;
      worst_ms = max t.worst_ms latency_ms;
      anomalous_streak = streak;
      clean_streak = 0;
      seeded = t.seeded;
      state = if worsening || leb escalate_consecutive_samples streak then degraded else elevated;
    }

-- `1 << LATENCY_BASELINE_SHIFT` is 8.
unfoldable pub observe_clean : ℕ → ResponsivenessTracker → ResponsivenessTracker
observe_clean latency_ms t =
    let streak = saturate_u32 (t.clean_streak + 1) in
    let recovered = leb recover_consecutive_samples streak in
    record {
      baseline_ms = saturate_u64 (saturate_u64 (t.baseline_ms * 7) + latency_ms) / 8;
      worst_ms = if recovered then 0 else t.worst_ms;
      anomalous_streak = 0;
      clean_streak = streak;
      seeded = t.seeded;
      state = if recovered then normal else t.state;
    }

unfoldable pub is_anomalous : ℕ → ResponsivenessTracker → Bool
is_anomalous latency_ms t = ltb (threshold (seed latency_ms t).baseline_ms) latency_ms

unfoldable pub observe : ℕ → ResponsivenessTracker → ResponsivenessTracker
observe latency_ms t =
    if is_anomalous latency_ms t
    then observe_anomalous latency_ms (seed latency_ms t)
    else observe_clean latency_ms (seed latency_ms t)
