-- ===== src/Platform/Windows.antt =====
-- crates/tick-platform-windows/src/lib.rs, `WindowsTimerPlatform` as it is built on Windows. The
-- two native calls of ntdll are a parameter over the state `K` of the kernel. The fields
-- `diagnostics` and `operation_context`, and the calls of `log`, only feed the diagnostic store.
pub mod Token
use true_tick.Base.{
  ℕ, ◌≤◌, Bool, true, false, not, ◌||◌, Option, none, some, Result, ok, err, Method, done, leb, ltb,
  if◌then◌else◌, ◌>>=◌, ◌>>◌,
}
use true_tick.Base.Int.{ℤ, pos, is_zero}
use true_tick.Core.{Hns}
use true_tick.Platform.{
  TimerPlatform, TimerQuery, TimerObservation, TimerBounds, TimerError, KernelSettleProbe, restored,
  external_timing, invalid_interval, query_failed, request_failed, release_failed,
  postcondition_unverified, validate_interval, default_resolve, is_satisfied, u32_max,
}
use true_tick.Platform.Sampling.{sample_interval_median}

-- What `NtQueryTimerResolution` returns: its status and its three outputs.
pub record NtResolution : Type 0 where
  pub status : ℤ
  pub minimum_resolution : ℕ
  pub maximum_resolution : ℕ
  pub current_resolution : ℕ

-- The native calls. `nt_set desired set` returns the status and the current resolution.
pub record Kernel {ℓ} (K : Type ℓ) : Type ℓ where
  pub nt_query : K → NtResolution × K
  pub nt_set : ℕ → Bool → K → (ℤ × ℕ) × K

pub record WindowsTimerPlatform {ℓ} (K : Type ℓ) : Type ℓ where
  pub requested : Option Hns
  pub kernel : K

abbrev pub status_success : ℤ
status_success = pos 0

unfoldable pub native_desired : Hns → Result ℕ TimerError
native_desired interval = if leb interval u32_max then ok interval else err invalid_interval

abbrev pub is_none {ℓ} : {A : Type ℓ} → Option A → Bool
is_none none = true
is_none (some a) = false

abbrev pub value_or {ℓ} : {A : Type ℓ} → Option A → A → A
value_or none d = d
value_or (some a) d = a

module _ {ℓ} {K : Type ℓ} (nt : Kernel K) where
  abbrev Self : Type ℓ
  Self = WindowsTimerPlatform K

  unfoldable pub query_resolution : Method Self (TimerBounds × Hns) TimerError
  query_resolution p =
      let (r, k) = nt.nt_query p.kernel in
      (
        if is_zero r.status
            then ok (
              record {
                minimum_interval = r.minimum_resolution;
                maximum_interval = r.maximum_resolution;
              },
              r.current_resolution,
            )
            else err (query_failed r.status),
        record p { kernel = k },
      )

  unfoldable pub query_current_resolution : Method Self Hns TimerError
  unfolding query_resolution
  query_current_resolution = do r ← query_resolution; done (ok r.1)

  abbrev set_resolution : ℕ → Bool → Method Self (ℤ × ℕ) TimerError
  set_resolution desired set p =
      let (r, k) = nt.nt_set desired set p.kernel in (ok r, record p { kernel = k })

  abbrev track : Option Hns → Method Self (Unit {0}) TimerError
  track requested p = (ok tt, record p { requested = requested })

  unfoldable pub query : Hns → Method Self TimerQuery TimerError
  unfolding query_resolution
  query interval = do
    r ← query_resolution
    done (ok (record { bounds = r.0; reported_current = r.1; raw_status = status_success }))

  unfoldable pub preflight : Hns → Method Self TimerQuery TimerError
  unfolding query
  preflight interval = do
    q ← query interval
    done (validate_interval q.bounds interval)
    done (ok q)

  -- The postcondition: the samples decide, and a request that fails it is rolled back. The
  -- status of the rollback is only logged.
  unfoldable pub verify_request : Hns → ℕ → ℤ → ℕ → Method Self TimerObservation TimerError
  verify_request interval desired status current p =
      let (sampled, p') = sample_interval_median query interval p in
      let observation : TimerObservation = record {
        requested = interval;
        reported_current = value_or sampled current;
        raw_status = status;
      } in
      let tracked = record p' { requested = some interval } in
      if is_none sampled || not (is_satisfied observation)
      then (do
        _ ← set_resolution desired false
        track none
        done (err (postcondition_unverified status observation.reported_current)))
          tracked
      else (ok observation, tracked)

  unfoldable pub request : Hns → Method Self TimerObservation TimerError
  unfolding preflight native_desired verify_request
  request interval = do
    _ ← preflight interval
    desired ← done (native_desired interval)
    r ← set_resolution desired true
    (if is_zero r.0
        then verify_request interval desired r.0 r.1
        else done (err (request_failed r.0)))

  unfoldable pub apply_release_outcome : Hns → ℤ → Hns → Method Self TimerObservation TimerError
  apply_release_outcome interval status effective =
      if is_zero status
      then (do
        track none
        done (
            ok
              (record { requested = interval; reported_current = effective; raw_status = status })))
      else done (err (release_failed status))

  unfoldable pub release : Hns → Method Self TimerObservation TimerError
  unfolding native_desired apply_release_outcome
  release interval = do
    desired ← done (native_desired interval)
    r ← set_resolution desired false
    apply_release_outcome interval r.0 r.1

  abbrev probe_result : Hns → Hns → Method Self KernelSettleProbe TimerError
  probe_result before after =
      if ltb before after
      then (do
        track none
        done (
            ok (record { outcome = restored; before_effective = before; after_effective = after })))
      else done (
          ok (record {
            outcome = external_timing;
            before_effective = before;
            after_effective = after;
          }))

  unfoldable pub attempt_kernel_settle_probe : Hns → Method Self KernelSettleProbe TimerError
  unfolding native_desired query_current_resolution
  attempt_kernel_settle_probe interval = do
    before ← query_current_resolution
    desired ← done (native_desired interval)
    r ← set_resolution desired false
    done (if is_zero r.0 then ok tt else err (release_failed r.0))
    after ← query_current_resolution
    probe_result before after

  -- The implementation of the trait.
  unfoldable pub windows_platform : TimerPlatform Self
  unfolding query preflight request release attempt_kernel_settle_probe
  windows_platform = record {
    query = query;
    resolve = default_resolve query;
    preflight = preflight;
    request = request;
    release = release;
    attempt_kernel_settle_probe = attempt_kernel_settle_probe;
  }
