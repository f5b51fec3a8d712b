-- ===== src/Platform.antt =====
-- crates/tick-platform-windows/src/lib.rs: the values that the timer adapter exchanges, and the
-- trait that the ownership controller is generic over.
pub mod Bounds
pub mod Sampling
pub mod Windows
pub mod Token
use true_tick.Base.{
  ℕ, ◌-◌, ◌^◌, Bool, true, false, ◌||◌, Option, Result, ok, err, Method, done, ltb, leb, ◌==◌,
  if◌then◌else◌, ◌>>=◌, ◌>>◌,
}
use true_tick.Base.Int.{ℤ}
use true_tick.Core.{Hns}
use Prim.Native.String.{String}

pub data KernelSettleProbeOutcome : Type 0 where
  restored external_timing : KernelSettleProbeOutcome

pub record KernelSettleProbe : Type 0 where
  pub outcome : KernelSettleProbeOutcome
  pub before_effective : Hns
  pub after_effective : Hns

-- Windows may report the two boundaries in either order.
pub record TimerBounds : Type 0 where
  pub minimum_interval : Hns
  pub maximum_interval : Hns

pub record TimerQuery : Type 0 where
  pub bounds : TimerBounds
  pub reported_current : Hns
  pub raw_status : ℤ

pub record TimerObservation : Type 0 where
  pub requested : Hns
  pub reported_current : Hns
  pub raw_status : ℤ

pub data TimerError : Type 0 where
  unsupported invalid_interval invalid_state_transition : TimerError
  query_failed request_failed release_failed : ℤ → TimerError
  postcondition_unverified : ℤ → Hns → TimerError

abbrev pub u32_max : ℕ
u32_max = 4294967295

abbrev pub hardware_timer_tolerance_hns : ℕ
hardware_timer_tolerance_hns = 100

unfoldable pub numeric_interval : TimerBounds → Hns × Hns
numeric_interval b =
    if leb b.minimum_interval b.maximum_interval
    then (b.minimum_interval, b.maximum_interval)
    else (b.maximum_interval, b.minimum_interval)

unfoldable pub smallest_supported_boundary : TimerBounds → Result Hns TimerError
unfolding numeric_interval
smallest_supported_boundary b =
    let (lower, _) = numeric_interval b in
    if lower == 0 || ltb u32_max lower then err invalid_interval else ok lower

unfoldable pub validate_interval : TimerBounds → Hns → Result (Unit {0}) TimerError
unfolding numeric_interval
validate_interval b interval =
    let (lower, upper) = numeric_interval b in
    if interval == 0 || ltb u32_max interval || ltb interval lower || ltb upper interval
    then err invalid_interval
    else ok tt

-- `validate_interval(bounds, selected)?; Ok(selected)`
abbrev validated : TimerBounds → Hns → Result Hns TimerError
validated b selected = elim (validate_interval b selected) [ ok _ ↦ ok selected | err e ↦ err e ]

-- A request of 0 asks for the smallest boundary.
unfoldable pub resolve_request : TimerQuery → Hns → Result Hns TimerError
unfolding smallest_supported_boundary validate_interval
resolve_request q requested =
    if requested == 0
    then (elim (smallest_supported_boundary q.bounds) [
      | ok selected ↦ validated q.bounds selected
      | err e ↦ err e
    ])
    else validated q.bounds requested

-- `saturating_sub` is the truncated `-`.
unfoldable pub is_satisfied : TimerObservation → Bool
is_satisfied o =
    leb o.reported_current o.requested
    || leb (o.reported_current - o.requested) hardware_timer_tolerance_hns

unfoldable pub is_finer_than_requested : TimerObservation → Bool
is_finer_than_requested o = ltb o.reported_current o.requested

-- The words that `effective_relation` returns.
pub data EffectiveRelation : Type 0 where
  finer equal satisfied unverified : EffectiveRelation

unfoldable pub effective_relation : TimerObservation → EffectiveRelation
effective_relation o =
    if ltb o.reported_current o.requested
    then finer
    else if o.reported_current == o.requested
    then equal
    else if leb (o.reported_current - o.requested) hardware_timer_tolerance_hns
    then satisfied
    else unverified

-- The trait, over the type that implements it. `set_operation_context` only feeds the log.
pub record TimerPlatform {ℓ} (P : Type ℓ) : Type ℓ where
  pub query : Hns → Method P TimerQuery TimerError
  pub resolve : Hns → Method P Hns TimerError
  pub preflight : Hns → Method P TimerQuery TimerError
  pub request : Hns → Method P TimerObservation TimerError
  pub release : Hns → Method P TimerObservation TimerError
  pub attempt_kernel_settle_probe : Hns → Method P KernelSettleProbe TimerError

-- The trait's default for `resolve`.
abbrev pub default_resolve {ℓ} :
    {P : Type ℓ} → (Hns → Method P TimerQuery TimerError) → Hns → Method P Hns TimerError
default_resolve query requested = do q ← query requested; done (resolve_request q requested)
