-- ===== src/Platform/Bounds.antt =====
-- Which intervals the adapter accepts: `TimerBounds`, `TimerQuery`, `TimerObservation` and
-- `validate_interval` of crates/tick-platform-windows/src/lib.rs.
use true_tick.Base.{◌≤◌, ◌<◌, ◌≡◌, ◌↔◌, false, ok, err, arith, min, max, if◌then◌else◌, ◌==◌}
use true_tick.Core.{Hns}
use true_tick.Platform.{
  TimerBounds, TimerQuery, TimerObservation, validate_interval, resolve_request, is_satisfied,
  effective_relation, u32_max, invalid_interval, TimerError, unverified,
}

-- What a request selects: the smaller boundary for the automatic request 0, else itself.
abbrev pub wanted : TimerBounds → Hns → Hns
wanted b requested = if requested == 0 then min b.minimum_interval b.maximum_interval else requested

-- The intervals that the native call accepts.
pub record IsSupported (b : TimerBounds) (interval : Hns) : Type 0 where
  pub positive : 0 < interval
  pub fits_u32 : interval ≤ u32_max
  pub above : min b.minimum_interval b.maximum_interval ≤ interval
  pub below : interval ≤ max b.minimum_interval b.maximum_interval

pub validate_interval-IsSupported :
    (b : TimerBounds) (interval : Hns)
    → validate_interval b interval ≡ ok tt
    → IsSupported b interval
unfolding validate_interval
validate_interval-IsSupported b interval h = ground arith

pub resolve_request-ok :
    (q : TimerQuery) (requested selected : Hns)
    → resolve_request q requested ≡ ok selected
    → (selected ≡ wanted q.bounds requested) × IsSupported q.bounds selected
unfolding resolve_request
resolve_request-ok q requested selected h = ground arith

resolve_request-of_supported :
    (q : TimerQuery) (requested selected : Hns)
    → (selected ≡ wanted q.bounds requested) × IsSupported q.bounds selected
    → resolve_request q requested ≡ ok selected
unfolding resolve_request
resolve_request-of_supported q requested selected h = ground arith

-- A request resolves to an interval exactly when that is the interval wanted (the smaller boundary
-- for 0) and it is positive, fits 32 bits and lies between the boundaries in either order.
pub resolve_request_iff :
    (q : TimerQuery) (requested selected : Hns)
    → (resolve_request q requested ≡ ok selected)
      ↔ ((selected ≡ wanted q.bounds requested) × IsSupported q.bounds selected)
resolve_request_iff q requested selected =
    (resolve_request-ok q requested selected, resolve_request-of_supported q requested selected)

pub resolve_request_error :
    (q : TimerQuery) (requested : Hns) {e : TimerError}
    → resolve_request q requested ≡ err e
    → e ≡ invalid_interval
unfolding resolve_request
resolve_request_error q requested h = ground arith

abbrev reversed : TimerQuery → TimerQuery
reversed q = record q {
  bounds = record {
    minimum_interval = q.bounds.maximum_interval;
    maximum_interval = q.bounds.minimum_interval;
  };
}

pub resolve_request-reversed :
    (q : TimerQuery) (requested : Hns)
    → resolve_request (reversed q) requested ≡ resolve_request q requested
unfolding resolve_request
resolve_request-reversed q requested = ground arith

pub effective_relation_unverified :
    (o : TimerObservation) → (effective_relation o ≡ unverified) ↔ (is_satisfied o ≡ false)
unfolding effective_relation is_satisfied
effective_relation_unverified o = ground arith
