-- ===== src/Platform/Token.antt =====
-- What a client of the trait `TimerPlatform` may rely on: how the calls move the resolution request
-- (the token) that the process holds, and what an accepted request has shown.
use true_tick.Base.{◌≡◌, Bool, true, false, Result, ok, err}
use true_tick.Core.{Hns}
use true_tick.Platform.{
  TimerPlatform, TimerObservation, TimerError, postcondition_unverified, is_satisfied,
}

-- Whether the token is held `after` a request, if it was so `before`. After a failed postcondition
-- the rollback may itself have failed, and nothing is known.
abbrev pub Requested : Result TimerObservation TimerError → Bool → Bool → Type 0
Requested (ok o) before after = after ≡ true
Requested (err (postcondition_unverified s current)) before after = Unit
Requested (err e) before after = after ≡ before

abbrev pub Released : Result TimerObservation TimerError → Bool → Bool → Type 0
Released (ok o) before after = after ≡ false
Released (err e) before after = after ≡ before

-- An accepted request was for the interval asked, and its verified value is within tolerance.
abbrev pub IsFor : Hns → Result TimerObservation TimerError → Type 0
IsFor interval (ok o) = (o.requested ≡ interval) × (is_satisfied o ≡ true)
IsFor interval (err e) = Unit

pub record TokenLaws {ℓ} {P : Type ℓ} (t : TimerPlatform P) (holds : P → Bool) : Type ℓ where
  pub query_keeps : (i : Hns) (p : P) → holds (t.query i p).1 ≡ holds p
  pub resolve_keeps : (i : Hns) (p : P) → holds (t.resolve i p).1 ≡ holds p
  pub preflight_keeps : (i : Hns) (p : P) → holds (t.preflight i p).1 ≡ holds p
  pub request_moves :
      (i : Hns) (p : P) → Requested (t.request i p).0 (holds p) (holds (t.request i p).1)
  pub request_for : (i : Hns) (p : P) → IsFor i (t.request i p).0
  pub release_moves :
      (i : Hns) (p : P) → Released (t.release i p).0 (holds p) (holds (t.release i p).1)
  pub probe_frees :
      (i : Hns) (p : P) → holds p ≡ false → holds (t.attempt_kernel_settle_probe i p).1 ≡ false
