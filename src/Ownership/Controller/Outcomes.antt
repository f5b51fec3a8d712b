-- ===== src/Ownership/Controller/Outcomes.antt =====
-- What `start`, `stop` and the startup probe return, and the state that they leave.
use true_tick.Base.{
  ℕ, ◌+◌, ◌≤◌, ◌<◌, ◌≡◌, ◌≢◌, ◌⊎◌, Bool, true, false, Option, none, some, Result, ok, err, arith,
}
use true_tick.Core.{Hns}
use true_tick.Platform.{
  TimerPlatform, TimerObservation, TimerError, invalid_interval, postcondition_unverified,
  is_satisfied,
}
use true_tick.Platform.Token.{TokenLaws}
use true_tick.Ownership.{
  released, owned, uncertain, Verification, not_collected, verification_for_observation,
  SettleProbeStep, not_applicable, retry, settled, resolved, external_client_confirmed, exhausted,
}
use true_tick.Ownership.Controller.{
  TimerController, start, acquire, stop, clamp_requested_interval_floor,
  attempt_startup_kernel_settle_probe,
}
use true_tick.Ownership.Controller.Invariant.{IsCoherent}

-- The request is for the selected interval and within tolerance, and the verification tells whether
-- the value observed is finer.
abbrev pub Accepted : Option TimerObservation → Option Hns → Verification → Type 0
Accepted none selected v = ⊥
Accepted (some o) selected v =
    (selected ≡ some o.requested) × (is_satisfied o ≡ true) × (v ≡ verification_for_observation o)

-- What a call of `start` on a released controller amounts to.
abbrev pub Started {ℓ} : {P : Type ℓ} → Result Verification TimerError → TimerController P → Type 0
Started (ok v) c =
    (c.ownership.state ≡ owned)
    × (c.verification ≡ v)
    × Accepted c.observation c.selected_interval v
Started (err (postcondition_unverified status current)) c =
    (c.ownership.state ≡ released)
    ⊎ ((c.ownership.state ≡ uncertain)
        × (c.verification ≡ Verification.unverified)
        × (c.snapshot.effective ≡ some current))
Started (err e) c = c.ownership.state ≡ released

-- What a call of `stop` amounts to. A failed release only marks the verification.
abbrev pub Stopped {ℓ} :
    {P : Type ℓ}
    → (P → Bool)
    → TimerController P
    → Result Bool TimerError
    → TimerController P
    → Type 0
Stopped holds c (ok false) d = (c.ownership.state ≡ released) × (d.ownership.state ≡ released)
Stopped holds c (ok true) d =
    (c.ownership.state ≢ released)
    × (d.ownership.state ≡ released)
    × (holds d.platform ≡ false)
    × (d.verification ≡ not_collected)
    × (d.release_boundary ≡ c.selected_interval)
    × (d.selected_interval ≡ none)
Stopped holds c (err e) d =
    (c.ownership.state ≢ released)
    × (d.ownership.state ≡ c.ownership.state)
    × (holds d.platform ≡ holds c.platform)
    × (d.verification ≡ Verification.unverified)
    × (d.selected_interval ≡ c.selected_interval)

-- What an attempt of the startup probe amounts to, by the attempts used before it.
abbrev pub Probed : ℕ → SettleProbeStep → Type 0
Probed attempts_used not_applicable = Unit
Probed attempts_used (retry budget) = (0 < budget) × (attempts_used + 1 + budget ≡ 3)
Probed attempts_used (settled (resolved freed)) = (0 < freed) × (attempts_used < 3)
Probed attempts_used (settled external_client_confirmed) = Unit
Probed attempts_used (settled exhausted) = 2 ≤ attempts_used

module _ {ℓ} {P : Type ℓ} (t : TimerPlatform P) (holds : P → Bool) (laws : TokenLaws t holds) where
  acquire-Started :
      (c : TimerController P)
      → c.ownership.state ≡ released
      → Started (acquire t c).0 (acquire t c).1
  unfolding acquire
  acquire-Started c r = grind (arith, laws.request_for)

  -- Start on a coherent, released controller owns a verified request for the selected interval, or
  -- reports an error and is released, or uncertain after an unverified postcondition.
  pub start-Started :
      (c : TimerController P)
      → IsCoherent c
      → c.ownership.state ≡ released
      → Started (start t c).0 (start t c).1
  unfolding start
  start-Started c h r = ground (arith, acquire-Started c r, h.released_verification r)

  -- Stop on a coherent controller leaves it as it is where it is released, else drops the request
  -- and remembers the interval, or keeps ownership, selection and request when the platform
  -- refuses.
  pub stop-Stopped :
      (c : TimerController P)
      → IsCoherent c
      → Stopped holds c (stop t c).0 (stop t c).1
        × ((c.ownership.state ≢ released) ⊎ (stop t c ≡ (ok false, c)))
  unfolding stop
  stop-Stopped c h = (grind (arith, laws.release_moves), ground arith)

module _ {ℓ} {P : Type ℓ} (t : TimerPlatform P) where
  start_again :
      (c d : TimerController P) (v : Verification) → start t c ≡ (ok v, d) → start t d ≡ (ok v, d)
  unfolding start
  start_again c d v h = ground arith

  stop_again :
      (c d : TimerController P) (b : Bool) → stop t c ≡ (ok b, d) → stop t d ≡ (ok false, d)
  unfolding stop
  stop_again c d b h = ground arith

  -- A start or stop that follows one that succeeded changes nothing; the second start returns the
  -- same verification and the second stop reports false.
  pub repeated_calls :
      (c d : TimerController P)
      → ((v : Verification) → start t c ≡ (ok v, d) → start t d ≡ (ok v, d))
        × ((b : Bool) → stop t c ≡ (ok b, d) → stop t d ≡ (ok false, d))
  repeated_calls c d = (start_again c d, stop_again c d)

  -- Where a request is held and the floor is raised above its selected interval, the next stop
  -- fails with InvalidInterval before it reaches the platform.
  pub clamp_strands :
      (c : TimerController P) (floor value : Hns)
      → c.ownership.state ≢ released
      → c.selected_interval ≡ some value
      → value < floor
      → stop t (clamp_requested_interval_floor floor c)
        ≡ (err invalid_interval, clamp_requested_interval_floor floor c)
  unfolding stop clamp_requested_interval_floor
  clamp_strands c floor value held s l = ground arith

  -- An attempt of the startup probe asks for a retry only while fewer than three are used and with
  -- one less left, so that three attempts settle it; it frees a positive amount where it resolves.
  pub attempt_startup_kernel_settle_probe-Probed :
      (n : ℕ) (c : TimerController P) → Probed n (attempt_startup_kernel_settle_probe t n c).0
  unfolding attempt_startup_kernel_settle_probe
  attempt_startup_kernel_settle_probe-Probed n c = ground arith
