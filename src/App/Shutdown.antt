-- ===== src/App/Shutdown.antt =====
-- apps/true-tick/src/shutdown.rs: how the message loop ends, and the gate before the process exits.
use true_tick.Base.{
  ℕ, suc, ◌+◌, ◌≤◌, ◌≡◌, ◌⊎◌, inl, inr, refl, Bool, true, false, ◌&&◌, List, [], ◌∷◌, Option, none,
  some, Result, ok, err, Method, min, leb, if◌then◌else◌, arith, length, ◌==◌,
}
use true_tick.Base.Int.{ℤ, pos, negsuc}

pub data MessageLoopExit : Type 0 where
  normal_quit : MessageLoopExit
  get_message_failed : ℕ → MessageLoopExit

unfoldable pub message_loop_exit : ℤ → ℕ → Option MessageLoopExit
message_loop_exit (pos n) raw_error = if n == 0 then some normal_quit else none
message_loop_exit (negsuc n) raw_error =
    if n == 0 then some (get_message_failed raw_error) else none

pub data ShutdownDisposition : Type 0 where
  complete exit_after_message_loop_error keep_alive_for_retry : ShutdownDisposition
  exit_with_unresolved_cleanup : ShutdownDisposition

abbrev is_normal_quit : MessageLoopExit → Bool
is_normal_quit normal_quit = true
is_normal_quit (get_message_failed raw_error) = false

unfoldable pub shutdown_disposition : MessageLoopExit → Bool → Bool → ShutdownDisposition
shutdown_disposition loop_exit cleanup_verified ui_usable =
    if cleanup_verified
    then (if is_normal_quit loop_exit then complete else exit_after_message_loop_error)
    else if is_normal_quit loop_exit && ui_usable
    then keep_alive_for_retry
    else exit_with_unresolved_cleanup

unfoldable pub shutdown_pump_bound_exceeded : ℕ → ℕ → Bool
shutdown_pump_bound_exceeded monotonic_elapsed_ms bound_ms = leb bound_ms monotonic_elapsed_ms

pub record ShutdownGate : Type 0 where
  pub verified : Bool
  pub attempts : ℕ

unfoldable pub new : ShutdownGate
new = record { verified = false; attempts = 0 }

-- The cleanup is a method on a world of its own.
unfoldable pub attempt {ℓ κ} :
    {W : Type ℓ} {E : Type κ} → Method W (Unit {0}) E → Method (ShutdownGate × W) (Unit {0}) E
attempt cleanup (gate, w) =
    if gate.verified
    then (ok tt, (gate, w))
    else (let attempts = min (gate.attempts + 1) 4294967295 in
        let (result, w') = cleanup w in
        elim result [
          | ok u ↦ (ok tt, (record { verified = true; attempts = attempts }, w'))
          | err e ↦ (err e, (record { verified = false; attempts = attempts }, w'))
        ])

Result-cases {κ} : {E : Type κ} (r : Result (Unit {0}) E) → (r ≡ ok tt) ⊎ ((e : E) × (r ≡ err e))
Result-cases (ok u) = inl refl
Result-cases (err e) = inr (e, refl)

abbrev counted {ℓ κ} :
    {W : Type ℓ} {E : Type κ} → Result (Unit {0}) E → W → ℕ × W × Bool → ℕ × W × Bool
counted (ok u) w rest = (1, w, true)
counted (err e) w (n, w', b) = (suc n, w', b)

module _ {ℓ κ} {W : Type ℓ} {E : Type κ} where
  -- The gate and the world after attempts with each cleanup in turn.
  unfoldable pub attempt_all : List (Method W (Unit {0}) E) → ShutdownGate × W → ShutdownGate × W
  attempt_all [] s = s
  attempt_all (cleanup ∷ rest) s = attempt_all rest (attempt cleanup s).1

  -- The cleanups up to the first that succeeds: their number, the world they leave, and whether
  -- one succeeded.
  unfoldable pub until_success : List (Method W (Unit {0}) E) → W → ℕ × W × Bool
  until_success [] w = (0, w, false)
  until_success (cleanup ∷ rest) w =
      counted (cleanup w).0 (cleanup w).1 (until_success rest (cleanup w).1)

  closed :
      (cleanups : List (Method W (Unit {0}) E)) (n : ℕ) (w : W)
      → attempt_all cleanups (record { verified = true; attempts = n }, w)
        ≡ (record { verified = true; attempts = n }, w)
  unfolding attempt_all attempt
  closed [] n w = refl
  closed (cleanup ∷ rest) n w = closed rest n w

  opened :
      (cleanups : List (Method W (Unit {0}) E)) (n : ℕ) (w : W)
      → n + length cleanups ≤ 4294967295
      → attempt_all cleanups (record { verified = false; attempts = n }, w) ≡ (
        record {
          verified = (until_success cleanups w).2;
          attempts = n + (until_success cleanups w).0;
        },
        (until_success cleanups w).1,
      )
  unfolding attempt_all attempt until_success
  opened [] n w h = let e : n + 0 ≡ n = omega arith in rw e
  opened (cleanup ∷ rest) n w h =
      let unsaturated : min (n + 1) 4294967295 ≡ n + 1 = omega arith in
      elim (Result-cases (cleanup w).0) [
        | inl e ↦ rw (e, unsaturated) (closed rest (n + 1) (cleanup w).1)
        | inr (x, e) ↦
            let more : n + 1 + (until_success rest (cleanup w).1).0
                ≡ n + suc (until_success rest (cleanup w).1).0 =
              omega arith in
            rw (e, unsaturated, ← more) (opened rest (n + 1) (cleanup w).1 (omega arith))
      ]

  -- Attempts through the gate run the cleanups up to the first that succeeds and none after it:
  -- the world, the count and the verified flag are those of that prefix, for fewer than 2 ^ 32
  -- cleanups.
  pub attempt_all-until_success :
      (cleanups : List (Method W (Unit {0}) E)) (w : W)
      → length cleanups ≤ 4294967295
      → attempt_all cleanups (new, w) ≡ (
        record { verified = (until_success cleanups w).2; attempts = (until_success cleanups w).0 },
        (until_success cleanups w).1,
      )
  unfolding new
  attempt_all-until_success cleanups w h =
      let zero_first : 0 + (until_success cleanups w).0 ≡ (until_success cleanups w).0 =
        omega arith in
      rw zero_first at (opened cleanups 0 w (omega arith))
