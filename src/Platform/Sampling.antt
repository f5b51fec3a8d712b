-- ===== src/Platform/Sampling.antt =====
-- The postcondition samples of crates/tick-platform-windows/src/lib.rs.
use true_tick.Base.{
  ℕ, zero, suc, ◌+◌, ◌-◌, ◌≤◌, ◌≡◌, List, [], ◌∷◌, ◌++◌, Option, none, some, ok, err, Bool, true,
  ◌||◌, if◌then◌else◌, ltb, leb, min, max, arith, ◌↔◌, ◌*◌, length, length-append, Method,
}
use true_tick.Core.{Hns}
use true_tick.Platform.{TimerQuery, TimerError, hardware_timer_tolerance_hns}

abbrev pub verification_sample_count : ℕ
verification_sample_count = 3

unfoldable pub median_of_three : ℕ → ℕ → ℕ → ℕ
median_of_three a b c =
    if ltb b a
    then if ltb c b then b else if ltb c a then c else a
    else if ltb c a
    then a
    else if ltb c b
    then c
    else b

unfoldable pub sample_satisfies_tolerance : ℕ → ℕ → Bool
sample_satisfies_tolerance reported requested =
    leb reported requested || leb (reported - requested) hardware_timer_tolerance_hns

-- The `match successes`: `samples` holds the successful reads in order.
unfoldable pub choose_sample : ℕ → List ℕ → Option ℕ
unfolding median_of_three sample_satisfies_tolerance
choose_sample interval [] = none
choose_sample interval (first ∷ []) = none
choose_sample interval (first ∷ second ∷ []) =
    if sample_satisfies_tolerance first interval
    then if sample_satisfies_tolerance second interval then some (min first second) else some first
    else if sample_satisfies_tolerance second interval
    then some second
    else none
choose_sample interval (first ∷ second ∷ third ∷ more) = some (median_of_three first second third)

-- `P::query` is a parameter: nothing else of the platform is used here.
module _ {ℓ} {P : Type ℓ} (query : Hns → Method P TimerQuery TimerError) where
  -- The reads that are left, after the samples so far.
  unfoldable pub collect_samples : ℕ → Hns → List ℕ → P → List ℕ × P
  collect_samples zero interval samples p = (samples, p)
  collect_samples (suc rounds) interval samples p =
      let (r, p') = query interval p in
      collect_samples rounds interval
        (elim r [ ok q ↦ samples ++ q.reported_current ∷ [] | err e ↦ samples ]) p'

  unfoldable pub sample_interval_median : Hns → P → Option ℕ × P
  unfolding collect_samples choose_sample
  sample_interval_median interval p =
      let (samples, p') = collect_samples verification_sample_count interval [] p in
      (choose_sample interval samples, p')

-- The median of three lies between the smaller and the larger of any two of them.
pub median_of_three_lem : (a b c : ℕ) → median_of_three a b c ≡ max (min a b) (min (max a b) c)
unfolding median_of_three
median_of_three_lem a b c = ground arith

-- The samples within tolerance.
abbrev pub votes : ℕ → List ℕ → ℕ
votes interval [] = 0
votes interval (x ∷ xs) =
    (if sample_satisfies_tolerance x interval then 1 else 0) + votes interval xs

choose_sample_majority :
    (interval : ℕ) (samples : List ℕ) (m : ℕ)
    → length samples ≤ 3
    → choose_sample interval samples ≡ some m
    → (sample_satisfies_tolerance m interval ≡ true) ↔ (length samples ≤ 2 * votes interval samples)
unfolding choose_sample
choose_sample_majority interval [] m l h = cc
choose_sample_majority interval (a ∷ []) m l h = cc
choose_sample_majority interval (a ∷ b ∷ []) m l h = ground arith
choose_sample_majority interval (a ∷ b ∷ c ∷ []) m l h = ground arith
choose_sample_majority interval (a ∷ b ∷ c ∷ d ∷ more) m l h = absurd (omega arith)

module _ {ℓ} {P : Type ℓ} (query : Hns → Method P TimerQuery TimerError) where
  length-collect_samples :
      (rounds : ℕ) (interval : Hns) (samples : List ℕ) (p : P)
      → length (collect_samples query rounds interval samples p).0 ≤ rounds + length samples
  unfolding collect_samples
  length-collect_samples zero interval samples p = omega arith
  length-collect_samples (suc rounds) interval samples p =
      elim (query interval p).0
        as (λ r.
          length
            (collect_samples query rounds interval
              (elim r [ ok q ↦ samples ++ q.reported_current ∷ [] | err e ↦ samples ])
              (query interval p).1).0
          ≤ suc rounds + length samples) [
            | ok q ↦ omega (
              arith,
              length-append samples (q.reported_current ∷ []),
              length-collect_samples rounds interval (samples ++ q.reported_current ∷ [])
                  (query interval p).1,
            )
            | err e ↦
                omega (arith, length-collect_samples rounds interval samples (query interval p).1)
          ]

  -- The value that the verification goes by is within tolerance exactly when at least half of the
  -- successful reads are.
  pub sample_interval_median_majority :
      (interval : Hns) (p : P) (m : ℕ)
      → (sample_interval_median query interval p).0 ≡ some m
      → let samples = (collect_samples query verification_sample_count interval [] p).0 in
        (sample_satisfies_tolerance m interval ≡ true)
        ↔ (length samples ≤ 2 * votes interval samples)
  unfolding sample_interval_median
  sample_interval_median_majority interval p m h =
      choose_sample_majority interval _ m (omega (arith, length-collect_samples 3 interval [] p)) h
