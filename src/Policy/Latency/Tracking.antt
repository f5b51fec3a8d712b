-- ===== src/Policy/Latency/Tracking.antt =====
-- What the tracker of crates/tick-policy/src/lib.rs holds after any samples.
use true_tick.Base.{
  ℕ, ◌+◌, ◌≤◌, ◌<◌, ◌≡◌, ◌⊎◌, inl, inr, refl, Bool, true, false, List, [], ◌∷◌, arith, Bool-cases,
  All,
}
use true_tick.Policy.Latency.{
  ResponsivenessState, normal, elevated, degraded, ResponsivenessTracker, new, seed, observe,
  observe_anomalous, observe_clean, is_anomalous, threshold, saturate_u32,
}

abbrev pub is_normal : ResponsivenessState → Bool
is_normal normal = true
is_normal elevated = false
is_normal degraded = false

abbrev pub is_degraded : ResponsivenessState → Bool
is_degraded normal = false
is_degraded elevated = false
is_degraded degraded = true

-- `greatest` bounds the latencies so far.
pub record IsTracking (greatest : ℕ) (t : ResponsivenessTracker) : Type 0 where
  pub baseline : t.baseline_ms ≤ greatest
  pub worst_bound : t.worst_ms ≤ greatest
  pub calm : is_normal t.state ≡ true → t.worst_ms ≡ 0
  pub alarmed : is_normal t.state ≡ false → 250 < t.worst_ms
  pub one_streak : (t.anomalous_streak ≡ 0) ⊎ (t.clean_streak ≡ 0)
  pub escalated : 3 ≤ t.anomalous_streak → is_degraded t.state ≡ true
  pub recovered : 5 ≤ t.clean_streak → is_normal t.state ≡ true
  pub anomalous : 0 < t.anomalous_streak → is_normal t.state ≡ false

seed-IsTracking :
    (greatest latency : ℕ) (t : ResponsivenessTracker)
    → latency ≤ greatest
    → IsTracking greatest t
    → IsTracking greatest (seed latency t)
unfolding seed
seed-IsTracking greatest latency t small h = elim (Bool-cases t.seeded) [
  | inl e ↦ rw e (record {
    baseline = h.baseline;
    worst_bound = h.worst_bound;
    calm = h.calm;
    alarmed = h.alarmed;
    one_streak = h.one_streak;
    escalated = h.escalated;
    recovered = h.recovered;
    anomalous = h.anomalous;
  })
  | inr e ↦ rw e (record {
    baseline = small;
    worst_bound = h.worst_bound;
    calm = h.calm;
    alarmed = h.alarmed;
    one_streak = h.one_streak;
    escalated = h.escalated;
    recovered = h.recovered;
    anomalous = h.anomalous;
  })
]

anomalous-IsTracking :
    (greatest latency : ℕ) (t : ResponsivenessTracker)
    → latency ≤ greatest
    → threshold t.baseline_ms < latency
    → IsTracking greatest t
    → IsTracking greatest (observe_anomalous latency t)
unfolding observe_anomalous threshold
anomalous-IsTracking greatest latency t small over h = record {
  baseline = h.baseline;
  worst_bound = omega (arith, h.worst_bound);
  calm = λ e. ground arith;
  alarmed = λ e. omega arith;
  one_streak = inr refl;
  escalated = λ e. ground arith;
  recovered = λ e. absurd (omega arith);
  anomalous = λ e. ground arith;
}

clean-IsTracking :
    (greatest latency : ℕ) (t : ResponsivenessTracker)
    → latency ≤ greatest
    → IsTracking greatest t
    → IsTracking greatest (observe_clean latency t)
unfolding observe_clean
clean-IsTracking greatest latency t small h = record {
  baseline = omega (arith, h.baseline);
  worst_bound = ground (arith, h.worst_bound);
  calm = λ e. ground (arith, h.calm);
  alarmed = λ e. ground (arith, h.alarmed);
  one_streak = inl refl;
  escalated = λ e. absurd (omega arith);
  recovered = λ e. ground arith;
  anomalous = λ e. absurd (omega arith);
}

-- The tracker after samples of at most `greatest`.
unfoldable pub observe_all : List ℕ → ResponsivenessTracker → ResponsivenessTracker
observe_all [] t = t
observe_all (latency ∷ rest) t = observe_all rest (observe latency t)

observe-IsTracking :
    (greatest latency : ℕ) (t : ResponsivenessTracker)
    → latency ≤ greatest
    → IsTracking greatest t
    → IsTracking greatest (observe latency t)
unfolding observe is_anomalous
observe-IsTracking greatest latency t small h =
    let seeded = seed-IsTracking greatest latency t small h in
    elim (Bool-cases (is_anomalous latency t)) [
      | inl e ↦
          rw e (
            anomalous-IsTracking greatest latency (seed latency t) small (ground (arith, e)) seeded)
      | inr e ↦ rw e (clean-IsTracking greatest latency (seed latency t) small seeded)
    ]

observe_all-IsTracking :
    (greatest : ℕ) (samples : List ℕ) (t : ResponsivenessTracker)
    → All (λ s. s ≤ greatest) samples
    → IsTracking greatest t
    → IsTracking greatest (observe_all samples t)
unfolding observe_all
observe_all-IsTracking greatest [] t small h = h
observe_all-IsTracking greatest (s ∷ samples) t small h =
    observe_all-IsTracking greatest samples (observe s t) small.1
      (observe-IsTracking greatest s t small.0 h)

-- After any samples the baseline and the worst latency are at most the greatest sample, the worst
-- latency is zero in the normal state and above 250 ms outside it, one of the streaks is zero,
-- three anomalous samples mean degraded and five clean ones normal.
pub samples-IsTracking :
    (greatest : ℕ) (samples : List ℕ)
    → All (λ s. s ≤ greatest) samples
    → IsTracking greatest (observe_all samples new)
samples-IsTracking greatest samples small = observe_all-IsTracking greatest samples new small (
    unfold new in
    record {
      baseline = omega arith;
      worst_bound = omega arith;
      calm = λ e. refl;
      alarmed = λ e. cc;
      one_streak = inl refl;
      escalated = λ e. absurd (omega arith);
      recovered = λ e. absurd (omega arith);
      anomalous = λ e. absurd (omega arith);
    })

anomalous-streak :
    (latency : ℕ) (t : ResponsivenessTracker)
    → is_anomalous latency t ≡ true
    → ((observe latency t).anomalous_streak ≡ saturate_u32 (t.anomalous_streak + 1))
      × (3 ≤ (observe latency t).anomalous_streak → (observe latency t).state ≡ degraded)
unfolding observe observe_anomalous seed
anomalous-streak latency t e = elim (Bool-cases t.seeded) [
  | inl s ↦ rw (e, s) (refl, λ h. ground arith)
  | inr s ↦ rw (e, s) (refl, λ h. ground arith)
]

clean-streak :
    (latency : ℕ) (t : ResponsivenessTracker)
    → is_anomalous latency t ≡ false
    → ((observe latency t).clean_streak ≡ saturate_u32 (t.clean_streak + 1))
      × (5 ≤ (observe latency t).clean_streak → (observe latency t).state ≡ normal)
unfolding observe observe_clean seed
clean-streak latency t e = elim (Bool-cases t.seeded) [
  | inl s ↦ rw (e, s) (refl, λ h. ground arith)
  | inr s ↦ rw (e, s) (refl, λ h. ground arith)
]

-- Each sample, taken in its turn, has the given classification.
unfoldable pub AllClassified : Bool → List ℕ → ResponsivenessTracker → Type 0
AllClassified b [] t = Unit
AllClassified b (s ∷ samples) t = (is_anomalous s t ≡ b) × AllClassified b samples (observe s t)

-- Three samples in a row that are anomalous in their turn lead any tracker to the degraded state.
pub observe_all-degraded :
    (a b c : ℕ) (t : ResponsivenessTracker)
    → AllClassified true (a ∷ b ∷ c ∷ []) t
    → (observe_all (a ∷ b ∷ c ∷ []) t).state ≡ degraded
unfolding AllClassified observe_all
observe_all-degraded a b c t (p, (q, (r, _))) =
    let t1 = observe a t in
    let t2 = observe b t1 in
    (anomalous-streak c t2 r).1 (
      omega (
        arith,
        (anomalous-streak a t p).0,
        (anomalous-streak b t1 q).0,
        (anomalous-streak c t2 r).0,
      ))

-- Five samples in a row that are clean in their turn lead any tracker to the normal state.
pub observe_all-normal :
    (a b c d e : ℕ) (t : ResponsivenessTracker)
    → AllClassified false (a ∷ b ∷ c ∷ d ∷ e ∷ []) t
    → (observe_all (a ∷ b ∷ c ∷ d ∷ e ∷ []) t).state ≡ normal
unfolding AllClassified observe_all
observe_all-normal a b c d e t (p, (q, (r, (s, (u, _))))) =
    let t1 = observe a t in
    let t2 = observe b t1 in
    let t3 = observe c t2 in
    let t4 = observe d t3 in
    (clean-streak e t4 u).1 (
      omega (
        arith,
        (clean-streak a t p).0,
        (clean-streak b t1 q).0,
        (clean-streak c t2 r).0,
        (clean-streak d t3 s).0,
        (clean-streak e t4 u).0,
      ))
