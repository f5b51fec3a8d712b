-- ===== src/Policy/Decisions.antt =====
-- What crates/tick-policy/src/lib.rs decides, and its sets of reasons.
use true_tick.Base.{
  ◌≡◌, ◌↔◌, inl, inr, refl, Bool, true, false, ◌||◌, List, [], ◌∷◌, ◌++◌, arith, Bool-cases,
}
use true_tick.Core.{Status}
use true_tick.Policy.{
  PowerState, ac, battery, battery_saver, unknown, PolicyReason, PolicyInput, decide, decide_power,
  reason_eq, contains, push_unique, from_reasons, OperatingTier, TierContext, evaluate_tier,
  recover, is_degraded,
}

-- A power state under which a request is not held back.
unfoldable pub IsUnrestricted : PowerState → Bool → Type 0
IsUnrestricted ac lockout = Unit
IsUnrestricted battery lockout = lockout ≡ false
IsUnrestricted battery_saver lockout = lockout ≡ false
IsUnrestricted unknown lockout = true ≡ false

decide_power-requested :
    (power : PowerState) (lockout : Bool)
    → ((decide_power power lockout).status ≡ Status.requested) ↔ IsUnrestricted power lockout
unfolding decide_power IsUnrestricted
decide_power-requested ac lockout = (λ h. tt, λ h. refl)
decide_power-requested battery true = (λ h. cc, λ h. cc)
decide_power-requested battery false = (λ h. refl, λ h. refl)
decide_power-requested battery_saver true = (λ h. cc, λ h. cc)
decide_power-requested battery_saver false = (λ h. refl, λ h. refl)
decide_power-requested unknown lockout = (λ h. cc, λ h. cc)

-- The policy requests exactly when it is enabled, a profile is eligible, and the power is on line,
-- or a battery state with the lockout off.
pub decide-requested_iff :
    (input : PolicyInput)
    → ((decide input).status ≡ Status.requested) ↔ (
        (input.enabled ≡ true)
        × (input.profile ≡ true)
        × IsUnrestricted input.power input.battery_lockout_enabled)
unfolding decide
decide-requested_iff input =
    let (forth, back) = decide_power-requested input.power input.battery_lockout_enabled in
    elim (Bool-cases input.enabled) [
      | inl e ↦ elim (Bool-cases input.profile) [
        | inl p ↦ (λ h. (e, p, forth (rw (e, p) at h)), λ (e', p', u). rw (e, p) (back u))
        | inr p ↦ (λ h. cc, λ (e', p', u). cc)
      ]
      | inr e ↦ (λ h. cc, λ (e', p', u). cc)
    ]

unfoldable pub IsDistinct : List PolicyReason → Type 0
IsDistinct [] = Unit
IsDistinct (r ∷ rs) = (contains rs r ≡ false) × IsDistinct rs

reason_eq-sym : (r q : PolicyReason) → reason_eq r q ≡ false → reason_eq q r ≡ false
reason_eq-sym r q h = ground arith

contains-append :
    (rs qs : List PolicyReason) (r : PolicyReason)
    → contains (rs ++ qs) r ≡ (contains rs r || contains qs r)
unfolding contains
contains-append [] qs r = refl
contains-append (q ∷ rs) qs r = ground (arith, contains-append rs qs r)

contains-same :
    (rs : List PolicyReason) (r q : PolicyReason)
    → reason_eq r q ≡ true
    → contains rs r ≡ contains rs q
unfolding contains
contains-same [] r q h = refl
contains-same (p ∷ rs) r q h = ground (arith, contains-same rs r q)

append-IsDistinct :
    (rs : List PolicyReason) (r : PolicyReason)
    → IsDistinct rs
    → contains rs r ≡ false
    → IsDistinct (rs ++ r ∷ [])
unfolding IsDistinct contains
append-IsDistinct [] r d h = (refl, tt)
append-IsDistinct (q ∷ rs) r d h = (
  ground (arith, contains-append rs (r ∷ []) q, reason_eq-sym q r),
  append-IsDistinct rs r d.1 (ground arith),
)

push_unique-IsDistinct :
    (unique reasons : List PolicyReason)
    → IsDistinct unique
    → IsDistinct (push_unique unique reasons)
unfolding push_unique
push_unique-IsDistinct unique [] d = d
push_unique-IsDistinct unique (r ∷ rs) d = elim (Bool-cases (contains unique r)) [
  | inl e ↦ rw e (push_unique-IsDistinct unique rs d)
  | inr e ↦ rw e (push_unique-IsDistinct (unique ++ r ∷ []) rs (append-IsDistinct unique r d e))
]

push_unique-contains :
    (unique reasons : List PolicyReason) (reason : PolicyReason)
    → contains (push_unique unique reasons) reason
      ≡ (contains unique reason || contains reasons reason)
unfolding push_unique contains
push_unique-contains unique [] reason = ground arith
push_unique-contains unique (r ∷ rs) reason = elim (Bool-cases (contains unique r)) [
  | inl e ↦
      rw e (ground (arith, push_unique-contains unique rs reason, contains-same unique r reason, e))
  | inr e ↦ rw e (
      ground (
        arith,
        push_unique-contains (unique ++ r ∷ []) rs reason,
        contains-append unique (r ∷ []) reason,
      ))
]

-- A set of reasons holds the reasons given, each once.
pub from_reasons-IsDistinct :
    (reasons : List PolicyReason)
    → IsDistinct (from_reasons reasons)
      × ((reason : PolicyReason) → contains (from_reasons reasons) reason ≡ contains reasons reason)
unfolding from_reasons contains IsDistinct
from_reasons-IsDistinct reasons =
    (push_unique-IsDistinct [] reasons tt, λ reason. push_unique-contains [] reasons reason)

-- A recovery is evaluated only from a degraded tier that is not quiescent, with a recoverable
-- context and no unhandled anomaly.
pub evaluate_tier-recover :
    (current : OperatingTier) (ctx : TierContext)
    → evaluate_tier current ctx ≡ recover
    → (is_degraded current ≡ true)
      × (ctx.nominally_recoverable ≡ true)
      × (ctx.unhandled_anomalies ≡ 0)
unfolding evaluate_tier
evaluate_tier-recover current ctx h = ground arith
