-- ===== src/Ipc/RateLimit/Bounded.antt =====
-- The bounds of the limiter's memory in crates/tick-ipc/src/lib.rs.
use true_tick.Base.{
  ℕ, suc, ◌≤◌, ◌<◌, ◌≡◌, inl, inr, refl, ap, Bool, false, List, [], ◌∷◌, ◌++◌, ◌==◌, arith, length,
  All, Bool-cases, filter, is_empty, not, All-append, length-append, length-filter, leb, ltb,
  All-filter, leb-false,
}
use true_tick.Ipc.RateLimit.{
  Instant, PidRecord, PidRateLimiter, tracks, with_record, recent, admit, admit_first, prune,
  check_and_record, evict_least_recently_seen, max_tracked_pids, max_requests_per_second,
  prune_idle_callers, new, cutoff_at,
}
use true_tick.Ipc.RateLimit.Eviction.{
  Removed, here, there, evict_least_recently_seen-Removed, Removed-length, Removed-untracked,
  Removed-All,
}

unfoldable pub IsFew : PidRecord → Type 0
IsFew r = length r.timestamps ≤ max_requests_per_second

-- No two records are of the same caller.
unfoldable pub IsDistinct : List PidRecord → Type 0
IsDistinct [] = Unit
IsDistinct (r ∷ rs) = (tracks r.pid rs ≡ false) × IsDistinct rs

pub record IsBounded (limiter : PidRateLimiter) : Type 0 where
  pub callers : length limiter.records ≤ max_tracked_pids
  pub instants : All IsFew limiter.records
  pub distinct : IsDistinct limiter.records

Removed-IsDistinct :
    {q : PidRecord} {rs rest : List PidRecord} → Removed q rs rest → IsDistinct rs → IsDistinct rest
unfolding IsDistinct
Removed-IsDistinct here h = h.1
Removed-IsDistinct (there {r = r} k) h = (Removed-untracked r.pid k h.0, Removed-IsDistinct k h.1)

IsKept : List PidRecord → List PidRecord → Type 0
IsKept rs rest =
    All IsFew rest × IsDistinct rest × ((pid : ℕ) → tracks pid rs ≡ false → tracks pid rest ≡ false)

evict-IsKept :
    (rs : List PidRecord) → All IsFew rs → IsDistinct rs → IsKept rs (evict_least_recently_seen rs)
unfolding IsKept
evict-IsKept [] few distinct = unfold evict_least_recently_seen in (tt, distinct, λ pid h. h)
evict-IsKept (r ∷ rs) few distinct =
    let (q, removed, _) = evict_least_recently_seen-Removed r rs in
    (
      Removed-All IsFew removed few,
      Removed-IsDistinct removed distinct,
      λ pid h. Removed-untracked pid removed h,
    )

evict-length :
    (rs : List PidRecord)
    → length rs ≤ max_tracked_pids
    → length (evict_least_recently_seen rs) < max_tracked_pids
evict-length [] h = unfold evict_least_recently_seen in omega arith
evict-length (r ∷ rs) h =
    let (q, removed, _) = evict_least_recently_seen-Removed r rs in
    omega (arith, Removed-length removed)

tracks-append :
    (pid : ℕ) (rs : List PidRecord) (r : PidRecord)
    → tracks pid rs ≡ false
    → r.pid == pid ≡ false
    → tracks pid (rs ++ r ∷ []) ≡ false
unfolding tracks
tracks-append pid [] r h e = ground arith
tracks-append pid (q ∷ rs) r h e = ground (arith, tracks-append pid rs r)

append-IsDistinct :
    (rs : List PidRecord) (r : PidRecord)
    → IsDistinct rs
    → tracks r.pid rs ≡ false
    → IsDistinct (rs ++ r ∷ [])
unfolding IsDistinct tracks
append-IsDistinct [] r d h = (refl, tt)
append-IsDistinct (q ∷ rs) r d h =
    (tracks-append q.pid rs r d.0 (ground arith), append-IsDistinct rs r d.1 (ground arith))

module _ (pid : ℕ) (now : Instant) where
  abbrev fresh : PidRecord
  fresh = record { pid = pid; timestamps = []; last_seen = now }

  appended :
      (qs : List PidRecord)
      → length qs < max_tracked_pids
      → All IsFew qs
      → IsDistinct qs
      → tracks pid qs ≡ false
      → IsBounded (record { records = qs ++ fresh ∷ [] })
  unfolding IsFew
  appended qs size few distinct untracked = record {
    callers = omega (arith, length-append qs (fresh ∷ []));
    instants = All-append IsFew qs (fresh ∷ []) few (omega arith, tt);
    distinct = append-IsDistinct qs fresh distinct untracked;
  }

  with_record-IsBounded :
      (rs : List PidRecord)
      → IsBounded (record { records = rs })
      → IsBounded (record { records = with_record pid now rs })
  unfolding with_record IsKept
  with_record-IsBounded rs h = elim (Bool-cases (tracks pid rs)) [
    | inl e ↦ rw e h
    | inr e ↦ rw e (elim (Bool-cases (leb max_tracked_pids (length rs))) [
      | inl f ↦
          let (few, distinct, untracked) = evict-IsKept rs h.instants h.distinct in
          rw f (
            appended (evict_least_recently_seen rs) (evict-length rs h.callers) few distinct
              (untracked pid e))
      | inr f ↦ rw f (appended rs (ground (arith, f)) h.instants h.distinct e)
    ])
  ]

  admit-IsFew : (r : PidRecord) → IsFew r → IsFew (admit now r).1
  unfolding admit IsFew
  admit-IsFew r h =
      let kept = recent now r.timestamps in
      elim (Bool-cases (leb max_requests_per_second (length kept))) [
        | inl e ↦ rw e (
            unfold recent in omega (arith, length-filter (λ t. ltb (cutoff_at now) t) r.timestamps))
        | inr e ↦ rw e (
            omega (
              arith,
              length-append kept (now ∷ []),
              leb-false max_requests_per_second (length kept) e,
            ))
      ]

  admit_first-tracks :
      (p : ℕ) (rs : List PidRecord) → tracks p (admit_first pid now rs).1 ≡ tracks p rs
  unfolding tracks admit_first admit
  admit_first-tracks p [] = refl
  admit_first-tracks p (r ∷ rs) = ground (arith, admit_first-tracks p rs)

  admit_first-IsBounded :
      (rs : List PidRecord)
      → All IsFew rs
      → IsDistinct rs
      → All IsFew (admit_first pid now rs).1
        × IsDistinct (admit_first pid now rs).1
        × (length (admit_first pid now rs).1 ≡ length rs)
  unfolding admit_first IsDistinct
  admit_first-IsBounded [] few distinct = (tt, tt, refl)
  admit_first-IsBounded (r ∷ rs) few distinct =
      let (few', distinct', size) = admit_first-IsBounded rs few.1 distinct.1 in
      elim (Bool-cases (r.pid == pid)) [
        | inl e ↦ rw e (
          (admit-IsFew r few.0, few.1),
          (unfold admit in ground (arith, distinct.0), distinct.1),
          refl,
        )
        | inr e ↦
            rw e
              ((few.0, few'), (rw (admit_first-tracks r.pid rs) distinct.0, distinct'), ap suc size)
      ]

  -- A request keeps the limiter within its bounds.
  pub check_and_record-IsBounded :
      (limiter : PidRateLimiter)
      → IsBounded limiter
      → IsBounded (check_and_record pid now limiter).1
  unfolding check_and_record
  check_and_record-IsBounded limiter h =
      let held = with_record-IsBounded limiter.records h in
      let (few, distinct, size) =
        admit_first-IsBounded (with_record pid now limiter.records) held.instants held.distinct in
      record { callers = omega (arith, size, held.callers); instants = few; distinct = distinct }

module _ (now : Instant) where
  prune-IsBounded :
      (rs : List PidRecord)
      → All IsFew rs
      → IsDistinct rs
      → All IsFew (prune now rs)
        × IsDistinct (prune now rs)
        × (length (prune now rs) ≡ length rs)
        × ((p : ℕ) → tracks p (prune now rs) ≡ tracks p rs)
  unfolding IsDistinct IsFew tracks recent
  prune-IsBounded [] few distinct = (tt, tt, refl, λ p. refl)
  prune-IsBounded (r ∷ rs) few distinct =
      let (few', distinct', size, same) = prune-IsBounded rs few.1 distinct.1 in
      (
        (omega (arith, length-filter (λ t. ltb (cutoff_at now) t) r.timestamps), few'),
        (rw (same r.pid) distinct.0, distinct'),
        ap suc size,
        λ p. rw (same p),
      )

  filter-tracks :
      (keep : PidRecord → Bool) (p : ℕ) (rs : List PidRecord)
      → tracks p rs ≡ false
      → tracks p (filter keep rs) ≡ false
  unfolding tracks
  filter-tracks keep p [] h = refl
  filter-tracks keep p (r ∷ rs) h = ground (arith, filter-tracks keep p rs)

  filter-IsDistinct :
      (keep : PidRecord → Bool) (rs : List PidRecord) → IsDistinct rs → IsDistinct (filter keep rs)
  unfolding IsDistinct
  filter-IsDistinct keep [] h = tt
  filter-IsDistinct keep (r ∷ rs) h = elim (Bool-cases (keep r)) [
    | inl e ↦ rw e (filter-tracks keep r.pid rs h.0, filter-IsDistinct keep rs h.1)
    | inr e ↦ rw e (filter-IsDistinct keep rs h.1)
  ]

  prune_idle_callers-IsBounded :
      (limiter : PidRateLimiter) → IsBounded limiter → IsBounded (prune_idle_callers now limiter)
  unfolding prune_idle_callers
  prune_idle_callers-IsBounded limiter h =
      let (few, distinct, size, _) = prune-IsBounded limiter.records h.instants h.distinct in
      let keep : PidRecord → Bool = λ r. not (is_empty r.timestamps) in
      record {
        callers = omega (arith, size, h.callers, length-filter keep (prune now limiter.records));
        instants = All-filter IsFew keep (prune now limiter.records) few;
        distinct = filter-IsDistinct keep (prune now limiter.records) distinct;
      }

-- The limiters that the calls of the server lead to.
pub data Reached : PidRateLimiter → Type 0 where
  started : Reached new
  checked : {l : PidRateLimiter} (pid now : ℕ) → Reached l → Reached (check_and_record pid now l).1
  pruned : {l : PidRateLimiter} (now : ℕ) → Reached l → Reached (prune_idle_callers now l)

-- After any requests and prunes, at any instants, the limiter tracks at most 64 callers, no caller
-- twice, and at most ten instants of each.
pub Reached-IsBounded : {l : PidRateLimiter} → Reached l → IsBounded l
unfolding IsDistinct new
Reached-IsBounded started = record { callers = omega arith; instants = tt; distinct = tt }
Reached-IsBounded (checked pid now r) = check_and_record-IsBounded pid now _ (Reached-IsBounded r)
Reached-IsBounded (pruned now r) = prune_idle_callers-IsBounded now _ (Reached-IsBounded r)
