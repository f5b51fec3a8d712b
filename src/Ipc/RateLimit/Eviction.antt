-- ===== src/Ipc/RateLimit/Eviction.antt =====
-- The record that `evict_least_recently_seen` of crates/tick-ipc/src/lib.rs removes.
use true_tick.Base.{
  ◌<◌, ◌≤◌, ℕ, suc, ◌+◌, ◌≡◌, ◌⊎◌, inl, inr, refl, true, false, List, [], ◌∷◌, arith, length, All,
  Bool-cases,
}
use true_tick.Ipc.RateLimit.{
  PidRecord, seen_before, oldest_from, remove, evict_least_recently_seen, tracks,
}

-- The second list is the first without one occurrence of `q`.
pub data Removed (q : PidRecord) : List PidRecord → List PidRecord → Type 0 where
  here : {rs : List PidRecord} → Removed q (q ∷ rs) rs
  there :
      {r : PidRecord} {rs rest : List PidRecord} → Removed q rs rest → Removed q (r ∷ rs) (r ∷ rest)

-- None of the records goes before `q`.
abbrev pub NoneBefore : PidRecord → List PidRecord → Type 0
NoneBefore q rs = All (λ r. seen_before r q ≡ false) rs

before_self : (r : PidRecord) → seen_before r r ≡ false
unfolding seen_before
before_self r = ground arith

before_asym : (r q : PidRecord) → seen_before r q ≡ true → seen_before q r ≡ false
unfolding seen_before
before_asym r q h = ground arith

before_trans :
    (r q p : PidRecord) → seen_before r q ≡ true → seen_before q p ≡ true → seen_before r p ≡ true
unfolding seen_before
before_trans r q p h k = ground arith

before_weaken :
    (r q p : PidRecord) → seen_before q p ≡ true → seen_before r p ≡ false → seen_before r q ≡ false
unfolding seen_before
before_weaken r q p h k = ground arith

-- The loop keeps its candidate, or finds the first of the records that none goes before.
Chosen : ℕ → PidRecord → ℕ → List PidRecord → Type 0
Chosen best r index qs =
    ((oldest_from best r index qs ≡ best) × NoneBefore r qs)
    ⊎ ((j : ℕ) × (q : PidRecord) × (oldest_from best r index qs ≡ index + j)
        × Removed q qs (remove j qs)
        × (seen_before q r ≡ true)
        × NoneBefore q qs)

oldest_from-Chosen :
    (best : ℕ) (r : PidRecord) (index : ℕ) (qs : List PidRecord) → Chosen best r index qs
unfolding Chosen oldest_from remove
oldest_from-Chosen best r index [] = inl (refl, tt)
oldest_from-Chosen best r index (p ∷ qs) = elim (Bool-cases (seen_before p r)) [
  | inl e ↦ elim (oldest_from-Chosen index p (suc index) qs) [
    | inl (at_p, none) ↦ inr (0, p, rw e (omega (arith, at_p)), here, e, (before_self p, none))
    | inr (j, q, at_q, removed, before, none) ↦ inr (
      suc j,
      q,
      rw e (omega (arith, at_q)),
      there removed,
      before_trans q p r before e,
      (before_asym q p before, none),
    )
  ]
  | inr e ↦ elim (oldest_from-Chosen best r (suc index) qs) [
    | inl (kept, none) ↦ inl (rw e kept, (e, none))
    | inr (j, q, at_q, removed, before, none) ↦ inr (
      suc j,
      q,
      rw e (omega (arith, at_q)),
      there removed,
      before,
      (before_weaken p q r before e, none),
    )
  ]
]

pub evict_least_recently_seen-Removed :
    (r : PidRecord) (rs : List PidRecord)
    → (q : PidRecord) × Removed q (r ∷ rs) (evict_least_recently_seen (r ∷ rs))
      × NoneBefore q (r ∷ rs)
unfolding evict_least_recently_seen remove Chosen
evict_least_recently_seen-Removed r rs = elim (oldest_from-Chosen 0 r 1 rs) [
  | inl (kept, none) ↦ (r, rw kept here, (before_self r, none))
  | inr (j, q, at_q, removed, before, none) ↦
      let index : oldest_from 0 r 1 rs ≡ suc j = omega (arith, at_q) in
      (q, rw index (there removed), (before_asym q r before, none))
]

pub Removed-length :
    {q : PidRecord} {rs rest : List PidRecord} → Removed q rs rest → length rs ≡ suc (length rest)
Removed-length here = refl
Removed-length (there h) = omega (arith, Removed-length h)

pub Removed-untracked :
    {q : PidRecord} (pid : ℕ) {rs rest : List PidRecord}
    → Removed q rs rest
    → tracks pid rs ≡ false
    → tracks pid rest ≡ false
unfolding tracks
Removed-untracked pid here h = ground arith
Removed-untracked pid (there k) h = ground (arith, Removed-untracked pid k)

pub Removed-All :
    {q : PidRecord} (P : PidRecord → Type 0) {rs rest : List PidRecord}
    → Removed q rs rest
    → All P rs
    → All P rest
Removed-All P here h = h.1
Removed-All P (there k) h = (h.0, Removed-All P k h.1)

-- The callers of the other records were seen later or, seen at the same instant, have process ids
-- that are not smaller.
unfoldable pub IsOldest : PidRecord → List PidRecord → Type 0
IsOldest q rs =
    All (λ r. (q.last_seen < r.last_seen) ⊎ ((q.last_seen ≡ r.last_seen) × (q.pid ≤ r.pid))) rs

not_before :
    (r q : PidRecord)
    → seen_before r q ≡ false
    → (q.last_seen < r.last_seen) ⊎ ((q.last_seen ≡ r.last_seen) × (q.pid ≤ r.pid))
unfolding seen_before
not_before r q h = ground arith

NoneBefore-IsOldest : (q : PidRecord) (rs : List PidRecord) → NoneBefore q rs → IsOldest q rs
unfolding IsOldest
NoneBefore-IsOldest q [] h = tt
NoneBefore-IsOldest q (r ∷ rs) h = (not_before r q h.0, NoneBefore-IsOldest q rs h.1)

-- Eviction takes away one record, and the callers tracked were all seen later than that one or,
-- seen at the same instant, have no smaller process id.
pub evict_least_recently_seen-IsOldest :
    (r : PidRecord) (rs : List PidRecord)
    → (q : PidRecord) × Removed q (r ∷ rs) (evict_least_recently_seen (r ∷ rs))
      × IsOldest q (r ∷ rs)
evict_least_recently_seen-IsOldest r rs =
    let (q, removed, none) = evict_least_recently_seen-Removed r rs in
    (q, removed, NoneBefore-IsOldest q (r ∷ rs) none)
