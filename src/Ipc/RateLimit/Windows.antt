-- ===== src/Ipc/RateLimit/Windows.antt =====
-- What `check_and_record` of crates/tick-ipc/src/lib.rs answers, and the bounds of its memory.
use true_tick.Base.{
  ℕ, ◌≤◌, ◌<◌, ◌≡◌, ◌∙◌, ◌⊎◌, inl, inr, refl, ap, true, false, List, [], ◌∷◌, ◌++◌, Option, none,
  some, Result, ok, err, ◌==◌, if◌then◌else◌, arith, length, All, Bool-cases, leb, ltb, ◌+◌, filter,
  Option-cases, subst,
}
use true_tick.Ipc.{IpcError, rate_limit_exceeded}
use true_tick.Ipc.RateLimit.{
  cutoff_at, Instant, PidRecord, PidRateLimiter, tracks, with_record, recent, admit, admit_first,
  check_and_record, evict_least_recently_seen, max_tracked_pids, max_requests_per_second,
}
use true_tick.Ipc.RateLimit.Eviction.{evict_least_recently_seen-Removed, Removed-untracked}

unfoldable pub find_record : ℕ → List PidRecord → Option PidRecord
find_record pid [] = none
find_record pid (r ∷ rs) = if r.pid == pid then some r else find_record pid rs

-- The instants of a caller that lie less than one second before now.
unfoldable pub within_second : ℕ → Instant → List PidRecord → List Instant
within_second pid now records = elim (find_record pid records) [
  | none ↦ []
  | some r ↦ filter (λ t. ltb now (t + 1000000000)) r.timestamps
]

-- The instants that the limiter keeps of a caller.
unfoldable known : ℕ → Instant → List PidRecord → List Instant
known pid now records = elim (find_record pid records) [
  | none ↦ []
  | some r ↦ recent now r.timestamps
]

tracks-find_record :
    (pid : ℕ) (rs : List PidRecord)
    → tracks pid rs ≡ true
    → (r : PidRecord) × (find_record pid rs ≡ some r) × (r.pid ≡ pid)
unfolding tracks find_record
tracks-find_record pid [] h = cc
tracks-find_record pid (r ∷ rs) h = elim (Bool-cases (r.pid == pid)) [
  | inl e ↦ (r, rw e, ground arith)
  | inr e ↦ let (q, found, same) = tracks-find_record pid rs (ground arith) in (q, rw e found, same)
]

find_record-untracked :
    (pid : ℕ) (rs : List PidRecord) → tracks pid rs ≡ false → find_record pid rs ≡ none
unfolding tracks find_record
find_record-untracked pid [] h = refl
find_record-untracked pid (r ∷ rs) h = ground (arith, find_record-untracked pid rs)

find_record-append :
    (rs : List PidRecord) (r : PidRecord)
    → tracks r.pid rs ≡ false
    → find_record r.pid (rs ++ r ∷ []) ≡ some r
unfolding tracks find_record
find_record-append [] r h = ground arith
find_record-append (q ∷ rs) r h = ground (arith, find_record-append rs r)

evict-untracked :
    (pid : ℕ) (rs : List PidRecord)
    → tracks pid rs ≡ false
    → tracks pid (evict_least_recently_seen rs) ≡ false
evict-untracked pid [] h = unfold evict_least_recently_seen in h
evict-untracked pid (r ∷ rs) h =
    let (q, removed, _) = evict_least_recently_seen-Removed r rs in Removed-untracked pid removed h

find-with_record :
    (pid : ℕ) (now : Instant) (rs : List PidRecord)
    → (r : PidRecord) × (find_record pid (with_record pid now rs) ≡ some r)
      × (r.pid ≡ pid)
      × (recent now r.timestamps ≡ known pid now rs)
unfolding with_record known
find-with_record pid now rs = elim (Bool-cases (tracks pid rs)) [
  | inl e ↦
      let (r, found, same) = tracks-find_record pid rs e in (r, rw e found, same, rw (known, found))
  | inr e ↦
      let fresh : PidRecord = record { pid = pid; timestamps = []; last_seen = now } in
      let nothing = find_record-untracked pid rs e in
      (
        fresh,
        rw e (elim (Bool-cases (leb max_tracked_pids (length rs))) [
          | inl f ↦
              rw f
                (find_record-append (evict_least_recently_seen rs) fresh (evict-untracked pid rs e))
          | inr f ↦ rw f (find_record-append rs fresh e)
        ]),
        refl,
        rw (known, nothing) (unfold recent in refl),
      )
]

admit_pid : (now : Instant) (r : PidRecord) → ((admit now r).1).pid ≡ r.pid
unfolding admit
admit_pid now r = ground arith

admit-cases :
    (now : Instant) (r : PidRecord)
    → ((length (recent now r.timestamps) < max_requests_per_second)
        × (admit now r ≡ (
          ok tt,
          record { pid = r.pid; timestamps = recent now r.timestamps ++ now ∷ []; last_seen = now },
        )))
      ⊎ ((max_requests_per_second ≤ length (recent now r.timestamps))
          × (admit now r ≡ (
            err (rate_limit_exceeded r.pid),
            record { pid = r.pid; timestamps = recent now r.timestamps; last_seen = now },
          )))
unfolding admit
admit-cases now r =
    elim (Bool-cases (leb max_requests_per_second (length (recent now r.timestamps)))) [
      | inl e ↦ inr (ground (arith, e), rw e)
      | inr e ↦ inl (ground (arith, e), rw e)
    ]

find-admit_first :
    (pid : ℕ) (now : Instant) (rs : List PidRecord) (r : PidRecord)
    → find_record pid rs ≡ some r
    → ((admit_first pid now rs).0 ≡ (admit now r).0)
      × (find_record pid (admit_first pid now rs).1 ≡ some (admit now r).1)
unfolding find_record admit_first
find-admit_first pid now [] r h = cc
find-admit_first pid now (q ∷ rs) r h = elim (Bool-cases (q.pid == pid)) [
  | inl e ↦
      let here : q ≡ r = ground (arith, e) in
      let same : ((admit now q).1).pid == pid ≡ true = rw (admit_pid now q) e in
      rw e (ap (λ x. (admit now x).0) here, rw same (ap (λ x. some (admit now x).1) here))
  | inr e ↦ rw e (let (a, b) = find-admit_first pid now rs r (rw e at h) in (a, rw e b))
]

-- A request is answered by the instants that count of its caller.
unfoldable pub Answered :
    ℕ → Instant → List Instant → Result (Unit {0}) IpcError × PidRateLimiter → Type 0
Answered pid now instants (result, after) =
    ((length instants < 10)
      × (result ≡ ok tt)
      × (find_record pid after.records
          ≡ some (record { pid = pid; timestamps = instants ++ now ∷ []; last_seen = now })))
    ⊎ ((10 ≤ length instants)
        × (result ≡ err (rate_limit_exceeded pid))
        × (find_record pid after.records
            ≡ some (record { pid = pid; timestamps = instants; last_seen = now })))

Answered-by_kept :
    (pid : ℕ) (now : Instant) (limiter : PidRateLimiter)
    → Answered pid now (known pid now limiter.records) (check_and_record pid now limiter)
unfolding Answered check_and_record
Answered-by_kept pid now limiter =
    let (r, found, same, held) = find-with_record pid now limiter.records in
    let (answer, record_after) =
      find-admit_first pid now (with_record pid now limiter.records) r found in
    elim (admit-cases now r) [
      | inl (few, e) ↦ inl (
        rw held at few,
        answer ∙ ap (λ x. x.0) e,
        record_after ∙ ap (λ x. some x.1) e ∙ (λ i.
            some (record { pid = same i; timestamps = held i ++ now ∷ []; last_seen = now })),
      )
      | inr (many, e) ↦ inr (
        rw held at many,
        answer ∙ ap (λ x. x.0) e ∙ ap (λ p. err (rate_limit_exceeded p)) same,
        record_after
            ∙ ap (λ x. some x.1) e
            ∙ (λ i. some (record { pid = same i; timestamps = held i; last_seen = now })),
      )
    ]

recent-late :
    (now : Instant) (ts : List Instant)
    → 1000000000 ≤ now
    → recent now ts ≡ filter (λ t. ltb now (t + 1000000000)) ts
unfolding recent cutoff_at
recent-late now [] late = refl
recent-late now (t ∷ ts) late = ground (arith, late, recent-late now ts late)

known-late :
    (pid : ℕ) (now : Instant) (rs : List PidRecord)
    → 1000000000 ≤ now
    → known pid now rs ≡ within_second pid now rs
unfolding known within_second
known-late pid now rs late = elim (Option-cases (find_record pid rs)) [
  | inl nothing ↦ rw (known, within_second, nothing) refl
  | inr (r, found) ↦ rw (known, within_second, found) (recent-late now r.timestamps late)
]

-- From the first second of the clock on, a request is accepted exactly when fewer than ten
-- instants of its caller lie less than one second before it; its instant is then recorded behind
-- them, and else the error names the caller and only those instants stay.
pub check_and_record-Answered :
    (pid : ℕ) (now : Instant) (limiter : PidRateLimiter)
    → 1000000000 ≤ now
    → Answered pid now (within_second pid now limiter.records) (check_and_record pid now limiter)
check_and_record-Answered pid now limiter late =
    subst (λ instants. Answered pid now instants (check_and_record pid now limiter))
      (known-late pid now limiter.records late) (Answered-by_kept pid now limiter)

recent_early :
    (now : Instant) (ts : List Instant)
    → now < 1000000000
    → All (λ t. t ≤ now) ts
    → recent now ts ≡ []
unfolding recent cutoff_at
recent_early now [] h all = refl
recent_early now (t ∷ ts) h all = ground (arith, recent_early now ts h all.1)

known_early :
    (pid : ℕ) (now : Instant) (rs : List PidRecord)
    → now < 1000000000
    → All (λ r. All (λ t. t ≤ now) r.timestamps) rs
    → known pid now rs ≡ []
unfolding known find_record
known_early pid now [] h all = refl
known_early pid now (r ∷ rs) h all = elim (Bool-cases (r.pid == pid)) [
  | inl e ↦ rw (known, e) (recent_early now r.timestamps h all.0)
  | inr e ↦ rw (known, e) (known_early pid now rs h all.1)
]

-- In the first second of the clock, where the subtraction of the window fails and the cutoff falls
-- back to now, a request is accepted however many were recorded.
pub check_and_record_early :
    (pid : ℕ) (now : Instant) (limiter : PidRateLimiter)
    → now < 1000000000
    → All (λ r. All (λ t. t ≤ now) r.timestamps) limiter.records
    → (check_and_record pid now limiter).0 ≡ ok tt
unfolding Answered
check_and_record_early pid now limiter h all =
    let nothing = known_early pid now limiter.records h all in
    elim (Answered-by_kept pid now limiter) [
      | inl (few, answer, _) ↦ answer
      | inr (many, _, _) ↦ absurd (omega (arith, ap length nothing))
    ]
