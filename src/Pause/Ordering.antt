-- ===== src/Pause/Ordering.antt =====
-- Lists of presets in order: the sort, the removal of repetitions and the insertion that
-- apps/true-tick/src/pause.rs relies on.
use true_tick.Base.{
  ℕ, zero, suc, ◌≤◌, ◌<◌, ◌≡◌, inl, inr, refl, ap, false, List, [], ◌∷◌, ◌++◌, arith, length, take,
  All, All-take, Bool-cases, leb, ◌==◌, leb-false,
}
use true_tick.Pause.{contains, insert, sort, dedup_from, dedup, remove_at}

unfoldable pub IsAscending : List ℕ → Type 0
IsAscending [] = Unit
IsAscending (p ∷ ps) = All (λ q. p < q) ps × IsAscending ps

unfoldable pub IsSorted : List ℕ → Type 0
IsSorted [] = Unit
IsSorted (p ∷ ps) = All (λ q. p ≤ q) ps × IsSorted ps

All-weaken : {P Q : ℕ → Type 0} → ((n : ℕ) → P n → Q n) → (xs : List ℕ) → All P xs → All Q xs
All-weaken f [] h = tt
All-weaken f (x ∷ xs) h = (f x h.0, All-weaken f xs h.1)

pub All-insert : (P : ℕ → Type 0) (p : ℕ) (ps : List ℕ) → P p → All P ps → All P (insert p ps)
unfolding insert
All-insert P p [] h k = (h, tt)
All-insert P p (q ∷ ps) h k = elim (Bool-cases (leb p q)) [
  | inl e ↦ rw e (h, k)
  | inr e ↦ rw e (k.0, All-insert P p ps h k.1)
]

pub All-sort : (P : ℕ → Type 0) (ps : List ℕ) → All P ps → All P (sort ps)
unfolding sort
All-sort P [] h = tt
All-sort P (p ∷ ps) h = All-insert P p (sort ps) h.0 (All-sort P ps h.1)

pub length-insert : (p : ℕ) (ps : List ℕ) → length (insert p ps) ≡ suc (length ps)
unfolding insert
length-insert p [] = refl
length-insert p (q ∷ ps) = ground (arith, length-insert p ps)

length-sort : (ps : List ℕ) → length (sort ps) ≡ length ps
unfolding sort
length-sort [] = refl
length-sort (p ∷ ps) = omega (arith, length-insert p (sort ps), length-sort ps)

insert-IsSorted : (p : ℕ) (ps : List ℕ) → IsSorted ps → IsSorted (insert p ps)
unfolding insert IsSorted
insert-IsSorted p [] h = (tt, tt)
insert-IsSorted p (q ∷ ps) h = elim (Bool-cases (leb p q)) [
  | inl e ↦
      let below : p ≤ q = ground (arith, e) in
      rw e ((below, All-weaken (λ n k. omega arith) ps h.0), h)
  | inr e ↦
      let above = leb-false p q e in
      rw e (All-insert (λ n. q ≤ n) p ps (omega arith) h.0, insert-IsSorted p ps h.1)
]

pub sort-IsSorted : (ps : List ℕ) → IsSorted (sort ps)
unfolding sort IsSorted
sort-IsSorted [] = tt
sort-IsSorted (p ∷ ps) = insert-IsSorted p (sort ps) (sort-IsSorted ps)

All-dedup_from : (P : ℕ → Type 0) (p : ℕ) (ps : List ℕ) → All P ps → All P (dedup_from p ps)
unfolding dedup_from
All-dedup_from P p [] h = tt
All-dedup_from P p (q ∷ ps) h = elim (Bool-cases (q == p)) [
  | inl e ↦ rw e (All-dedup_from P p ps h.1)
  | inr e ↦ rw e (h.0, All-dedup_from P q ps h.1)
]

dedup_from-IsAscending :
    (p : ℕ) (ps : List ℕ)
    → All (λ q. p ≤ q) ps
    → IsSorted ps
    → All (λ q. p < q) (dedup_from p ps) × IsAscending (dedup_from p ps)
unfolding dedup_from IsAscending IsSorted
dedup_from-IsAscending p [] low h = (tt, tt)
dedup_from-IsAscending p (q ∷ ps) low h = elim (Bool-cases (q == p)) [
  | inl e ↦ rw e (dedup_from-IsAscending p ps low.1 h.1)
  | inr e ↦
      let below : p < q = ground (arith, low.0, e) in
      let (above, rest) = dedup_from-IsAscending q ps h.0 h.1 in
      rw e ((below, All-weaken (λ n k. omega arith) (dedup_from q ps) above), (above, rest))
]

pub dedup-IsAscending : (ps : List ℕ) → IsSorted ps → IsAscending (dedup ps)
unfolding dedup IsAscending IsSorted
dedup-IsAscending [] h = tt
dedup-IsAscending (p ∷ ps) h = dedup_from-IsAscending p ps h.0 h.1

pub All-dedup : (P : ℕ → Type 0) (ps : List ℕ) → All P ps → All P (dedup ps)
unfolding dedup
All-dedup P [] h = tt
All-dedup P (p ∷ ps) h = (h.0, All-dedup_from P p ps h.1)

pub take-IsAscending : (n : ℕ) (ps : List ℕ) → IsAscending ps → IsAscending (take n ps)
unfolding IsAscending
take-IsAscending zero ps h = tt
take-IsAscending (suc n) [] h = tt
take-IsAscending (suc n) (p ∷ ps) h = (All-take (λ q. p < q) n ps h.0, take-IsAscending n ps h.1)

insert_below : (p : ℕ) (ps : List ℕ) → All (λ q. p < q) ps → insert p ps ≡ p ∷ ps
unfolding insert
insert_below p [] h = refl
insert_below p (q ∷ ps) h = ground (arith, h.0)

pub sort_id : (ps : List ℕ) → IsAscending ps → sort ps ≡ ps
unfolding sort IsAscending
sort_id [] h = refl
sort_id (p ∷ ps) h = rw (sort_id ps h.1) (insert_below p ps h.0)

dedup_from_id : (p : ℕ) (ps : List ℕ) → All (λ q. p < q) ps → IsAscending ps → dedup_from p ps ≡ ps
unfolding dedup_from IsAscending
dedup_from_id p [] low h = refl
dedup_from_id p (q ∷ ps) low h =
    let differs : q == p ≡ false = ground (arith, low.0) in rw (differs, dedup_from_id q ps h.0 h.1)

pub dedup_id : (ps : List ℕ) → IsAscending ps → dedup ps ≡ ps
unfolding dedup IsAscending
dedup_id [] h = refl
dedup_id (p ∷ ps) h = ap (λ t. p ∷ t) (dedup_from_id p ps h.0 h.1)

pub take_id : (n : ℕ) (ps : List ℕ) → length ps ≤ n → take n ps ≡ ps
take_id zero [] h = refl
take_id zero (p ∷ ps) h = absurd (omega arith)
take_id (suc n) [] h = refl
take_id (suc n) (p ∷ ps) h = ap (λ t. p ∷ t) (take_id n ps (omega arith))

pub insert-IsAscending :
    (p : ℕ) (ps : List ℕ) → contains p ps ≡ false → IsAscending ps → IsAscending (insert p ps)
unfolding insert contains IsAscending
insert-IsAscending p [] c h = (tt, tt)
insert-IsAscending p (q ∷ ps) c h = elim (Bool-cases (leb p q)) [
  | inl e ↦
      let below : p < q = ground (arith, e, c) in
      rw e ((below, All-weaken (λ n k. omega arith) ps h.0), h)
  | inr e ↦
      let above = leb-false p q e in
      rw e (All-insert (λ n. q < n) p ps above h.0, insert-IsAscending p ps (ground (arith, c)) h.1)
]

-- In an ascending list, the new element goes to its place.
pub sort-append :
    (ps : List ℕ) (p : ℕ)
    → contains p ps ≡ false
    → IsAscending ps
    → sort (ps ++ p ∷ []) ≡ insert p ps
unfolding sort contains IsAscending
sort-append [] p c h = refl
sort-append (q ∷ ps) p c h = elim (Bool-cases (leb p q)) [
  | inl e ↦
      let below : p < q = ground (arith, e, c) in
      let first = insert_below p ps (All-weaken (λ n k. omega arith) ps h.0) in
      let behind : leb q p ≡ false = ground arith in
      rw (sort-append ps p (ground (arith, c)) h.1, first)
        (unfold insert in rw (e, behind, insert_below q ps h.0))
  | inr e ↦
      let above = leb-false p q e in
      rw
        (
          sort-append ps p (ground (arith, c)) h.1,
          insert_below q (insert p ps) (All-insert (λ n. q < n) p ps above h.0),
        )
        (unfold insert in rw e)
]

pub All-remove_at :
    (P : ℕ → Type 0) (index : ℕ) (ps : List ℕ) → All P ps → All P (remove_at index ps)
unfolding remove_at
All-remove_at P index [] h = tt
All-remove_at P zero (p ∷ ps) h = h.1
All-remove_at P (suc index) (p ∷ ps) h = (h.0, All-remove_at P index ps h.1)

pub remove_at-IsAscending :
    (index : ℕ) (ps : List ℕ) → IsAscending ps → IsAscending (remove_at index ps)
unfolding remove_at IsAscending
remove_at-IsAscending index [] h = tt
remove_at-IsAscending zero (p ∷ ps) h = h.1
remove_at-IsAscending (suc index) (p ∷ ps) h =
    (All-remove_at (λ q. p < q) index ps h.0, remove_at-IsAscending index ps h.1)

pub length-remove_at :
    (index : ℕ) (ps : List ℕ) → index < length ps → suc (length (remove_at index ps)) ≡ length ps
unfolding remove_at
length-remove_at index [] h = absurd (omega arith)
length-remove_at zero (p ∷ ps) h = refl
length-remove_at (suc index) (p ∷ ps) h = omega (arith, length-remove_at index ps (omega arith))
