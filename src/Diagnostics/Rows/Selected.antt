-- ===== src/Diagnostics/Rows/Selected.antt =====
-- The rows selected in crates/tick-diagnostics/src/lib.rs: a selection is found again from its
-- sequences, and the latest rows are the last ones.
use mathlib.Core.List.{append_assoc}
use true_tick.Base.{
  ℕ, zero, suc, ◌+◌, ◌-◌, ◌≤◌, ◌≡◌, ◌≢◌, refl, false, List, [], ◌∷◌, ◌++◌, some, All, length,
  length-append, length-take, length-drop, take, drop, arith, ap, sym, ◌∙◌, min, max, ◌==◌,
  take-append-drop, and_then, subst, take-length, drop_split,
}
use true_tick.Base.Pairs.{Pairwise, Pairwise-before}
use true_tick.Diagnostics.{DiagnosticEvent}
use true_tick.Diagnostics.Rows.{
  RowSelection, row_count, selected, sequences_of, selected_event_sequences, position_from,
  positions_of, last_consecutive, consecutive_selection, row_selection_for_sequences,
  latest_row_selection, all_rows,
}

-- No two events have the same sequence.
abbrev pub Distinct : List DiagnosticEvent → Type 0
Distinct = Pairwise (λ a b. a.sequence ≢ b.sequence)

abbrev range : ℕ → ℕ → List ℕ
range row zero = []
range row (suc n) = row ∷ range (suc row) n

position_behind :
    (row : ℕ) (xs : List DiagnosticEvent) (y : DiagnosticEvent) (ys : List DiagnosticEvent)
    → All (λ x. x.sequence ≢ y.sequence) xs
    → position_from row (xs ++ y ∷ ys) y.sequence ≡ some (row + length xs)
unfolding position_from
position_behind row [] y ys h = ground arith
position_behind row (x ∷ xs) y ys h = ground (arith, h.0, position_behind (suc row) xs y ys h.1)

positions-range :
    (events : List DiagnosticEvent)
    → Distinct events
    → (xs ys zs : List DiagnosticEvent) → events ≡ xs ++ ys ++ zs
    → positions_of events (sequences_of ys) ≡ some (range (suc (length xs)) (length ys))
unfolding positions_of
positions-range events h xs [] zs e = refl
positions-range events h xs (y ∷ ys) zs e =
    let split : events ≡ xs ++ y ∷ (ys ++ zs) = e ∙ append_assoc xs (y ∷ ys) zs in
    let shifted : events ≡ (xs ++ y ∷ []) ++ ys ++ zs =
      e ∙ ap (λ t. t ++ zs) (sym (append_assoc xs (y ∷ []) ys)) in
    let before =
      Pairwise-before (λ a b. a.sequence ≢ b.sequence) xs y (ys ++ zs) (subst Distinct split h) in
    let first : position_from 1 events y.sequence ≡ some (suc (length xs)) =
      ap (λ t. position_from 1 t y.sequence) split
      ∙ position_behind 1 xs y (ys ++ zs) before
      ∙ ap (λ n. some n) (omega arith) in
    let rest = positions-range events h (xs ++ y ∷ []) ys zs shifted in
    let behind : length (xs ++ y ∷ []) ≡ suc (length xs) =
      omega (arith, length-append xs (y ∷ [])) in
    rw (first, rest, behind)

last_consecutive-range : (row n : ℕ) → last_consecutive row (range (suc row) n) ≡ some (row + n)
unfolding last_consecutive
last_consecutive-range row zero = ap (λ n. some n) (omega arith)
last_consecutive-range row (suc n) = ground (arith, last_consecutive-range (suc row) n)

consecutive-range :
    (row n : ℕ)
    → consecutive_selection (range row (suc n)) ≡ some (record { start = row; end = row + n })
unfolding consecutive_selection
consecutive-range row n = rw (last_consecutive-range row n)

row_count-suc :
    (s : RowSelection) → 1 ≤ s.start → s.start ≤ s.end → row_count s ≡ suc (s.end - s.start)
unfolding row_count
row_count-suc s first ordered = ground arith

selected-suc :
    (s : RowSelection) (n : ℕ) (events : List DiagnosticEvent)
    → row_count s ≡ suc n
    → selected s events ≡ take (suc n) (drop (s.start - 1) events)
selected-suc s n events e = ground (arith, e)

-- For events with distinct sequences, a selection of at least one row, within the events, is found
-- again from the sequences of its events.
pub row_selection-selected :
    (events : List DiagnosticEvent) (s : RowSelection)
    → Distinct events
    → 1 ≤ s.start
    → s.start ≤ s.end
    → s.end ≤ length events
    → row_selection_for_sequences events (selected_event_sequences events s) ≡ some s
unfolding row_selection_for_sequences selected_event_sequences
row_selection-selected events s h first ordered within =
    let n = s.end - s.start in
    let before = take (s.start - 1) events in
    let chosen = take (suc n) (drop (s.start - 1) events) in
    let behind = drop (s.start - 1 + suc n) events in
    let split : events ≡ before ++ chosen ++ behind =
      sym (take-append-drop (s.start - 1) events)
      ∙ ap (λ t. before ++ t) (drop_split (s.start - 1) (suc n) events)
      ∙ sym (append_assoc before chosen behind) in
    let rows = positions-range events h before chosen behind split in
    let start : suc (length before) ≡ s.start = omega (arith, length-take (s.start - 1) events) in
    let count : length chosen ≡ suc n =
      omega (
        arith,
        length-take (suc n) (drop (s.start - 1) events),
        length-drop (s.start - 1) events,
      ) in
    let end : s.start + n ≡ s.end = omega arith in
    let found : positions_of events (sequences_of chosen) ≡ some (range s.start (suc n)) =
      rows ∙ rw (start, count) in
    ap (λ t. and_then (positions_of events (sequences_of t)) consecutive_selection)
      (selected-suc s n events (row_count-suc s first ordered))
    ∙ ap (λ o. and_then o consecutive_selection) found
    ∙ consecutive-range s.start n
    ∙ ap (λ m. some (record { start = s.start; end = m })) end

selected-to_end :
    (s : RowSelection) (events : List DiagnosticEvent)
    → 1 ≤ s.start
    → s.start ≤ s.end
    → s.end ≡ length events
    → selected s events ≡ drop (s.start - 1) events
selected-to_end s events first ordered e =
    let rest = drop (s.start - 1) events in
    let count : suc (s.end - s.start) ≡ length rest =
      omega (arith, length-drop (s.start - 1) events) in
    selected-suc s (s.end - s.start) events (row_count-suc s first ordered)
    ∙ ap (λ n. take n rest) count
    ∙ take-length rest

latest-rows :
    (limit n : ℕ)
    → latest_row_selection limit (suc n)
      ≡ record { start = suc (suc n - min (max limit 1) 512); end = suc n }
unfolding latest_row_selection
latest-rows limit n =
    let shown : suc n - min (min (max limit 1) 512) (suc n) ≡ suc n - min (max limit 1) 512 =
      omega arith in
    let some_rows : (suc n == 0) ≡ false = ground arith in rw (some_rows, shown)

-- The latest rows for a display limit are the last events, as many as the limit within 1 and 512,
-- or all where there are fewer.
pub selected_event_sequences-latest :
    (limit : ℕ) (events : List DiagnosticEvent)
    → selected_event_sequences events (latest_row_selection limit (length events))
      ≡ sequences_of (drop (length events - min (max limit 1) 512) events)
unfolding latest_row_selection selected_event_sequences row_count all_rows
selected_event_sequences-latest limit [] =
    let none_left : 0 - min (max limit 1) 512 ≡ 0 = omega arith in rw none_left
selected_event_sequences-latest limit (e ∷ es) =
    let events = e ∷ es in
    let dropped = length events - min (max limit 1) 512 in
    let s : RowSelection = record { start = suc dropped; end = length events } in
    let back : suc dropped - 1 ≡ dropped = omega arith in
    ap (λ t. sequences_of (selected t events)) (latest-rows limit (length es))
    ∙ ap sequences_of (selected-to_end s events (omega arith) (omega arith) refl)
    ∙ ap (λ n. sequences_of (drop n events)) back
