-- ===== src/Diagnostics/Rows.antt =====
-- crates/tick-diagnostics/src/lib.rs: the rows of the report that are shown or selected. Rows count
-- from 1; a `usize` stands below 2 ^ 64, and none here comes near it but the one in `row_count`.
pub mod Parsed
pub mod Selected
use true_tick.Base.{
  ℕ, zero, suc, ◌+◌, ◌-◌, leb, ltb, ◌==◌, if◌then◌else◌, Bool, true, false, not, ◌&&◌, ◌||◌, Option,
  none, some, List, [], ◌∷◌, Result, ok, err, length, take, drop, map, is_empty, min, max, filter,
  option_map, and_then,
}
use true_tick.Base.Try.{◌>>=◌, ◌>>◌, ensure, ok_or}
use true_tick.Base.Bytes.{bytes_eq}
use true_tick.Base.Text.{
  Text, codes, trim, all, any, is_ascii_digit, parse_unsigned, starts_with, eq_ignore_ascii_case,
  split,
}
use true_tick.Diagnostics.{DiagnosticEvent, hard_max_events}

pub data DisplayLimitError : Type 0 where
  empty negative zero_rows malformed out_of_range too_long : DisplayLimitError

unfoldable pub parse_display_limit : Text → Result ℕ DisplayLimitError
parse_display_limit raw =
    let input = trim raw in
    do
      ensure (not (is_empty input)) DisplayLimitError.empty
      ensure (leb (length input) 64) DisplayLimitError.too_long
      ensure (not (starts_with (codes "-") input)) DisplayLimitError.negative
      ensure (all is_ascii_digit input) DisplayLimitError.malformed
      limit ← ok_or (parse_unsigned 64 input) DisplayLimitError.malformed
      ensure (not (limit == 0)) DisplayLimitError.zero_rows
      ensure (leb limit hard_max_events) DisplayLimitError.out_of_range
      ok limit

pub record RowSelection : Type 0 where
  pub start : ℕ
  pub end : ℕ

unfoldable pub all_rows : ℕ → RowSelection
all_rows retained_rows =
    if retained_rows == 0
    then record { start = 0; end = 0 }
    else record { start = 1; end = retained_rows }

unfoldable pub latest_row_selection : ℕ → ℕ → RowSelection
latest_row_selection display_limit retained_rows =
    let visible_rows = min (min (max display_limit 1) hard_max_events) retained_rows in
    if retained_rows == 0
    then all_rows 0
    else record { start = suc (retained_rows - visible_rows); end = retained_rows }

unfoldable pub row_count : RowSelection → ℕ
row_count s = if s.start == 0 || ltb s.end s.start then 0 else suc (s.end - s.start)

abbrev pub has_no_rows : RowSelection → Bool
has_no_rows s = row_count s == 0

unfoldable pub is_all : RowSelection → ℕ → Bool
is_all s retained_rows =
    let every = all_rows retained_rows in s.start == every.start && s.end == every.end

pub data RowSelectionError : Type 0 where
  malformed negative zero_row reversed too_long : RowSelectionError
  out_of_range : ℕ → RowSelectionError

unfoldable pub parse_row_number : Text → Result ℕ RowSelectionError
parse_row_number raw =
    let value = trim raw in
    do
      ensure (not (is_empty value)) RowSelectionError.malformed
      ensure (not (starts_with (codes "-") value)) RowSelectionError.negative
      ensure (not (bytes_eq value (codes "0"))) RowSelectionError.zero_row
      ensure (all is_ascii_digit value) RowSelectionError.malformed
      number ← ok_or (parse_unsigned 64 value) RowSelectionError.malformed
      ensure (not (number == 0)) RowSelectionError.zero_row
      ok number

-- The parts of the input at its dashes: one is a row, two are a range.
unfoldable pub parse_parts : List Text → ℕ → Result RowSelection RowSelectionError
parse_parts [] retained_rows = err RowSelectionError.malformed
parse_parts (first ∷ []) retained_rows = do
  row ← parse_row_number first
  ensure (leb row retained_rows) (RowSelectionError.out_of_range retained_rows)
  ok (record { start = row; end = row })
parse_parts (first ∷ second ∷ []) retained_rows = do
  start ← parse_row_number first
  end ← parse_row_number second
  ensure (leb start end) RowSelectionError.reversed
  ensure (leb start retained_rows && leb end retained_rows)
      (RowSelectionError.out_of_range retained_rows)
  ok (record { start = start; end = end })
parse_parts (first ∷ second ∷ third ∷ more) retained_rows = err RowSelectionError.malformed

unfoldable pub parse_row_selection : Text → ℕ → Result RowSelection RowSelectionError
parse_row_selection raw retained_rows =
    let input = trim raw in
    if leb (length input) 64
    then (if is_empty input || eq_ignore_ascii_case input (codes "all")
        then ok (all_rows retained_rows)
        else (if starts_with (codes "-") input
            then err RowSelectionError.negative
            else parse_parts (split (λ b. b == 45) input) retained_rows))
    else err RowSelectionError.too_long

abbrev pub sequences_of : List DiagnosticEvent → List ℕ
sequences_of = map (λ e. e.sequence)

abbrev pub has_sequence : List ℕ → DiagnosticEvent → Bool
has_sequence sequences e = any (λ n. n == e.sequence) sequences

-- `skip(start - 1).take(row_count)`, where the selection has rows.
abbrev pub selected {ℓ} : {A : Type ℓ} → RowSelection → List A → List A
selected selection rows =
    if has_no_rows selection
    then []
    else take (row_count selection) (drop (selection.start - 1) rows)

unfoldable pub selected_event_sequences : List DiagnosticEvent → RowSelection → List ℕ
selected_event_sequences events selection = sequences_of (selected selection events)

abbrev insert_sorted : ℕ → List ℕ → List ℕ
insert_sorted n [] = n ∷ []
insert_sorted n (m ∷ ms) = let rest = insert_sorted n ms in if leb n m then n ∷ m ∷ ms else m ∷ rest

abbrev pub sort_unstable : List ℕ → List ℕ
sort_unstable [] = []
sort_unstable (n ∷ ns) = insert_sorted n (sort_unstable ns)

abbrev keep_new : ℕ → List ℕ → List ℕ
keep_new n [] = n ∷ []
keep_new n (m ∷ ms) = if n == m then m ∷ ms else n ∷ m ∷ ms

abbrev pub dedup : List ℕ → List ℕ
dedup [] = []
dedup (n ∷ ns) = keep_new n (dedup ns)

abbrev pub get_elem? {ℓ} : {A : Type ℓ} → List A → ℕ → Option A
get_elem? [] i = none
get_elem? (x ∷ xs) zero = some x
get_elem? (x ∷ xs) (suc i) = get_elem? xs i

abbrev pub filter_map {ℓ κ} : {A : Type ℓ} {B : Type κ} → (A → Option B) → List A → List B
filter_map f [] = []
filter_map f (x ∷ xs) = elim (f x) [ none ↦ filter_map f xs | some y ↦ y ∷ filter_map f xs ]

unfoldable pub selected_event_sequences_for_positions :
    List DiagnosticEvent → RowSelection → List ℕ → List ℕ
selected_event_sequences_for_positions events visible positions =
    filter_map
      (λ position.
        let row = visible.start + position in
        if ltb 0 row && leb row visible.end
        then option_map (λ e. e.sequence) (get_elem? events (row - 1))
        else none)
      (dedup (sort_unstable positions))

unfoldable pub selected_event_sequences_for_sequences : List DiagnosticEvent → List ℕ → List ℕ
selected_event_sequences_for_sequences events sequences =
    sequences_of (filter (has_sequence sequences) events)

-- `enumerate` from an index.
abbrev pub enumerate {ℓ} : {A : Type ℓ} → ℕ → List A → List (ℕ × A)
enumerate i [] = []
enumerate i (x ∷ xs) = (i, x) ∷ enumerate (suc i) xs

unfoldable pub visible_positions_for_sequences :
    List DiagnosticEvent → RowSelection → List ℕ → List ℕ
visible_positions_for_sequences events visible sequences =
    filter_map
      (λ (index, e). if has_sequence sequences e then some (index - (visible.start - 1)) else none)
      (selected visible (enumerate 0 events))

-- The row of the first event of a sequence.
unfoldable pub position_from : ℕ → List DiagnosticEvent → ℕ → Option ℕ
position_from row [] sequence = none
position_from row (e ∷ es) sequence =
    let rest = position_from (suc row) es sequence in
    if e.sequence == sequence then some row else rest

unfoldable pub positions_of : List DiagnosticEvent → List ℕ → Option (List ℕ)
positions_of events [] = some []
positions_of events (n ∷ ns) =
    and_then (position_from 1 events n)
      (λ row. option_map (λ rows. row ∷ rows) (positions_of events ns))

-- The last of rows that follow each other, from the row before: `windows(2)`.
unfoldable pub last_consecutive : ℕ → List ℕ → Option ℕ
last_consecutive row [] = some row
last_consecutive row (next ∷ rows) =
    let rest = last_consecutive next rows in if next == suc row then rest else none

unfoldable pub consecutive_selection : List ℕ → Option RowSelection
consecutive_selection [] = none
consecutive_selection (first ∷ rows) =
    option_map (λ last. record { start = first; end = last }) (last_consecutive first rows)

unfoldable pub row_selection_for_sequences : List DiagnosticEvent → List ℕ → Option RowSelection
row_selection_for_sequences events sequences =
    and_then (positions_of events sequences) consecutive_selection
