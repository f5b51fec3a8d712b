-- ===== src/Diagnostics/Report.antt =====
-- crates/tick-diagnostics/src/lib.rs: the cells of a row, the two table formats and the line of an
-- event.
pub mod Fields
use true_tick.Base.{
  ℕ, zero, suc, ◌+◌, ◌-◌, ◌/◌, leb, ltb, ◌==◌, if◌then◌else◌, Bool, true, false, not, ◌&&◌, ◌||◌,
  Option, none, some, List, [], ◌∷◌, ◌++◌, length, take, drop, map, is_empty, filter,
}
use true_tick.Base.Int.{ℤ, pos, negsuc}
use true_tick.Base.Text.{Text, codes, show, one_of, any, trim_start, concat, padded, chars}
use true_tick.Diagnostics.{
  DiagnosticEvent, NativeOutcome, truncate_utf8, sanitize, max_field_length,
  max_rendered_event_bytes, hard_max_events,
}
use true_tick.Diagnostics.Labels.{phase_label, source_label, outcome_label}
use true_tick.Diagnostics.Rows.{RowSelection, selected, enumerate, has_sequence}

abbrev pub report_columns : List Text
report_columns =
    codes "Row"
    ∷ codes "Sequence"
    ∷ codes "Elapsed"
    ∷ codes "Operation"
    ∷ codes "Parent"
    ∷ codes "Correlation"
    ∷ codes "Phase"
    ∷ codes "Source"
    ∷ codes "Outcome"
    ∷ codes "Event"
    ∷ codes "Details"
    ∷ []

abbrev pub max_tsv_rows : ℕ
max_tsv_rows = hard_max_events

abbrev pub max_csv_rows : ℕ
max_csv_rows = max_tsv_rows

abbrev pub optional_number : Option ℕ → Text
optional_number none = codes "none"
optional_number (some n) = show n

abbrev pub show_signed : ℤ → Text
show_signed (pos n) = show n
show_signed (negsuc n) = codes "-" ++ show (suc n)

abbrev pub optional_signed : Option ℤ → Text
optional_signed none = codes "none"
optional_signed (some n) = show_signed n

unfoldable pub native_details : NativeOutcome → Text
native_details native =
    codes "ntstatus="
    ++ optional_signed native.ntstatus
    ++ codes " win32_last_error="
    ++ optional_number native.win32_last_error
    ++ codes " requested_hns="
    ++ optional_number native.requested_hns
    ++ codes " selected_hns="
    ++ optional_number native.selected_hns
    ++ codes " effective_hns="
    ++ optional_number native.effective_hns

abbrev pub as_millis : ℕ → ℕ
as_millis nanos = nanos / 1000000

unfoldable pub diagnostic_grid_row : ℕ → DiagnosticEvent → List Text
diagnostic_grid_row row_position e =
    let details =
      if is_empty e.details
      then native_details e.native
      else e.details ++ codes " " ++ native_details e.native in
    show row_position
    ∷ show e.sequence
    ∷ (codes "+" ++ show (as_millis e.elapsed) ++ codes "ms")
    ∷ show e.context.operation_id
    ∷ optional_number e.context.parent_operation_id
    ∷ show e.context.correlation_id
    ∷ phase_label e.phase
    ∷ source_label e.source
    ∷ outcome_label e.outcome
    ∷ e.name
    ∷ truncate_utf8 details max_field_length
    ∷ []

unfoldable pub diagnostic_grid_rows : List DiagnosticEvent → RowSelection → List (List Text)
diagnostic_grid_rows events selection =
    map (λ (index, e). diagnostic_grid_row (suc index) e) (selected selection (enumerate 0 events))

unfoldable pub diagnostic_grid_rows_for_sequences : List DiagnosticEvent → List ℕ → List (List Text)
diagnostic_grid_rows_for_sequences events sequences =
    map (λ (index, e). diagnostic_grid_row (suc index) e)
      (filter (λ (index, e). has_sequence sequences e) (enumerate 0 events))

-- `join`, and the cells of a row at each column: a cell that is missing is empty.
abbrev pub join : Text → List Text → Text
join between [] = []
join between (cell ∷ []) = cell
join between (cell ∷ next ∷ cells) = cell ++ between ++ join between (next ∷ cells)

abbrev pub cells_at {ℓ} : {A : Type ℓ} → List A → List Text → List Text
cells_at [] cells = []
cells_at (column ∷ columns) [] = [] ∷ cells_at columns []
cells_at (column ∷ columns) (cell ∷ cells) = cell ∷ cells_at columns cells

abbrev pub table : Text → (Text → Text) → ℕ → List (List Text) → Text
table between field limit rows =
    join between report_columns
    ++ codes "\r\n"
    ++ concat (
        map (λ cells. join between (map field (cells_at report_columns cells)) ++ codes "\r\n")
          (take limit rows))

unfoldable pub format_tsv : List (List Text) → Text
format_tsv = table (codes "\t") sanitize max_tsv_rows

abbrev pub double_quotes : Text → Text
double_quotes [] = []
double_quotes (b ∷ s) = let rest = double_quotes s in if b == 34 then 34 ∷ 34 ∷ rest else b ∷ rest

-- `char::is_alphabetic` is a table of the language's library, taken as a test on a character.
module _ (is_alphabetic : Text → Bool) where
  abbrev letter_after : List Text → Bool
  letter_after [] = false
  letter_after (c ∷ cs) = is_alphabetic c

  abbrev pub starts_formula : Text → Bool
  starts_formula [] = false
  starts_formula (b ∷ rest) =
      one_of (codes "=@") b || (one_of (codes "+-") b && letter_after (chars rest))

  unfoldable pub needs_formula_neutralization : Text → Bool
  needs_formula_neutralization field = starts_formula (trim_start field)

  abbrev pub csv_quoted : Bool → Text → Text
  csv_quoted neutralized field =
      codes "\"" ++ (if neutralized then codes "'" else []) ++ double_quotes field ++ codes "\""

  unfoldable pub csv_field : Text → Text
  csv_field cell =
      let field = truncate_utf8 cell max_field_length in
      let neutralized = needs_formula_neutralization field in
      if any (one_of (codes ",\"\n\r")) field || neutralized
      then csv_quoted neutralized field
      else field

  unfoldable pub format_csv : List (List Text) → Text
  format_csv = table (codes ",") csv_field max_csv_rows

unfoldable pub format_event : DiagnosticEvent → Text
format_event e =
    truncate_utf8
      (codes "#"
        ++ padded 48 6 (show e.sequence)
        ++ codes " +"
        ++ padded 32 8 (show (as_millis e.elapsed))
        ++ codes "ms op="
        ++ show e.context.operation_id
        ++ codes " parent="
        ++ optional_number e.context.parent_operation_id
        ++ codes " corr="
        ++ show e.context.correlation_id
        ++ codes " phase="
        ++ phase_label e.phase
        ++ codes " source="
        ++ source_label e.source
        ++ codes " outcome="
        ++ outcome_label e.outcome
        ++ codes " native_ntstatus="
        ++ optional_signed e.native.ntstatus
        ++ codes " native_win32="
        ++ optional_number e.native.win32_last_error
        ++ codes " requested_hns="
        ++ optional_number e.native.requested_hns
        ++ codes " selected_hns="
        ++ optional_number e.native.selected_hns
        ++ codes " effective_hns="
        ++ optional_number e.native.effective_hns
        ++ codes " "
        ++ e.name
        ++ (if is_empty e.details then [] else codes " " ++ e.details))
      max_rendered_event_bytes
