-- ===== src/Diagnostics/Rows/Parsed.antt =====
-- What the row parsers of crates/tick-diagnostics/src/lib.rs accept lies within the retained rows.
use true_tick.Base.{
  ℕ, ◌≤◌, ◌≡◌, ◌⊎◌, Bool, true, false, ◌||◌, List, [], ◌∷◌, ok, err, Result, arith, if◌then◌else◌,
  leb, ◌==◌, inl, inr, is_empty, length,
}
use true_tick.Base.Try.{Result-cases}
use true_tick.Base.Text.{Text, codes, trim, split, starts_with, eq_ignore_ascii_case}
use true_tick.Diagnostics.Rows.{
  RowSelection, RowSelectionError, all_rows, parse_row_number, parse_parts, parse_row_selection,
  parse_display_limit,
}

parse_row_number-positive : (raw : Text) (n : ℕ) → parse_row_number raw ≡ ok n → 1 ≤ n
unfolding parse_row_number
parse_row_number-positive raw n h = ground (arith, h)

abbrev IsWithin : ℕ → RowSelection → Type 0
IsWithin retained s = (1 ≤ s.start) × (s.start ≤ s.end) × (s.end ≤ retained)

parse_parts-IsWithin :
    (parts : List Text) (retained : ℕ) (s : RowSelection)
    → parse_parts parts retained ≡ ok s
    → IsWithin retained s
unfolding parse_parts
parse_parts-IsWithin [] retained s h = cc
parse_parts-IsWithin (a ∷ []) retained s h = elim (Result-cases (parse_row_number a)) [
  | inr (x, e) ↦ ground (arith, h, e)
  | inl (n, e) ↦ ground (arith, h, e, parse_row_number-positive a n e)
]
parse_parts-IsWithin (a ∷ b ∷ []) retained s h = elim (Result-cases (parse_row_number a)) [
  | inr (x, e) ↦ ground (arith, h, e)
  | inl (n, e) ↦ elim (Result-cases (parse_row_number b)) [
    | inr (x, f) ↦ ground (arith, h, e, f)
    | inl (m, f) ↦ ground (arith, h, e, f, parse_row_number-positive a n e)
  ]
]
parse_parts-IsWithin (a ∷ b ∷ c ∷ more) retained s h = cc

selection_choice :
    (fits whole negative : Bool) (every s : RowSelection)
    (parts : Result RowSelection RowSelectionError)
    → (if fits
        then (if whole
            then ok every
            else (if negative then err RowSelectionError.negative else parts))
        else err RowSelectionError.too_long)
      ≡ ok s
    → (s ≡ every) ⊎ (parts ≡ ok s)
selection_choice false whole negative every s parts h = cc
selection_choice true true negative every s parts h = inl (ground (arith, h))
selection_choice true false true every s parts h = cc
selection_choice true false false every s parts h = inr h

-- A selection that is parsed is that of all rows, or starts at row 1 or later, ends at its start
-- or later, and ends within the retained rows.
pub parse_row_selection-within :
    (raw : Text) (retained : ℕ) (s : RowSelection)
    → parse_row_selection raw retained ≡ ok s
    → (s ≡ all_rows retained) ⊎ ((1 ≤ s.start) × (s.start ≤ s.end) × (s.end ≤ retained))
unfolding parse_row_selection
parse_row_selection-within raw retained s h =
    let input = trim raw in
    elim (selection_choice (leb (length input) 64)
      (is_empty input || eq_ignore_ascii_case input (codes "all")) (starts_with (codes "-") input)
      (all_rows retained) s (parse_parts (split (λ b. b == 45) input) retained) h) [
        | inl every ↦ inl every
        | inr parts ↦ inr (parse_parts-IsWithin (split (λ b. b == 45) input) retained s parts)
      ]

-- A display limit that is parsed is from 1 to 512.
pub parse_display_limit-within :
    (raw : Text) (limit : ℕ) → parse_display_limit raw ≡ ok limit → (1 ≤ limit) × (limit ≤ 512)
unfolding parse_display_limit
parse_display_limit-within raw limit h = ground (arith, h)
