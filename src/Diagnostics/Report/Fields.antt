-- ===== src/Diagnostics/Report/Fields.antt =====
-- The cells that crates/tick-diagnostics/src/lib.rs writes to a CSV table: each is read back, and
-- none of those read starts as a formula.
use true_tick.Base.{
  ℕ, ◌≡◌, refl, Bool, true, false, ◌||◌, List, [], ◌∷◌, ◌++◌, Option, none, some, arith,
  if◌then◌else◌, ◌==◌, option_map, All, ap, sym, ◌∙◌, inl, inr, Bool-cases, of_both, ◌⊎◌,
}
use true_tick.Base.Text.{
  Text, codes, any, one_of, concat, chars, skip_while, trim_start, is_whitespace, lead,
  is_continuation,
}
use true_tick.Diagnostics.{truncate_utf8, max_field_length}
use true_tick.Diagnostics.Report.{
  csv_field, csv_quoted, double_quotes, needs_formula_neutralization, starts_formula,
}

-- A reader of one field of a CSV line, as RFC 4180 has it: behind an opening quote, two quotes are
-- one and a single one ends the field (the flag says that one quote was read); a field without quotes holds no special byte.
unfoldable pub read_quoted : Bool → Text → Option Text
read_quoted false [] = none
read_quoted true [] = some []
read_quoted false (b ∷ s) = elim (b == 34) [
  | true ↦ read_quoted true s
  | false ↦ option_map (λ t. b ∷ t) (read_quoted false s)
]
read_quoted true (b ∷ s) = elim (b == 34) [
  | true ↦ option_map (λ t. 34 ∷ t) (read_quoted false s)
  | false ↦ none
]

abbrev pub is_special : ℕ → Bool
is_special = one_of (codes ",\"\n\r")

unfoldable pub read_field : Text → Option Text
read_field [] = some []
read_field (a ∷ s) =
    if a == 34 then read_quoted false s else (if any is_special (a ∷ s) then none else some (a ∷ s))

read_quoted-double_quotes : (s : Text) → read_quoted false (double_quotes s ++ 34 ∷ []) ≡ some s
unfolding read_quoted
read_quoted-double_quotes [] = refl
read_quoted-double_quotes (b ∷ s) = elim (Bool-cases (b == 34)) [
  | inl e ↦ rw (e, read_quoted, read_quoted-double_quotes s) (ground (arith, e))
  | inr e ↦ rw (e, read_quoted, e, read_quoted-double_quotes s)
]

concat-lead : (b : ℕ) (cs : List Text) → concat (lead b cs) ≡ b ∷ concat cs
concat-lead b [] = refl
concat-lead b ([] ∷ cs) = refl
concat-lead b ((c ∷ rest) ∷ cs) =
    of_both (λ l. concat l ≡ b ∷ concat ((c ∷ rest) ∷ cs)) (is_continuation c) refl refl

concat-chars : (s : Text) → concat (chars s) ≡ s
concat-chars [] = refl
concat-chars (b ∷ s) = concat-lead b (chars s) ∙ ap (λ t. b ∷ t) (concat-chars s)

-- The four bytes with which a formula can start.
abbrev IsSign : ℕ → Type 0
IsSign b = (b ≡ 61) ⊎ ((b ≡ 64) ⊎ ((b ≡ 43) ⊎ (b ≡ 45)))

sign-visible : (b : ℕ) (s : Text) → IsSign b → is_whitespace (b ∷ s) ≡ false
sign-visible b [] sign = ground (arith, sign)
sign-visible b (c ∷ []) sign = ground (arith, sign)
sign-visible b (c ∷ d ∷ []) sign = ground (arith, sign)
sign-visible b (c ∷ d ∷ e ∷ s) sign = refl

-- Such a byte is no part of white space, whatever follows it.
kept-sign : (b : ℕ) (cs : List Text) → IsSign b → skip_while is_whitespace (lead b cs) ≡ lead b cs
kept-sign b [] sign = rw (sign-visible b [] sign) refl
kept-sign b ([] ∷ cs) sign = rw (sign-visible b [] sign) refl
kept-sign b ((c ∷ rest) ∷ cs) sign =
    of_both (λ l. skip_while is_whitespace l ≡ l) (is_continuation c)
      (rw (sign-visible b (c ∷ rest) sign) refl) (rw (sign-visible b [] sign) refl)

module _ (is_alphabetic : Text → Bool) where
  read-csv_quoted :
      (neutralized : Bool) (field : Text)
      → read_field (csv_quoted is_alphabetic neutralized field)
        ≡ some ((if neutralized then codes "'" else []) ++ field)
  unfolding read_field read_quoted
  read-csv_quoted true field = rw (read_quoted-double_quotes field)
  read-csv_quoted false field = rw (read_quoted-double_quotes field)

  read-plain : (field : Text) → any is_special field ≡ false → read_field field ≡ some field
  unfolding read_field
  read-plain [] h = refl
  read-plain (b ∷ s) h = ground (arith, h)

  kept_front :
      (c : Text) (cs : List Text)
      → starts_formula is_alphabetic (concat (skip_while is_whitespace ((39 ∷ c) ∷ cs))) ≡ false
  kept_front [] cs = refl
  kept_front (a ∷ []) cs = refl
  kept_front (a ∷ b ∷ []) cs = refl
  kept_front (a ∷ b ∷ d ∷ c) cs = refl

  lead_front :
      (cs : List Text)
      → starts_formula is_alphabetic (concat (skip_while is_whitespace (lead 39 cs))) ≡ false
  lead_front [] = refl
  lead_front ([] ∷ cs) = refl
  lead_front ((c ∷ rest) ∷ cs) =
      of_both (λ l. starts_formula is_alphabetic (concat (skip_while is_whitespace l)) ≡ false)
        (is_continuation c) (kept_front (c ∷ rest) cs) (kept_front [] ((c ∷ rest) ∷ cs))

  -- The apostrophe makes the text harmless.
  apostrophe : (field : Text) → needs_formula_neutralization is_alphabetic (39 ∷ field) ≡ false
  unfolding needs_formula_neutralization
  apostrophe field = lead_front (chars field)

  -- A text starts as a formula where, behind white space, it has an equals sign, an at sign, or a
  -- plus or minus sign with an alphabetic character behind it.
  abbrev pub IsFormula : Text → Type 0
  IsFormula value =
      (blanks : List Text) × (b : ℕ) × (rest : Text) × All (λ c. is_whitespace c ≡ true) blanks
      × (chars value ≡ blanks ++ chars (b ∷ rest))
      × ((b ≡ 61)
          ⊎ ((b ≡ 64)
              ⊎ (((b ≡ 43) ⊎ (b ≡ 45))
                  × (c : Text) × (cs : List Text) × (chars rest ≡ c ∷ cs)
                  × (is_alphabetic c ≡ true))))

  skip_blanks :
      (blanks cs : List Text)
      → All (λ c. is_whitespace c ≡ true) blanks
      → skip_while is_whitespace (blanks ++ cs) ≡ skip_while is_whitespace cs
  skip_blanks [] cs h = refl
  skip_blanks (c ∷ blanks) cs (h, hs) = rw h (skip_blanks blanks cs hs)

  trimmed-formula :
      (b : ℕ) (rest value : Text) (blanks : List Text)
      → IsSign b
      → All (λ c. is_whitespace c ≡ true) blanks
      → chars value ≡ blanks ++ chars (b ∷ rest)
      → trim_start value ≡ b ∷ rest
  trimmed-formula b rest value blanks sign all e =
      ap (λ cs. concat (skip_while is_whitespace cs)) e
      ∙ ap concat (skip_blanks blanks (chars (b ∷ rest)) all)
      ∙ ap concat (kept-sign b (chars rest) sign)
      ∙ concat-lead b (chars rest)
      ∙ ap (λ s. b ∷ s) (concat-chars rest)

  letter_found :
      (b : ℕ) (rest c : Text) (cs : List Text)
      → (b ≡ 43) ⊎ (b ≡ 45)
      → chars rest ≡ c ∷ cs
      → is_alphabetic c ≡ true
      → starts_formula is_alphabetic (b ∷ rest) ≡ false
      → ⊥
  letter_found b rest c cs sign first letter h = elim sign [
    | inl same ↦ let k = rw (same, first, letter) at h in cc
    | inr same ↦ let k = rw (same, first, letter) at h in cc
  ]

  -- The test of the code finds every text that starts as a formula.
  not-formula :
      (value : Text)
      → needs_formula_neutralization is_alphabetic value ≡ false
      → IsFormula value
      → ⊥
  unfolding needs_formula_neutralization
  not-formula value plain (blanks, b, rest, all, e, formula) = choice formula
    where
      trimmed : IsSign b → starts_formula is_alphabetic (b ∷ rest) ≡ false
      trimmed sign =
          ap (starts_formula is_alphabetic) (sym (trimmed-formula b rest value blanks sign all e))
          ∙ plain

      choice :
          (b ≡ 61)
            ⊎ ((b ≡ 64)
                ⊎ (((b ≡ 43) ⊎ (b ≡ 45))
                    × (c : Text) × (cs : List Text) × (chars rest ≡ c ∷ cs)
                    × (is_alphabetic c ≡ true)))
          → ⊥
      choice (inl same) = ground (arith, same, trimmed (inl same))
      choice (inr (inl same)) = ground (arith, same, trimmed (inr (inl same)))
      choice (inr (inr (sign, c, cs, first, letter))) =
          letter_found b rest c cs sign first letter (trimmed (inr (inr sign)))

  -- A cell written to the CSV table is read back, by the rules of RFC 4180, as the truncated text
  -- or as that text behind an apostrophe, and what is read does not start, behind white space,
  -- with an equals sign, an at sign, or a plus or minus sign before an alphabetic character.
  pub read-csv_field :
      (cell : Text)
      → (value : Text) × (read_field (csv_field is_alphabetic cell) ≡ some value)
        × (IsFormula value → ⊥)
        × ((value ≡ truncate_utf8 cell max_field_length)
            ⊎ (value ≡ 39 ∷ truncate_utf8 cell max_field_length))
  unfolding csv_field
  read-csv_field cell =
      written (truncate_utf8 cell max_field_length)
        (needs_formula_neutralization is_alphabetic (truncate_utf8 cell max_field_length)) refl
        (any is_special (truncate_utf8 cell max_field_length)) refl
    where
      written :
          (field : Text) (neutralized : Bool)
          → needs_formula_neutralization is_alphabetic field ≡ neutralized
          → (special : Bool) → any is_special field ≡ special
          → (value : Text) × (read_field (
                if special || neutralized
                then csv_quoted is_alphabetic neutralized field
                else field)
              ≡ some value)
            × (IsFormula value → ⊥)
            × ((value ≡ field) ⊎ (value ≡ 39 ∷ field))
      written field true n true s = (
        39 ∷ field,
        read-csv_quoted true field,
        not-formula (39 ∷ field) (apostrophe field),
        inr refl,
      )
      written field true n false s = (
        39 ∷ field,
        read-csv_quoted true field,
        not-formula (39 ∷ field) (apostrophe field),
        inr refl,
      )
      written field false n true s =
          (field, read-csv_quoted false field, not-formula field n, inl refl)
      written field false n false s = (field, read-plain field s, not-formula field n, inl refl)
