-- ===== src/Diagnostics/Privacy/Ordered.antt =====
-- The spans that crates/tick-diagnostics/src/privacy.rs collects: in order, apart, within the text.
use true_tick.Base.{
  ℕ, zero, suc, ◌+◌, ◌-◌, ◌<◌, ◌≤◌, ◌≡◌, refl, [], ◌∷◌, ◌++◌, Option, none, some, All, All-append,
  length, length-take, length-drop, take, drop, arith, of_both, of_both_known, some_inj, leb, ltb,
  subst, map_inv, Bool-cases, inl, inr, ◌⊎◌,
}
use true_tick.Base.Text.{Text, reverse_onto}
use true_tick.Diagnostics.Privacy.{
  in_order, insert_span, sort_spans, merge_after, all_spans, then_scan, collect_spans,
}
use true_tick.Diagnostics.Privacy.Scan.{
  PiiKind, PiiSpan, Spans, Hit, miss, panic, hit, scan, scan_user_profile_path, scan_machine_name,
  scan_environment_variable, scan_ip_address, scan_email_address, scan_windows_account_name,
  max_pii_findings, user_profile_at, machine_name_at, environment_variable_at, ip_address_at,
  email_address_at, windows_account_name_at,
}
use true_tick.Diagnostics.Privacy.Bounds.{
  InText, environment_variable_in, email_address_in, windows_account_name_in, machine_name_in,
  ip_address_in, user_profile_in, length-reverse_onto,
}

-- A span of at least one byte within the first `size` bytes.
abbrev IsWithin : ℕ → PiiSpan → Type 0
IsWithin size s = (s.start < s.end) × (s.end ≤ size)

Hit-cases : (h : Hit) → (h ≡ miss) ⊎ (h ≡ panic) ⊎ ((back : ℕ) × (ahead : ℕ) × (h ≡ hit back ahead))
Hit-cases miss = inl refl
Hit-cases panic = inr (inl refl)
Hit-cases (hit back ahead) = inr (inr (back, ahead, refl))

module _ (kind : PiiKind) (at : Text → Text → Hit) (in_text : InText at) (cap size : ℕ) where
  abbrev AllWithin : Spans → Type 0
  AllWithin = All (IsWithin size)

  scan_within :
      (fuel index : ℕ) (before rest : Text) (spans out : Spans)
      → index ≡ length before
      → index + length rest ≡ size
      → AllWithin spans
      → scan kind at cap fuel index before rest spans ≡ some out
      → AllWithin out
  unfolding scan
  scan_within zero index before rest spans out here total h e = subst AllWithin (some_inj e) h
  scan_within (suc fuel) index before [] spans out here total h e = subst AllWithin (some_inj e) h
  scan_within (suc fuel) index before (b ∷ rest) spans out here total h e =
      elim (Hit-cases (at before (b ∷ rest))) [
        | inl m ↦
            scan_within fuel (suc index) (b ∷ before) rest spans out (omega arith) (omega arith) h
              (rw (scan, m) at e)
        | inr (inl p) ↦ let refused = rw (scan, p) at e in cc
        | inr (inr (back, ahead, f)) ↦
            let (behind, some_bytes, within) = in_text before (b ∷ rest) back ahead f in
            let found : PiiSpan = record {
              start = index - back;
              end = index + ahead;
              kind = kind;
            } in
            let more = spans ++ found ∷ [] in
            let more_within =
              All-append (IsWithin size) spans (found ∷ []) h ((omega arith, omega arith), tt) in
            elim (Bool-cases (leb cap (length more))) [
              | inl full ↦ subst AllWithin (some_inj (rw (scan, f, full) at e)) more_within
              | inr room ↦
                  scan_within fuel (index + ahead) (reverse_onto (take ahead (b ∷ rest)) before)
                    (drop ahead (b ∷ rest)) more out
                    (omega (
                      arith,
                      length-reverse_onto (take ahead (b ∷ rest)) before,
                      length-take ahead (b ∷ rest),
                    ))
                    (omega (arith, length-drop ahead (b ∷ rest))) more_within
                    (rw (scan, f, room) at e)
            ]
      ]

  -- Fuel for each byte left is enough: one more unit changes nothing.
  pub scan_enough :
      (fuel index : ℕ) (before rest : Text) (spans : Spans)
      → length rest ≤ fuel
      → scan kind at cap (suc fuel) index before rest spans
        ≡ scan kind at cap fuel index before rest spans
  unfolding scan
  scan_enough zero index before [] spans room = refl
  scan_enough zero index before (b ∷ rest) spans room = absurd (omega arith)
  scan_enough (suc fuel) index before [] spans room = refl
  scan_enough (suc fuel) index before (b ∷ rest) spans room =
      elim (Hit-cases (at before (b ∷ rest))) [
        | inl m ↦ rw (scan, m) (scan_enough fuel (suc index) (b ∷ before) rest spans (omega arith))
        | inr (inl p) ↦ rw (scan, p)
        | inr (inr (back, ahead, f)) ↦
            let (behind, some_bytes, within) = in_text before (b ∷ rest) back ahead f in
            let found : PiiSpan = record {
              start = index - back;
              end = index + ahead;
              kind = kind;
            } in
            let more = spans ++ found ∷ [] in
            elim (Bool-cases (leb cap (length more))) [
              | inl full ↦ rw (scan, f, full)
              | inr below ↦
                  rw (scan, f, below)
                    (scan_enough fuel (index + ahead) (reverse_onto (take ahead (b ∷ rest)) before)
                      (drop ahead (b ∷ rest)) more (omega (arith, length-drop ahead (b ∷ rest))))
            ]
      ]

module _ (size : ℕ) where
  insert-IsWithin :
      (s : PiiSpan) (ss : Spans)
      → IsWithin size s
      → All (IsWithin size) ss
      → All (IsWithin size) (insert_span s ss)
  insert-IsWithin s [] p h = (p, tt)
  insert-IsWithin s (t ∷ ts) p h =
      of_both (All (IsWithin size)) (in_order s t) (p, h) (h.0, insert-IsWithin s ts p h.1)

  sort-IsWithin : (ss : Spans) → All (IsWithin size) ss → All (IsWithin size) (sort_spans ss)
  sort-IsWithin [] h = tt
  sort-IsWithin (s ∷ ss) h = insert-IsWithin s (sort_spans ss) h.0 (sort-IsWithin ss h.1)

  -- Spans in order, none before `low`, none overlapping another, all within the text.
  abbrev pub IsOrdered : ℕ → Spans → Type 0
  IsOrdered low [] = Unit
  IsOrdered low (s ∷ ss) = (low ≤ s.start) × (s.start < s.end) × (s.end ≤ size) × IsOrdered s.end ss

  merge-IsOrdered :
      (room low : ℕ) (ss : Spans)
      → All (IsWithin size) ss
      → IsOrdered low (merge_after room low ss) × (length (merge_after room low ss) ≤ room)
  unfolding merge_after
  merge-IsOrdered zero low ss h = (tt, omega arith)
  merge-IsOrdered (suc room) low [] h = (tt, omega arith)
  merge-IsOrdered (suc room) low (s ∷ ss) h =
      let (skipped, fewer) = merge-IsOrdered (suc room) low ss h.1 in
      let (kept, bound) = merge-IsOrdered room s.end ss h.1 in
      of_both_known (λ r. IsOrdered low r × (length r ≤ suc room)) (ltb s.start low)
        (λ _. (skipped, fewer)) (λ e. ((ground (arith, e), h.0.0, h.0.1, kept), omega arith))

abbrev AllSpans : Text → Option Spans → Type 0
AllSpans text o = (out : Spans) → o ≡ some out → All (IsWithin (length text)) out

then_within :
    (text : Text) (kind : PiiKind) (at : Text → Text → Hit) (cap : ℕ) (o : Option Spans)
    → InText at
    → AllSpans text o
    → AllSpans text (then_scan (λ s. scan kind at cap (length text) 0 [] text s) o)
then_within text kind at cap none in_text h out e = cc
then_within text kind at cap (some spans) in_text h out e =
    scan_within kind at in_text cap (length text) (length text) 0 [] text spans out refl
      (omega arith) (h spans refl) e

all_spans_within : (text : Text) → AllSpans text (all_spans text)
unfolding all_spans scan_user_profile_path scan_machine_name scan_environment_variable
    scan_ip_address scan_email_address scan_windows_account_name
all_spans_within text =
    let c = max_pii_findings in
    then_within text PiiKind.windows_account_name windows_account_name_at c _
      windows_account_name_in
      (then_within text PiiKind.email_address email_address_at c _ email_address_in (
        then_within text PiiKind.ip_address ip_address_at c _ ip_address_in (
          then_within text PiiKind.environment_variable environment_variable_at c _
            environment_variable_in
            (then_within text PiiKind.machine_name machine_name_at c _ machine_name_in (
              then_within text PiiKind.user_profile_path user_profile_at c (some []) user_profile_in
                (λ out e. subst (All (IsWithin (length text))) (some_inj e) tt))))))

pub collect-IsOrdered :
    (text : Text) (spans : Spans)
    → collect_spans text ≡ some spans
    → IsOrdered (length text) 0 spans × (length spans ≤ max_pii_findings)
unfolding collect_spans
collect-IsOrdered text spans h =
    let (found, e, same) = map_inv _ (all_spans text) h in
    let sorted = sort-IsWithin (length text) found (all_spans_within text found e) in
    subst (λ r. IsOrdered (length text) 0 r × (length r ≤ max_pii_findings)) same
      (merge-IsOrdered (length text) max_pii_findings 0 (sort_spans found) sorted)
