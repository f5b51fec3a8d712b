-- ===== src/Diagnostics/Privacy/Redaction.antt =====
-- What `sanitize_pii` of crates/tick-diagnostics/src/privacy.rs returns: the text outside the spans
-- as it was, and the fixed token in place of each.
use mathlib.Core.List.{append_assoc}
use native.Mathlib.Nat.{zero-add, suc-add}
use true_tick.Base.{
  ℕ, zero, suc, ◌+◌, ◌-◌, ◌≤◌, ◌≡◌, refl, List, [], ◌∷◌, ◌++◌, some, length, length-take, take,
  drop, arith, ap, sym, ◌∙◌, map, map_inv, take-append-drop, drop_past, is_empty, if◌then◌else◌,
}
use true_tick.Base.Text.{Text, codes}
use true_tick.Diagnostics.Privacy.{collect_spans, finding, redact, sanitize_pii, PiiFinding}
use true_tick.Diagnostics.Privacy.Scan.{Spans, max_pii_findings}
use true_tick.Diagnostics.Privacy.Ordered.{IsOrdered, collect-IsOrdered}

-- The text from a position on, copied but for the spans.
unfoldable pub copied : ℕ → Text → Spans → Text
copied position rest [] = rest
copied position rest (s ∷ ss) =
    take (s.start - position) rest
    ++ codes "[redacted]"
    ++ copied s.end (drop (s.end - position) rest) ss

module _ {ℓ} {A : Type ℓ} where
  take-take-drop : (n k : ℕ) (xs : List A) → take n xs ++ take k (drop n xs) ≡ take (n + k) xs
  take-take-drop zero k xs = rw (zero-add k)
  take-take-drop (suc n) zero [] = rw (suc-add n 0)
  take-take-drop (suc n) (suc k) [] = rw (suc-add n (suc k))
  take-take-drop (suc n) k (x ∷ xs) = rw (suc-add n k) (ap (λ t. x ∷ t) (take-take-drop n k xs))

  drop-drop : (n k : ℕ) (xs : List A) → drop k (drop n xs) ≡ drop (n + k) xs
  drop-drop zero k xs = rw (zero-add k)
  drop-drop (suc n) zero [] = rw (suc-add n 0)
  drop-drop (suc n) (suc k) [] = rw (suc-add n (suc k))
  drop-drop (suc n) k (x ∷ xs) = rw (suc-add n k) (drop-drop n k xs)

  take-take_append :
      (n m : ℕ) (xs ys : List A) → n ≤ m → m ≤ length xs → take n (take m xs ++ ys) ≡ take n xs
  take-take_append zero m xs ys h k = refl
  take-take_append (suc n) zero xs ys h k = absurd (omega arith)
  take-take_append (suc n) (suc m) [] ys h k = absurd (omega arith)
  take-take_append (suc n) (suc m) (x ∷ xs) ys h k =
      ap (λ t. x ∷ t) (take-take_append n m xs ys (omega arith) (omega arith))

redact-copied :
    (low : ℕ) (text : Text) (ss : Spans)
    → low ≤ length text
    → IsOrdered (length text) low ss
    → redact ss text ≡ take low text ++ copied low (drop low text) ss
unfolding redact copied
redact-copied low text [] h k = sym (take-append-drop low text)
redact-copied low text (s ∷ ss) h (after, some_bytes, within, later) =
    let token = codes "[redacted]" in
    let tail = copied s.end (drop s.end text) ss in
    let redacted : redact ss text ≡ take s.end text ++ tail =
      redact-copied s.end text ss within later in
    let front : take s.start (redact ss text)
        ≡ take low text ++ take (s.start - low) (drop low text) =
      ap (take s.start) redacted
      ∙ take-take_append s.start s.end text tail (omega arith) within
      ∙ ap (λ n. take n text) {y = low + (s.start - low)} (omega arith)
      ∙ sym (take-take-drop low (s.start - low) text) in
    let back : drop s.end (redact ss text) ≡ tail =
      ap (drop s.end) redacted
      ∙ drop_past s.end 0 (take s.end text) tail (omega (arith, length-take s.end text)) in
    let rest : drop (s.end - low) (drop low text) ≡ drop s.end text =
      drop-drop low (s.end - low) text
      ∙ ap (λ n. drop n text) {x = low + (s.end - low)} (omega arith) in
    rw (front, back, rest)
      (ap (λ t. t ++ tail)
          (append_assoc (take low text) (take (s.start - low) (drop low text)) token)
        ∙ append_assoc (take low text) (take (s.start - low) (drop low text) ++ token) tail)

-- A text that is redacted is copied byte for byte but for at most 32 spans, in order, apart and
-- within the text, each replaced by the fixed token, and the findings are those of the spans.
pub sanitize_pii-copied :
    (field text out : Text) (findings : List PiiFinding)
    → sanitize_pii field text ≡ some (out, findings)
    → (spans : Spans) × IsOrdered (length text) 0 spans
      × (length spans ≤ max_pii_findings)
      × (out ≡ copied 0 text spans)
      × (findings ≡ map (finding field) spans)
unfolding sanitize_pii copied
sanitize_pii-copied field text out findings h =
    let (spans, found, same) = map_inv _ (collect_spans text) h in
    let (ordered, bound) = collect-IsOrdered text spans found in
    let (copy, listed) = result spans ordered same in (spans, ordered, bound, copy, listed)
  where
    result :
        (spans : Spans)
        → IsOrdered (length text) 0 spans
        → ◌≡◌ {A = Text × List PiiFinding}
            (if is_empty spans then (text, []) else (redact spans text, map (finding field) spans))
            (out, findings)
        → (out ≡ copied 0 text spans) × (findings ≡ map (finding field) spans)
    result [] ordered same = (ap (λ p. p.0) (sym same), ap (λ p. p.1) (sym same))
    result (s ∷ ss) ordered same = (
      ap (λ p. p.0) (sym same) ∙ redact-copied 0 text (s ∷ ss) (omega arith) ordered,
      ap (λ p. p.1) (sym same),
    )
