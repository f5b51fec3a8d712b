-- ===== src/Diagnostics/Store/Chain.antt =====
-- crates/tick-diagnostics/src/lib.rs: `verify_event_chain`, and what it accepts.
use true_tick.Base.{
  ℕ, suc, ◌≡◌, ◌↔◌, refl, ◌==◌, Bool, true, false, not, ◌||◌, List, [], ◌∷◌, Result, ok, err,
  Bool-cases, inl, inr, arith, ap, ◌∙◌,
}
use true_tick.Base.Bytes.{bytes_eq, eq_of_bytes_eq, bytes_eq_self}
use true_tick.Base.Text.{Text}
use true_tick.Diagnostics.{DiagnosticEvent}
use true_tick.Diagnostics.Store.{compute_entry_hash}
use true_tick.Diagnostics.State.{next_u64}

-- Why a slice of events is refused.
pub data ChainError : Type 0 where
  entry_hash_mismatch previous_hash_link_mismatch : ChainError

abbrev pub Verdict : Type 0
Verdict = Result (Unit {0}) (ℕ × ChainError)

-- The verdict at a row, from its two tests and the verdict on the rows behind it.
abbrev pub row_verdict : ℕ → Bool → Bool → Verdict → Verdict
row_verdict index false linked rest = err (index, entry_hash_mismatch)
row_verdict index true false rest = err (index, previous_hash_link_mismatch)
row_verdict index true true rest = rest

abbrev pub is_linked : DiagnosticEvent → DiagnosticEvent → Bool
is_linked previous e =
    not (e.sequence == next_u64 previous.sequence) || bytes_eq previous.entry_hash e.prev_hash

-- Where a row follows another by its number, its link is that row's hash.
abbrev pub IsLinked : DiagnosticEvent → DiagnosticEvent → Type 0
IsLinked previous e = e.sequence ≡ next_u64 previous.sequence → previous.entry_hash ≡ e.prev_hash

row_verdict_inv :
    (index : ℕ) (genuine linked : Bool) (rest : Verdict)
    → row_verdict index genuine linked rest ≡ ok tt
    → (genuine ≡ true) × (linked ≡ true) × (rest ≡ ok tt)
row_verdict_inv index false linked rest h = cc
row_verdict_inv index true false rest h = cc
row_verdict_inv index true true rest h = (refl, refl, h)

IsLinked-iff : (p e : DiagnosticEvent) → (is_linked p e ≡ true) ↔ IsLinked p e
IsLinked-iff p e = (
  λ h n. eq_of_bytes_eq p.entry_hash e.prev_hash (ground (arith, h, n)),
  λ h. elim (Bool-cases (e.sequence == next_u64 p.sequence)) [
    | inl t ↦
        let same = h (ground (arith, t)) in
        ground (arith, t, ap (λ x. bytes_eq x e.prev_hash) same ∙ bytes_eq_self e.prev_hash)
    | inr f ↦ rw f refl
  ],
)

module _ (sha256 : Text → Text) where
  abbrev pub is_genuine : DiagnosticEvent → Bool
  is_genuine e =
      bytes_eq e.entry_hash
        (compute_entry_hash sha256 e.prev_hash e.sequence e.elapsed e.name e.details)

  -- The rows after the first, from their index and the row before.
  unfoldable pub verify_after : ℕ → DiagnosticEvent → List DiagnosticEvent → Verdict
  verify_after index previous [] = ok tt
  verify_after index previous (e ∷ es) =
      row_verdict index (is_genuine e) (is_linked previous e) (verify_after (suc index) e es)

  unfoldable pub verify_event_chain : List DiagnosticEvent → Verdict
  verify_event_chain [] = ok tt
  verify_event_chain (e ∷ es) = row_verdict 0 (is_genuine e) true (verify_after 1 e es)

  unfoldable pub IsGenuine : DiagnosticEvent → Type 0
  IsGenuine e =
      e.entry_hash ≡ compute_entry_hash sha256 e.prev_hash e.sequence e.elapsed e.name e.details

  abbrev pub After : DiagnosticEvent → List DiagnosticEvent → Type 0
  After previous [] = Unit
  After previous (e ∷ es) = IsGenuine e × IsLinked previous e × After e es

  abbrev pub IsChain : List DiagnosticEvent → Type 0
  IsChain [] = Unit
  IsChain (e ∷ es) = IsGenuine e × After e es

  IsGenuine-iff : (e : DiagnosticEvent) → (is_genuine e ≡ true) ↔ IsGenuine e
  unfolding IsGenuine
  IsGenuine-iff e =
      let hash = compute_entry_hash sha256 e.prev_hash e.sequence e.elapsed e.name e.details in
      (
        λ h. eq_of_bytes_eq e.entry_hash hash h,
        λ h. ap (λ t. bytes_eq t hash) h ∙ bytes_eq_self hash,
      )

  After-iff :
      (index : ℕ) (p : DiagnosticEvent) (es : List DiagnosticEvent)
      → (verify_after index p es ≡ ok tt) ↔ After p es
  unfolding verify_after
  After-iff index p [] = (λ h. tt, λ h. refl)
  After-iff index p (e ∷ es) = (
    λ h.
        let (g, l, rest) = row_verdict_inv index (is_genuine e) (is_linked p e) _ h in
        ((IsGenuine-iff e).0 g, (IsLinked-iff p e).0 l, (After-iff (suc index) e es).0 rest),
    λ h.
        rw ((IsGenuine-iff e).1 h.0, (IsLinked-iff p e).1 h.1) ((After-iff (suc index) e es).1 h.2),
  )

  -- A list of events verifies exactly when each entry hash is that of its row and each row whose
  -- number follows that of the row before has its hash as the link.
  pub verify_event_chain_iff :
      (es : List DiagnosticEvent) → (verify_event_chain es ≡ ok tt) ↔ IsChain es
  unfolding verify_event_chain
  verify_event_chain_iff [] = (λ h. tt, λ h. refl)
  verify_event_chain_iff (e ∷ es) = (
    λ h.
        let (g, l, rest) = row_verdict_inv 0 (is_genuine e) true _ h in
        ((IsGenuine-iff e).0 g, (After-iff 1 e es).0 rest),
    λ h. rw ((IsGenuine-iff e).1 h.0) ((After-iff 1 e es).1 h.1),
  )
