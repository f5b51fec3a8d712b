-- ===== src/Base/Pairs.antt =====
-- Relations between the elements of a list and those behind them.
use mathlib.Core.List.{List, [], ◌∷◌, ◌++◌}
use true_tick.Base.Lists.{All, All-append}

abbrev pub Pairwise {ℓ κ} : {A : Type ℓ} → (A → A → Type κ) → List A → Type κ
Pairwise R [] = Unit
Pairwise R (x ∷ xs) = All (R x) xs × Pairwise R xs

module _ {ℓ κ μ} {A : Type ℓ} (P : A → Type κ) (Q : A → Type μ) where
  pub All-map : ((x : A) → P x → Q x) → (xs : List A) → All P xs → All Q xs
  All-map f [] h = tt
  All-map f (x ∷ xs) h = (f x h.0, All-map f xs h.1)

module _ {ℓ κ} {A : Type ℓ} (R : A → A → Type κ) where
  pub Pairwise-snoc :
      (xs : List A) (y : A) → Pairwise R xs → All (λ x. R x y) xs → Pairwise R (xs ++ y ∷ [])
  Pairwise-snoc [] y h k = (tt, tt)
  Pairwise-snoc (x ∷ xs) y h k =
      (All-append (R x) xs (y ∷ []) h.0 (k.0, tt), Pairwise-snoc xs y h.1 k.1)

  All-middle : (P : A → Type κ) (xs : List A) (y : A) (ys : List A) → All P (xs ++ y ∷ ys) → P y
  All-middle P [] y ys h = h.0
  All-middle P (x ∷ xs) y ys h = All-middle P xs y ys h.1

  -- What stands before an element is related to it.
  pub Pairwise-before :
      (xs : List A) (y : A) (ys : List A) → Pairwise R (xs ++ y ∷ ys) → All (λ x. R x y) xs
  Pairwise-before [] y ys h = tt
  Pairwise-before (x ∷ xs) y ys h = (All-middle (R x) xs y ys h.0, Pairwise-before xs y ys h.1)
