-- ===== src/Base/Results.antt =====
-- `Result` of Rust, and the computations that keep their state when they fail.
use mathlib.Core.Path.{◌≡◌, refl}

pub data Result {ℓ κ} (A : Type ℓ) (E : Type κ) : Type (ℓ ⊔ κ) where
  ok : A → Result A E
  err : E → Result A E

-- A method on `&mut S` that returns `Result<A, E>`.
abbrev pub Method {ℓ κ ι} : Type ℓ → Type κ → Type ι → Type (ℓ ⊔ κ ⊔ ι)
Method S A E = S → Result A E × S

-- The `?` operator: an error returns at once, with the state as it stands.
infixl 5 ◌>>=◌ ◌>>◌
abbrev pub ◌>>=◌ {ℓ κ ι μ} :
    {S : Type ℓ} {A : Type κ} {B : Type μ} {E : Type ι}
    → Method S A E
    → (A → Method S B E)
    → Method S B E
◌>>=◌ m f s = let (r, t) = m s in elim r [ ok a ↦ f a t | err e ↦ (err e, t) ]

abbrev pub ◌>>◌ {ℓ ι μ} :
    {S : Type ℓ} {B : Type μ} {E : Type ι} → Method S (Unit {0}) E → Method S B E → Method S B E
m >> k = m >>= λ _. k

abbrev pub done {ℓ κ ι} : {S : Type ℓ} {A : Type κ} {E : Type ι} → Result A E → Method S A E
done r s = (r, s)

-- What a chain that succeeds has passed, and the state between.
pub method_inv {ℓ κ ι μ} :
    {S : Type ℓ} {A : Type κ} {B : Type μ} {E : Type ι} (m : Method S A E) (f : A → Method S B E)
    (s : S) {b : B} {v : S}
    → (m >>= f) s ≡ (ok b, v)
    → (a : A) × (u : S) × (m s ≡ (ok a, u)) × (f a u ≡ (ok b, v))
method_inv {S = S} {A = A} {B = B} {E = E} m f s {b = b} {v = v} h = go (m s) refl h
  where
    go :
        (p : Result A E × S)
        → m s ≡ p
        → ◌≡◌ {A = Result B E × S}
            (let (r, t) = p in elim r [ ok a ↦ f a t | err e ↦ (err e, t) ])
            (ok b, v)
        → (a : A) × (u : S) × (m s ≡ (ok a, u)) × (f a u ≡ (ok b, v))
    go (ok a, u) e h = (a, u, e, h)
    go (err x, u) e h = cc
