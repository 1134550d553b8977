-- ===== src/Prelude/Results.antt =====
-- A Go pair `(value, error)`: exactly one of the two is meaningful.
use mathlib.Core.Path.{◌≡◌, refl}
use mathlib.Core.Logic.{◌⊎◌, inl, inr}

module _ {ℓ κ} where
  pub data Result (E : Type κ) (A : Type ℓ) : Type (ℓ ⊔ κ) where
    ok : A → Result E A
    err : E → Result E A

pub Result-cases {ℓ κ} :
    {E : Type κ} {A : Type ℓ} (r : Result E A) → ((a : A) × (r ≡ ok a)) ⊎ ((e : E) × (r ≡ err e))
Result-cases (ok a) = inl (a, refl)
Result-cases (err e) = inr (e, refl)

-- The early return on an error that is not nil.
infixl 5 ◌>>=◌
abbrev pub ◌>>=◌ {ℓ κ μ} :
    {E : Type μ} {A : Type ℓ} {B : Type κ} → Result E A → (A → Result E B) → Result E B
◌>>=◌ call next = elim call [ ok value ↦ next value | err reason ↦ err reason ]
