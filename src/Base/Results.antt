-- ===== src/Base/Results.antt =====
-- What a function that may throw returns, and the steps of such a function in a `do` block.
use mathlib.Core.Path.{◌≡◌, refl}
use mathlib.Core.Logic.{◌⊎◌, inl, inr}
use mathlib.Core.Option.{Option, none, some}

pub data Result {ℓ κ} (E : Type κ) (A : Type ℓ) : Type (ℓ ⊔ κ) where
  err : E → Result E A
  ok : A → Result E A

infixl 5 ◌>>=◌
abbrev pub ◌>>=◌ {ℓ κ μ} :
    {E : Type κ} {A : Type ℓ} {B : Type μ} → Result E A → (A → Result E B) → Result E B
err why >>= next = err why
ok result >>= next = next result

abbrev pub or_throw {ℓ κ} : {E : Type κ} {A : Type ℓ} → Option A → E → Result E A
or_throw none e = err e
or_throw (some a) e = ok a

pub Result-cases {ℓ κ} :
    {E : Type κ} {A : Type ℓ} (r : Result E A) → ((e : E) × (r ≡ err e)) ⊎ ((a : A) × (r ≡ ok a))
Result-cases (err e) = inl (e, refl)
Result-cases (ok a) = inr (a, refl)
