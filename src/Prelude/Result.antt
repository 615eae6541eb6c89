-- ===== src/Prelude/Result.antt =====
-- Go's `(value, error)`: a value, or an error that the caller sees.

use mathlib.Core.Path.{◌≡◌, refl}
use mathlib.Core.Logic.{◌⊎◌, inl, inr}
use mathlib.Core.Option.{Option, none, some}

pub data Result {ℓ κ} (E : Type ℓ) (A : Type κ) : Type (ℓ ⊔ κ) where
  ok : A → Result E A
  err : E → Result E A

-- The error that an empty option stands for.
abbrev pub or_err {ℓ κ} : {E : Type ℓ} {A : Type κ} → E → Option A → Result E A
or_err e none = err e
or_err e (some a) = ok a

pub Result-cases {ℓ κ} :
    {E : Type ℓ} {A : Type κ} (r : Result E A) → ((e : E) × (r ≡ err e)) ⊎ ((a : A) × (r ≡ ok a))
Result-cases (ok a) = inr (a, refl)
Result-cases (err e) = inl (e, refl)
