-- ===== src/Base/Results.antt =====
-- Python's exceptions as values.
use mathlib.Core.Path.{◌≡◌, refl}

pub data Result {ℓ κ} (E : Type ℓ) (A : Type κ) : Type (ℓ ⊔ κ) where
  ok : A → Result E A
  err : E → Result E A

infixl 5 ◌>>=◌
abbrev pub ◌>>=◌ {ℓ κ μ} :
    {E : Type ℓ} {A : Type κ} {B : Type μ} → Result E A → (A → Result E B) → Result E B
ok a >>= f = f a
err e >>= f = err e

-- What holds of the two ends of a chain.
pub if_bind {ℓ κ μ ν} :
    {E : Type ℓ} {A : Type κ} {B : Type μ} (P : Result E B → Type ν) (m : Result E A)
    (f : A → Result E B)
    → ((e : E) → P (err e))
    → ((a : A) → m ≡ ok a → P (f a))
    → P (m >>= f)
if_bind P (ok a) f failed go = go a refl
if_bind P (err e) f failed go = failed e
