-- ===== src/Base/Outcome.antt =====
-- Code that throws, as a value: the result, or the error that leaves the state as it was.
use mathlib.Core.Path.{◌≡◌, ap}

pub data Outcome {ℓ κ} (E : Type ℓ) (A : Type κ) : Type (ℓ ⊔ κ) where
  done : A → Outcome E A
  throws : E → Outcome E A

infixl 5 ◌>>=◌
abbrev pub ◌>>=◌ {ℓ κ μ} :
    {E : Type ℓ} {A : Type κ} {B : Type μ} → Outcome E A → (A → Outcome E B) → Outcome E B
done a >>= f = f a
throws e >>= f = throws e

-- A computation that gives a value goes on with it.
pub bind_done {ℓ κ μ} :
    {E : Type ℓ} {A : Type κ} {B : Type μ} {r : Outcome E A} {a : A} (f : A → Outcome E B)
    → r ≡ done a
    → (r >>= f) ≡ f a
bind_done f h = ap (λ r. r >>= f) h
