-- ===== src/Base/Finite.antt =====
-- Checking a test on all numbers below a bound, by running it.
use Prim.Native.Nat.{ℕ, zero, suc, ◌<◌}
use mathlib.Core.Path.{◌≡◌, sym, subst}
use mathlib.Core.Logic.{◌⊎◌, inl, inr}
use mathlib.Core.Bool.{Bool, true, ◌&&◌}
use native.Mathlib.Omega.{arith}

-- A test that holds of all numbers below a bound.
unfoldable pub all_below : ℕ → (ℕ → Bool) → Bool
all_below zero f = true
all_below (suc n) f = f n && all_below n f

pub all_below-elim : (n : ℕ) (f : ℕ → Bool) → all_below n f ≡ true → (i : ℕ) → i < n → f i ≡ true
unfolding all_below
all_below-elim zero f h i p = absurd (omega arith)
all_below-elim (suc n) f h i p = elim (below_suc i n p) [
  | inl q ↦ all_below-elim n f (and_right (f n) (all_below n f) h) i q
  | inr q ↦ subst (λ j. f j ≡ true) (sym q) (and_left (f n) (all_below n f) h)
]
  where
    below_suc : (a b : ℕ) → a < suc b → (a < b) ⊎ (a ≡ b)
    below_suc a b r = ground arith

    and_left : (a b : Bool) → (a && b) ≡ true → a ≡ true
    and_left a b r = ground arith

    and_right : (a b : Bool) → (a && b) ≡ true → b ≡ true
    and_right a b r = ground arith
