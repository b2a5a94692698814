-- ===== src/Base/Fill.antt =====
-- `memcpy` into a window whose rest is filled: the first bytes of a source, padded to a size.
use Prim.Native.Nat.{ℕ, zero, suc, ◌<◌}
use mathlib.Core.Path.{◌≡◌, refl, ap}
use mathlib.Core.List.{List, [], ◌∷◌}
use native.Mathlib.Omega.{arith}
use proto_time.Base.Lists.{length, get_or, replicate, length-replicate}

-- The first `n` elements of `src`, with `pad` behind them where `src` is shorter.
abbrev pub fit {ℓ} : {A : Type ℓ} → ℕ → A → List A → List A
fit zero pad src = []
fit (suc n) pad [] = pad ∷ fit n pad []
fit (suc n) pad (x ∷ src) = x ∷ fit n pad src

module _ {ℓ} {A : Type ℓ} where
  pub length-fit : (n : ℕ) (pad : A) (src : List A) → length (fit n pad src) ≡ n
  length-fit zero pad src = refl
  length-fit (suc n) pad [] = ap suc (length-fit n pad [])
  length-fit (suc n) pad (x ∷ src) = ap suc (length-fit n pad src)

  pub get_or-fit :
      (n : ℕ) (pad : A) (src : List A) (i : ℕ)
      → i < n
      → get_or (fit n pad src) i pad ≡ get_or src i pad
  get_or-fit zero pad src i h = absurd (omega arith)
  get_or-fit (suc n) pad [] zero h = refl
  get_or-fit (suc n) pad [] (suc i) h = get_or-fit n pad [] i (omega arith)
  get_or-fit (suc n) pad (x ∷ src) zero h = refl
  get_or-fit (suc n) pad (x ∷ src) (suc i) h = get_or-fit n pad src i (omega arith)

  pub fit-length : (pad : A) (src : List A) → fit (length src) pad src ≡ src
  fit-length pad [] = refl
  fit-length pad (x ∷ src) = ap (◌∷◌ x) (fit-length pad src)

-- An array of one value that is not computed with: tests use its length alone.
pub filled : ℕ → ℕ → List ℕ
filled n v = replicate n v

pub length-filled : (n v : ℕ) → length (filled n v) ≡ n
unfolding filled
length-filled n v = length-replicate n v
