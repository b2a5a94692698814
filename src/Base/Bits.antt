-- ===== src/Base/Bits.antt =====
-- The bit operations of the source as arithmetic on native numbers, and the proof that the two
-- agree: `x & (2^k - 1)`, `(x & (1 << k)) != 0`, and `(hi << k) | lo` with `lo` below `2^k`.
use Prim.Native.Nat.{
  ℕ, zero, suc, ◌+◌, ◌-◌, ◌*◌, ◌/◌, ◌%◌, ◌^◌, ◌≤◌, ◌<◌, min, max, bit_and, bit_or, digits,
  bit_and-bitwise, bit_or-bitwise, bit_xor, bit_xor-bitwise, differ,
}
use mathlib.Core.Path.{◌≡◌, refl, ap}
use mathlib.Core.Bool.{Bool}
use native.Mathlib.Omega.{arith}
use native.Mathlib.Nat.{pow-suc, one-le-pow, div-div-eq-div-mul}
use proto_time.Base.Tests.{◌==◌, if◌then◌else◌}

-- `x & (2^k - 1)`
abbrev pub low_bits : ℕ → ℕ → ℕ
low_bits k x = x % 2 ^ k

-- `x >> k`
abbrev pub shr : ℕ → ℕ → ℕ
shr k x = x / 2 ^ k

-- `(x & (1 << k)) != 0`
abbrev pub test_bit : ℕ → ℕ → Bool
test_bit k x = (x / 2 ^ k % 2) == 1

-- `(hi << k) | lo` where `lo` has at most `k` bits
abbrev pub join : ℕ → ℕ → ℕ → ℕ
join k hi lo = hi * 2 ^ k + lo

-- The native operations recur on the digits of the first number, which is also their fuel.
-- Any fuel that is not below that number gives the same.
module _ (z : ℕ → ℕ) (f : ℕ → ℕ → ℕ) where
  digits_fuel : (m n a b : ℕ) → a ≤ m → a ≤ n → digits z f m a b ≡ digits z f n a b
  digits_fuel zero zero a b p q = refl
  digits_fuel zero (suc n) zero b p q = refl
  digits_fuel zero (suc n) (suc a) b p q = absurd (omega arith)
  digits_fuel (suc m) zero zero b p q = refl
  digits_fuel (suc m) zero (suc a) b p q = absurd (omega arith)
  digits_fuel (suc m) (suc n) zero b p q = refl
  digits_fuel (suc m) (suc n) (suc a) b p q =
      ap (λ (t : ℕ). t * 2 + f (suc a % 2) (b % 2))
        (digits_fuel m n (suc a / 2) (b / 2) (omega arith) (omega arith))

  digits_step :
      (a b : ℕ)
      → digits z f (suc a) (suc a) b
        ≡ digits z f (suc a / 2) (suc a / 2) (b / 2) * 2 + f (suc a % 2) (b % 2)
  digits_step a b =
      ap (λ (t : ℕ). t * 2 + f (suc a % 2) (b % 2))
        (digits_fuel a (suc a / 2) (suc a / 2) (b / 2) (omega arith) (omega arith))

bit_and_step : (a b : ℕ) → bit_and a b ≡ bit_and (a / 2) (b / 2) * 2 + min (a % 2) (b % 2)
bit_and_step zero b = omega (arith, bit_and-bitwise 0 b, bit_and-bitwise 0 (b / 2))
bit_and_step (suc a) b = omega (
  arith,
  bit_and-bitwise (suc a) b,
  bit_and-bitwise (suc a / 2) (b / 2),
  digits_step (λ y. 0) min a b,
)

bit_or_step : (a b : ℕ) → bit_or a b ≡ bit_or (a / 2) (b / 2) * 2 + max (a % 2) (b % 2)
bit_or_step zero b = omega (arith, bit_or-bitwise 0 b, bit_or-bitwise 0 (b / 2))
bit_or_step (suc a) b = omega (
  arith,
  bit_or-bitwise (suc a) b,
  bit_or-bitwise (suc a / 2) (b / 2),
  digits_step (λ y. y) max a b,
)

bit_and-zero : (n a : ℕ) → a ≤ n → bit_and a 0 ≡ 0
bit_and-zero n zero h = refl
bit_and-zero zero (suc a) h = absurd (omega arith)
bit_and-zero (suc n) (suc a) h =
    omega (arith, bit_and_step (suc a) 0, bit_and-zero n (suc a / 2) (omega arith))

bit_or-zero : (n a : ℕ) → a ≤ n → bit_or a 0 ≡ a
bit_or-zero n zero h = refl
bit_or-zero zero (suc a) h = absurd (omega arith)
bit_or-zero (suc n) (suc a) h =
    omega (arith, bit_or_step (suc a) 0, bit_or-zero n (suc a / 2) (omega arith))

mod_two-mul : (p x : ℕ) → 1 ≤ p → x % (2 * p) ≡ (x / 2 % p) * 2 + x % 2
mod_two-mul p x h = grind arith

-- `x & (2^k - 1)` is the remainder by `2^k`.
pub bit_and_mask : (k x : ℕ) → bit_and x (2 ^ k - 1) ≡ low_bits k x
bit_and_mask zero x = omega (arith, bit_and-zero x x (omega arith))
bit_and_mask (suc k) x = ground (
  arith,
  bit_and_step x (2 ^ suc k - 1),
  pow-suc 2 k,
  one-le-pow k 2,
  bit_and_mask k (x / 2),
  mod_two-mul (2 ^ k) x,
)

-- `(hi << k) | lo` is a sum where `lo` is below `2^k`.
pub bit_or-join : (k hi lo : ℕ) → lo < 2 ^ k → bit_or (hi * 2 ^ k) lo ≡ join k hi lo
bit_or-join zero hi lo h = ground (arith, bit_or-zero hi hi)
bit_or-join (suc k) hi lo h = ground (
  arith,
  bit_or_step (hi * 2 ^ suc k) lo,
  pow-suc 2 k,
  ap (λ (t : ℕ). hi * t) (pow-suc 2 k),
  bit_or-join k hi (lo / 2) (omega (arith, pow-suc 2 k)),
)

-- Bounds of the operations on numbers of `k` bits.
pub bit_and_le : (k a b : ℕ) → b < 2 ^ k → bit_and a b ≤ b
bit_and_le zero a zero h = omega (arith, bit_and-zero a a (omega arith))
bit_and_le zero a (suc b) h = absurd (omega arith)
bit_and_le (suc k) a b h =
    omega (arith, bit_and_step a b, bit_and_le k (a / 2) (b / 2) (omega (arith, pow-suc 2 k)))

pub bit_or_bound : (k a b : ℕ) → a < 2 ^ k → b < 2 ^ k → bit_or a b < 2 ^ k
bit_or_bound zero zero zero h g = omega arith
bit_or_bound zero (suc a) b h g = absurd (omega arith)
bit_or_bound zero zero (suc b) h g = absurd (omega arith)
bit_or_bound (suc k) a b h g = omega (
  arith,
  bit_or_step a b,
  pow-suc 2 k,
  bit_or_bound k (a / 2) (b / 2) (omega (arith, pow-suc 2 k)) (omega (arith, pow-suc 2 k)),
)

differ_bound : (a b : ℕ) → a < 2 → b < 2 → differ a b < 2
differ_bound zero b p q = q
differ_bound (suc zero) zero p q = omega arith
differ_bound (suc zero) (suc zero) p q = omega arith
differ_bound (suc zero) (suc (suc b)) p q = absurd (omega arith)
differ_bound (suc (suc a)) b p q = absurd (omega arith)

bit_xor-zero : (b : ℕ) → bit_xor 0 b ≡ b
bit_xor-zero b = omega (arith, bit_xor-bitwise 0 b)

bit_xor_step : (a b : ℕ) → bit_xor a b ≡ bit_xor (a / 2) (b / 2) * 2 + differ (a % 2) (b % 2)
bit_xor_step zero b = omega (arith, bit_xor-zero b, bit_xor-zero (b / 2))
bit_xor_step (suc a) b = omega (
  arith,
  bit_xor-bitwise (suc a) b,
  bit_xor-bitwise (suc a / 2) (b / 2),
  digits_step (λ y. y) differ a b,
)

pub bit_xor_bound : (k a b : ℕ) → a < 2 ^ k → b < 2 ^ k → bit_xor a b < 2 ^ k
bit_xor_bound zero zero zero h g = omega (arith, bit_xor-zero 0)
bit_xor_bound zero (suc a) b h g = absurd (omega arith)
bit_xor_bound zero zero (suc b) h g = absurd (omega arith)
bit_xor_bound (suc k) a b h g = omega (
  arith,
  bit_xor_step a b,
  pow-suc 2 k,
  differ_bound (a % 2) (b % 2) (omega arith) (omega arith),
  bit_xor_bound k (a / 2) (b / 2) (omega (arith, pow-suc 2 k)) (omega (arith, pow-suc 2 k)),
)

-- `x | (1 << k)` as arithmetic.
pub bit_or_single : (k x : ℕ) → bit_or x (2 ^ k) ≡ (if test_bit k x then x else x + 2 ^ k)
bit_or_single zero x = ground (arith, bit_or_step x 1, bit_or-zero (x / 2) (x / 2))
bit_or_single (suc k) x = ground (
  arith,
  bit_or_step x (2 ^ suc k),
  pow-suc 2 k,
  one-le-pow k 2,
  div-div-eq-div-mul x 2 (2 ^ k),
  bit_or_single k (x / 2),
)

-- A mask whose low four bits are clear leaves none of them.
pub bit_and_high_half : (a b : ℕ) → bit_and a (16 * b) % 16 ≡ 0
bit_and_high_half a b = omega (
  arith,
  bit_and_step a (16 * b),
  bit_and_step (a / 2) (16 * b / 2),
  bit_and_step (a / 2 / 2) (16 * b / 2 / 2),
  bit_and_step (a / 2 / 2 / 2) (16 * b / 2 / 2 / 2),
)
