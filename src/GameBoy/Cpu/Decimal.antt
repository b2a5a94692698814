-- ===== src/GameBoy/Cpu/Decimal.antt =====
-- DAA after an addition or a subtraction of two packed decimal bytes.
use proto_time.Base.{
  ℕ, ◌+◌, ◌-◌, ◌*◌, ◌/◌, ◌%◌, ◌<◌, Bool, true, false, not, ◌&&◌, ◌≡◌, refl, ap, arith, ◌∙◌, ltb,
  if◌then◌else◌, ◌==◌,
}
use proto_time.Base.Finite.{all_below, all_below-elim}
use proto_time.Base.Bits.{test_bit}
use proto_time.GameBoy.Cpu.Registers.{flag_byte, u8}
use proto_time.GameBoy.Cpu.Alu.{AluResult, math_op, decimal_adjust, carry_bit}

-- The packed decimal byte of a number below 100.
unfoldable pub bcd : ℕ → ℕ
bcd n = n / 10 * 16 + n % 10

-- The byte that DAA leaves after an arithmetic instruction, and its carry.
unfoldable pub adjusted : AluResult → AluResult
adjusted r = decimal_adjust r.value (flag_byte r.z r.n r.h r.c)

flag_bits :
    (z n h c : Bool)
    → (test_bit 6 (flag_byte z n h c) ≡ n)
      × (test_bit 5 (flag_byte z n h c) ≡ h)
      × (test_bit 4 (flag_byte z n h c) ≡ c)
unfolding flag_byte
flag_bits true true true true = (refl, refl, refl)
flag_bits true true true false = (refl, refl, refl)
flag_bits true true false true = (refl, refl, refl)
flag_bits true true false false = (refl, refl, refl)
flag_bits true false true true = (refl, refl, refl)
flag_bits true false true false = (refl, refl, refl)
flag_bits true false false true = (refl, refl, refl)
flag_bits true false false false = (refl, refl, refl)
flag_bits false true true true = (refl, refl, refl)
flag_bits false true true false = (refl, refl, refl)
flag_bits false true false true = (refl, refl, refl)
flag_bits false true false false = (refl, refl, refl)
flag_bits false false true true = (refl, refl, refl)
flag_bits false false true false = (refl, refl, refl)
flag_bits false false false true = (refl, refl, refl)
flag_bits false false false false = (refl, refl, refl)

-- What DAA makes of a sum whose digits add up to `s` and `t`, and of a difference whose digits
-- exceed by `s` and `t`, which are moved up by 10 and 9.
same_result : ℕ → Bool → AluResult → Bool
same_result v c r = (r.value == v) && (if c then r.c else not r.c)

same_result_sound :
    (v : ℕ) (c : Bool) (r : AluResult) → same_result v c r ≡ true → (r.value ≡ v) × (r.c ≡ c)
unfolding same_result
same_result_sound v c r h = (ground arith, ground arith)

summed : ℕ → ℕ → AluResult
summed t s = record {
  value = u8 (16 * t + s);
  z = u8 (16 * t + s) == 0;
  n = false;
  h = ltb 15 s;
  c = ltb 255 (16 * t + s);
}

subtracted : ℕ → ℕ → AluResult
subtracted t s = record {
  value = u8 (16 * t + s + 512 - 154);
  z = u8 (16 * t + s + 512 - 154) == 0;
  n = true;
  h = ltb s 10;
  c = ltb (16 * t + s) 154;
}

sum_at : ℕ → ℕ → Bool
sum_at t s = same_result (bcd ((10 * t + s) % 100)) (ltb 99 (10 * t + s)) (adjusted (summed t s))

difference_at : ℕ → ℕ → Bool
difference_at t s =
    same_result (bcd ((10 * t + s) % 100)) (ltb (10 * t + s) 100) (adjusted (subtracted t s))

all_sums : all_below 19 (λ t. all_below 20 (λ s. sum_at t s)) ≡ true
unfolding all_below sum_at same_result bcd adjusted summed decimal_adjust flag_byte
all_sums = refl

all_differences : all_below 19 (λ t. all_below 20 (λ s. difference_at t s)) ≡ true
unfolding all_below difference_at same_result bcd adjusted subtracted decimal_adjust flag_byte
all_differences = refl

two_digits :
    (f : ℕ → ℕ → Bool) (t s : ℕ)
    → all_below 19 (λ u. all_below 20 (λ v. f u v)) ≡ true
    → t < 19
    → s < 20
    → f t s ≡ true
two_digits f t s h p q =
    all_below-elim 20 (f t) (all_below-elim 19 (λ u. all_below 20 (f u)) h t p) s q

-- A result with its flags, of the value before it is cut to a byte.
abbrev result_of : Bool → ℕ → Bool → Bool → AluResult
result_of n x h c = record { value = u8 x; z = u8 x == 0; n = n; h = h; c = c }

same_result_of :
    (n : Bool) (x y : ℕ) (h g c d : Bool)
    → x ≡ y
    → h ≡ g
    → c ≡ d
    → result_of n x h c ≡ result_of n y g d
same_result_of n x y h g c d p q r =
    ap (λ v. result_of n v h c) p ∙ ap (λ v. result_of n y v c) q ∙ ap (λ v. result_of n y g v) r

adc_summed :
    (a b c d : ℕ) (carry : Bool)
    → a < 10
    → b < 10
    → c < 10
    → d < 10
    → math_op 0x88 (16 * a + b) (16 * c + d) carry ≡ summed (a + c) (b + d + carry_bit carry)
unfolding math_op summed
adc_summed a b c d carry p q r t =
    same_result_of false _ _ _ _ _ _ (omega arith) (ap (λ x. ltb 15 x) (ground arith))
      (ap (λ x. ltb 255 x) (omega arith))

sbc_subtracted :
    (a b c d : ℕ) (carry : Bool)
    → a < 10
    → b < 10
    → c < 10
    → d < 10
    → math_op 0x98 (16 * a + b) (16 * c + d) carry
      ≡ subtracted (a + 9 - c) (b + 10 - d - carry_bit carry)
unfolding math_op subtracted
sbc_subtracted a b c d carry p q r t =
    same_result_of true _ _ _ _ _ _ (ground arith) (ground arith) (ground arith)

-- ADC and then DAA add packed decimal numbers: the byte is the sum's last two digits, and the
-- carry says whether there is a third.
pub add_decimal :
    (a b c d : ℕ) (carry : Bool)
    → a < 10
    → b < 10
    → c < 10
    → d < 10
    → let sum = 10 * a + b + (10 * c + d) + carry_bit carry in
      let r = adjusted (math_op 0x88 (16 * a + b) (16 * c + d) carry) in
      (r.value ≡ bcd (sum % 100)) × (r.c ≡ ltb 99 sum)
unfolding sum_at
add_decimal a b c d carry p q r0 t0 =
    let s = b + d + carry_bit carry in
    let sum = 10 * a + b + (10 * c + d) + carry_bit carry in
    let exact = two_digits sum_at (a + c) s all_sums (omega arith) (ground arith) in
    let same : 10 * (a + c) + s ≡ sum = omega arith in
    let r = same_result_sound _ _ _ exact in
    let e = ap adjusted (adc_summed a b c d carry p q r0 t0) in
    (
      ap (λ x. x.value) e ∙ r.0 ∙ ap (λ n. bcd (n % 100)) same,
      ap (λ x. x.c) e ∙ r.1 ∙ ap (λ n. ltb 99 n) same,
    )

-- SBC and then DAA subtract packed decimal numbers: the byte is the difference's last two digits,
-- and the carry says whether a hundred was borrowed.
pub subtract_decimal :
    (a b c d : ℕ) (carry : Bool)
    → a < 10
    → b < 10
    → c < 10
    → d < 10
    → let minuend = 10 * a + b in
      let subtrahend = 10 * c + d + carry_bit carry in
      let r = adjusted (math_op 0x98 (16 * a + b) (16 * c + d) carry) in
      (r.value ≡ bcd ((minuend + 100 - subtrahend) % 100)) × (r.c ≡ ltb minuend subtrahend)
unfolding difference_at
subtract_decimal a b c d carry p q r0 t0 =
    let t = a + 9 - c in
    let s = b + 10 - d - carry_bit carry in
    let exact = two_digits difference_at t s all_differences (omega arith) (omega arith) in
    let minuend = 10 * a + b in
    let subtrahend = 10 * c + d + carry_bit carry in
    let same : 10 * t + s ≡ minuend + 100 - subtrahend = ground arith in
    let r = same_result_sound _ _ _ exact in
    let e = ap adjusted (sbc_subtracted a b c d carry p q r0 t0) in
    (ap (λ x. x.value) e ∙ r.0 ∙ ap (λ n. bcd (n % 100)) same, ap (λ x. x.c) e ∙ r.1 ∙ ground arith)
