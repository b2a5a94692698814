-- ===== src/GameBoy/Cpu/Alu.antt =====
-- cores/gameboy/gameboy.cpp: what the arithmetic, logic, rotate and shift instructions compute
-- from bytes. A result comes with the four flags that `setFlags` is given.
use proto_time.Base.{ℕ, ◌+◌, ◌-◌, ◌*◌, ◌/◌, Bool, true, false, ◌||◌, ltb, ◌==◌, if◌then◌else◌}
use proto_time.Base.Bits.{low_bits, test_bit, shr}
use proto_time.GameBoy.Cpu.Registers.{u8}
use Prim.Native.Nat.{bit_and, bit_or, bit_xor}

pub record AluResult : Type 0 where
  pub value : ℕ
  pub z : Bool
  pub n : Bool
  pub h : Bool
  pub c : Bool

-- `carryIn ? 1 : 0`
abbrev pub carry_bit : Bool → ℕ
carry_bit b = if b then 1 else 0

-- The accumulator's new value and flags; CP, the last case, leaves the accumulator.
unfoldable pub math_op : ℕ → ℕ → ℕ → Bool → AluResult
math_op code lhs rhs carry_in =
    let k = low_bits 3 (shr 3 code) in
    let carry = carry_bit carry_in in
    let half_borrow = ltb (low_bits 4 lhs) (low_bits 4 rhs) in
    if k == 0
    then (let result = u8 (lhs + rhs) in
        record {
          value = result;
          z = result == 0;
          n = false;
          h = ltb 0x0F (low_bits 4 lhs + low_bits 4 rhs);
          c = ltb 0xFF (lhs + rhs);
        })
    else if k == 1
    then (let sum = lhs + rhs + carry in
        record {
          value = u8 sum;
          z = u8 sum == 0;
          n = false;
          h = ltb 0x0F (low_bits 4 lhs + low_bits 4 rhs + carry);
          c = ltb 0xFF sum;
        })
    else if k == 2
    then (let result = u8 (lhs + 256 - rhs) in
        record { value = result; z = result == 0; n = true; h = half_borrow; c = ltb lhs rhs })
    else if k == 3
    then (let subtrahend = rhs + carry in
        let result = u8 (lhs + 512 - subtrahend) in
        record {
          value = result;
          z = result == 0;
          n = true;
          h = ltb (low_bits 4 lhs) (low_bits 4 rhs + carry);
          c = ltb lhs subtrahend;
        })
    else if k == 4
    then (let result = bit_and lhs rhs in
        record { value = result; z = result == 0; n = false; h = true; c = false })
    else if k == 5
    then (let result = bit_xor lhs rhs in
        record { value = result; z = result == 0; n = false; h = false; c = false })
    else if k == 6
    then (let result = bit_or lhs rhs in
        record { value = result; z = result == 0; n = false; h = false; c = false })
    else record { value = lhs; z = lhs == rhs; n = true; h = half_borrow; c = ltb lhs rhs }

-- RLCA, RRCA, RLA and RRA. A shift of a byte fills with zeros, so `|` is a sum there.
unfoldable pub rotate_accumulator : ℕ → ℕ → Bool → AluResult
rotate_accumulator code a carry_in =
    let k = low_bits 2 (shr 3 code) in
    let high = test_bit 7 a in
    let low = test_bit 0 a in
    if k == 0
    then record { value = u8 (a * 2) + a / 128; z = false; n = false; h = false; c = high }
    else if k == 1
    then record { value = u8 (a / 2 + u8 (a * 128)); z = false; n = false; h = false; c = low }
    else if k == 2
    then record {
      value = u8 (a * 2) + carry_bit carry_in;
      z = false;
      n = false;
      h = false;
      c = high;
    }
    else record {
      value = a / 2 + (if carry_in then 0x80 else 0);
      z = false;
      n = false;
      h = false;
      c = low;
    }

-- DAA: the new accumulator, and the flags that are kept or changed.
unfoldable pub decimal_adjust : ℕ → ℕ → AluResult
decimal_adjust a flag_reg =
    let n = test_bit 6 flag_reg in
    let h = test_bit 5 flag_reg in
    let c = test_bit 4 flag_reg in
    if n
    then (let adjust = (if h then 0x06 else 0) + (if c then 0x60 else 0) in
        let result = u8 (a + 256 - adjust) in
        record { value = result; z = result == 0; n = true; h = false; c = c })
    else (let low = h || ltb 0x09 (low_bits 4 a) in
        let high = c || ltb 0x99 a in
        let result = u8 (a + ((if low then 0x06 else 0) + (if high then 0x60 else 0))) in
        record { value = result; z = result == 0; n = false; h = false; c = high })

-- A shift's result with the flags that every shift sets but the carry.
abbrev flagged : ℕ → Bool → AluResult
flagged r carry = record { value = r; z = r == 0; n = false; h = false; c = carry }

-- The rotates, shifts and SWAP of the prefixed opcodes below 0x40.
unfoldable pub shift_op : ℕ → ℕ → Bool → AluResult
shift_op code value carry_in =
    let k = low_bits 3 (shr 3 code) in
    let high = test_bit 7 value in
    let low = test_bit 0 value in
    if k == 0
    then flagged (u8 (value * 2) + value / 128) high
    else if k == 1
    then flagged (value / 2 + u8 (value * 128)) low
    else if k == 2
    then flagged (u8 (value * 2) + carry_bit carry_in) high
    else if k == 3
    then flagged (value / 2 + (if carry_in then 0x80 else 0)) low
    else if k == 4
    then flagged (u8 (value * 2)) high
    else if k == 5
    then flagged (value / 2 + bit_and value 0x80) low
    else if k == 6
    then flagged (value / 16 + u8 (value * 16)) false
    else flagged (value / 2) low
