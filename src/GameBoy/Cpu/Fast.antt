-- ===== src/GameBoy/Cpu/Fast.antt =====
-- cores/gameboy/gameboy.cpp: what the cases of `tryFastExecuteBytes` do, and the cached accesses to the
-- registers that they use. The cached pointers are those that
-- `initializeRegisterCache` has set, so none is null.
use proto_time.Base.{
  ℕ, ◌+◌, ◌-◌, ◌*◌, ◌/◌, Bool, true, false, not, ◌||◌, [], ◌∷◌, ltb, ◌==◌, if◌then◌else◌,
}
use proto_time.Base.Bits.{low_bits, test_bit, shr}
use proto_time.GameBoy.Cpu.Registers.{
  Bus, Cpu, u8, u16, add_offset, hi_byte, lo_byte, set_hi, set_lo, flags, accumulator,
  set_accumulator, set_flags, zero_flag, carry_flag, read8, read16, write8,
}
use proto_time.GameBoy.Cpu.Dispatch.{one_of}
use proto_time.GameBoy.Cpu.Alu.{AluResult, carry_bit}
use Prim.Native.Nat.{bit_and, bit_or, bit_xor}

-- The local variables of `executeMathOp` before its switch.
abbrev math_defaults : ℕ → AluResult
math_defaults lhs = record { value = lhs; z = false; n = false; h = false; c = false }

-- The switch of `executeMathOp`, without the case of CP.
unfoldable pub fast_math_switch : ℕ → ℕ → ℕ → Bool → AluResult
fast_math_switch k lhs rhs carry_in =
    let start = math_defaults lhs in
    if k == 0
    then record start {
      value = u8 (lhs + rhs);
      h = ltb 0x0F (low_bits 4 lhs + low_bits 4 rhs);
      c = ltb 0xFF (lhs + rhs);
    }
    else if k == 1
    then record start {
      value = u8 (lhs + rhs + carry_bit carry_in);
      h = ltb 0x0F (low_bits 4 lhs + low_bits 4 rhs + carry_bit carry_in);
      c = ltb 0xFF (lhs + rhs + carry_bit carry_in);
    }
    else if k == 2
    then record start {
      value = u8 (lhs + 256 - rhs);
      h = ltb (low_bits 4 lhs) (low_bits 4 rhs);
      c = ltb lhs rhs;
      n = true;
    }
    else if k == 3
    then record start {
      value = u8 (lhs + 512 - (rhs + carry_bit carry_in));
      h = ltb (low_bits 4 lhs) (low_bits 4 rhs + carry_bit carry_in);
      c = ltb lhs (rhs + carry_bit carry_in);
      n = true;
    }
    else if k == 4
    then record start { value = bit_and lhs rhs; h = true }
    else if k == 5
    then record start { value = bit_xor lhs rhs }
    else if k == 6
    then record start { value = bit_or lhs rhs }
    else start

-- `a + adjust` or `a - adjust` of the DAA case, and the carry.
unfoldable pub fast_adjusted : Bool → Bool → Bool → ℕ → ℕ × Bool
fast_adjusted false h c a =
    let low = if h || ltb 0x09 (low_bits 4 a) then 0x06 else 0 in
    if c || ltb 0x99 a then (u8 (a + (low + 0x60)), true) else (u8 (a + low), c)
fast_adjusted true h c a =
    let low = if h then 0x06 else 0 in (u8 (a + 256 - (if c then low + 0x60 else low)), c)

module _ {M : Type 0} where
  unfoldable pub cached_r16 : ℕ → Cpu M → ℕ
  cached_r16 code s =
      let k = low_bits 2 code in
      if k == 0 then s.bc else if k == 1 then s.de else if k == 2 then s.hl else s.sp

  unfoldable pub set_cached_r16 : ℕ → ℕ → Cpu M → Cpu M
  set_cached_r16 code v s =
      let k = low_bits 2 code in
      if k == 0
      then record s { bc = v }
      else if k == 1
      then record s { de = v }
      else if k == 2
      then record s { hl = v }
      else record s { sp = v }

  unfoldable pub cached_stack_r16 : ℕ → Cpu M → ℕ
  cached_stack_r16 code s =
      let k = low_bits 2 code in
      if k == 0 then s.bc else if k == 1 then s.de else if k == 2 then s.hl else s.af

  unfoldable pub set_cached_stack_r16 : ℕ → ℕ → Cpu M → Cpu M
  set_cached_stack_r16 code v s =
      let k = low_bits 2 code in
      if k == 0
      then record s { bc = v }
      else if k == 1
      then record s { de = v }
      else if k == 2
      then record s { hl = v }
      else record s { af = v }

  unfoldable pub cached_condition_holds : ℕ → Cpu M → Bool
  cached_condition_holds code s =
      let k = low_bits 2 code in
      if k == 0
      then not (test_bit 7 (flags s))
      else if k == 1
      then test_bit 7 (flags s)
      else if k == 2
      then not (test_bit 4 (flags s))
      else test_bit 4 (flags s)

  unfoldable pub fast_math : ℕ → ℕ → Cpu M → Cpu M
  fast_math opcode rhs s =
      let k = low_bits 3 (shr 3 opcode) in
      let lhs = accumulator s in
      let r = fast_math_switch k lhs rhs (carry_flag s) in
      if k == 7
      then set_flags (lhs == rhs) true (ltb (low_bits 4 lhs) (low_bits 4 rhs)) (ltb lhs rhs) s
      else set_flags (r.value == 0) r.n r.h r.c (set_accumulator r.value s)

  unfoldable pub fast_add_hl : ℕ → Cpu M → Cpu M
  fast_add_hl opcode s =
      let lhs = s.hl in
      let rhs = cached_r16 (low_bits 2 (shr 4 opcode)) s in
      set_flags (zero_flag s) false (ltb 0x0FFF (low_bits 12 lhs + low_bits 12 rhs))
        (ltb 0xFFFF (lhs + rhs)) (record s { hl = u16 (lhs + rhs) })

  unfoldable pub fast_rotate : ℕ → Cpu M → Cpu M
  fast_rotate opcode s =
      let a = accumulator s in
      let k = low_bits 2 (shr 3 opcode) in
      let carry_in = carry_flag s in
      if k == 0
      then set_flags false false false (test_bit 7 a) (set_accumulator (u8 (a * 2) + a / 128) s)
      else if k == 1
      then set_flags false false false (test_bit 0 a)
          (set_accumulator (u8 (a / 2 + u8 (a * 128))) s)
      else if k == 2
      then set_flags false false false (test_bit 7 a)
          (set_accumulator (u8 (a * 2) + carry_bit carry_in) s)
      else set_flags false false false (test_bit 0 a)
          (set_accumulator (a / 2 + (if carry_in then 0x80 else 0)) s)

  unfoldable pub fast_daa : Cpu M → Cpu M
  fast_daa s =
      let f = flags s in
      let n = test_bit 6 f in
      let r = fast_adjusted n (test_bit 5 f) (test_bit 4 f) (accumulator s) in
      let t = set_accumulator (r.0) s in
      record t {
        af =
            set_lo t.af (
              (if r.0 == 0 then 0x80 else 0) + (if n then 0x40 else 0) + (if r.1 then 0x10 else 0));
      }

  unfoldable pub fast_complement : Cpu M → Cpu M
  fast_complement s =
      let t = set_accumulator (255 - accumulator s) s in
      record t { af = set_lo t.af (bit_and (flags t) 0x90 + 0x60) }

  unfoldable pub fast_set_carry : Cpu M → Cpu M
  fast_set_carry s = record s { af = set_lo s.af (bit_or (bit_and (flags s) 0x80) 0x10) }

  unfoldable pub fast_complement_carry : Cpu M → Cpu M
  fast_complement_carry s =
      let carry = not (carry_flag s) in
      let t = record s { af = set_lo s.af (bit_and (flags s) 0x80) } in
      if carry then record t { af = set_lo t.af (bit_or (flags t) 0x10) } else t

  unfoldable pub fast_relative_jump : ℕ → ℕ → Cpu M → Cpu M
  fast_relative_jump before imm s = record s { pc = u16 (add_offset (before + 2) imm + 65536 - 2) }

  unfoldable pub fast_offset_flags : ℕ → ℕ → Cpu M → Cpu M
  fast_offset_flags original imm s =
      let low = lo_byte original in
      set_flags false false (ltb 0x0F (low_bits 4 low + low_bits 4 imm)) (ltb 0xFF (low + imm)) s

module _ {M : Type 0} (bus : Bus M) where
  unfoldable pub cached_read_r8 : ℕ → Cpu M → ℕ
  cached_read_r8 code s =
      let k = low_bits 3 code in
      if k == 0
      then hi_byte s.bc
      else if k == 1
      then lo_byte s.bc
      else if k == 2
      then hi_byte s.de
      else if k == 3
      then lo_byte s.de
      else if k == 4
      then hi_byte s.hl
      else if k == 5
      then lo_byte s.hl
      else if k == 6
      then read8 bus s.hl s
      else accumulator s

  unfoldable pub cached_write_r8 : ℕ → ℕ → Cpu M → Cpu M
  cached_write_r8 code v s =
      let k = low_bits 3 code in
      if k == 0
      then record s { bc = set_hi s.bc v }
      else if k == 1
      then record s { bc = set_lo s.bc v }
      else if k == 2
      then record s { de = set_hi s.de v }
      else if k == 3
      then record s { de = set_lo s.de v }
      else if k == 4
      then record s { hl = set_hi s.hl v }
      else if k == 5
      then record s { hl = set_lo s.hl v }
      else if k == 6
      then write8 bus s.hl v s
      else set_accumulator v s

  unfoldable pub cached_push16 : ℕ → Cpu M → Cpu M
  cached_push16 v s =
      let t = record s { sp = u16 (s.sp + 65534) } in
      record t {
        mem =
            bus.bus_write t.instruction_cycle_end_offset (u16 t.sp)
              (low_bits 8 v ∷ low_bits 8 (shr 8 v) ∷ []) t.mem;
      }

  unfoldable pub fast_inc_r8 : ℕ → Cpu M → Cpu M
  fast_inc_r8 opcode s =
      let reg = low_bits 3 (shr 3 opcode) in
      let old = cached_read_r8 reg s in
      let t = cached_write_r8 reg (u8 (old + 1)) s in
      set_flags (u8 (old + 1) == 0) false (ltb 0x0F (low_bits 4 old + 1)) (carry_flag t) t

  unfoldable pub fast_dec_r8 : ℕ → Cpu M → Cpu M
  fast_dec_r8 opcode s =
      let reg = low_bits 3 (shr 3 opcode) in
      let old = cached_read_r8 reg s in
      let t = cached_write_r8 reg (u8 (old + 255)) s in
      set_flags (u8 (old + 255) == 0) true (low_bits 4 old == 0) (carry_flag t) t

  unfoldable pub fast_indirect : ℕ → Cpu M → Cpu M
  fast_indirect opcode s =
      let address =
        if one_of opcode (0x02 ∷ 0x0A ∷ [])
        then s.bc
        else if one_of opcode (0x12 ∷ 0x1A ∷ [])
        then s.de
        else s.hl in
      let t =
        if not (test_bit 3 opcode)
        then write8 bus address (accumulator s) s
        else set_accumulator (read8 bus address s) s in
      if (opcode == 0x22) || (opcode == 0x2A)
      then record t { hl = u16 (t.hl + 1) }
      else if (opcode == 0x32) || (opcode == 0x3A)
      then record t { hl = u16 (t.hl + 65535) }
      else t

  unfoldable pub fast_return : Cpu M → Cpu M
  fast_return s =
      let address = read16 bus s.sp s in
      record s { sp = u16 (s.sp + 2); pc = u16 (address + 65536 - 1) }

  unfoldable pub fast_call : ℕ → ℕ → ℕ → Cpu M → Cpu M
  fast_call before target size s = record (cached_push16 (u16 (before + size)) s) {
    pc = u16 (target + 65536 - size);
  }

  unfoldable pub fast_pop_r16 : ℕ → Cpu M → Cpu M
  fast_pop_r16 opcode s =
      let target = low_bits 2 (shr 4 opcode) in
      let v = read16 bus s.sp s in
      let t = record s { sp = u16 (s.sp + 2) } in
      set_cached_stack_r16 target (if target == 3 then v / 16 * 16 else v) t
