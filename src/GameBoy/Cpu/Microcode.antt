-- ===== src/GameBoy/Cpu/Microcode.antt =====
-- cores/gameboy/gameboy.cpp: the microcode that `populateOpcodes` registers, `executeCbOpcode`, and
-- `decodeInto` and `execute` on one fetched block. Instruction bytes past the end read as 0; the
-- decoder has checked the length before any is read.
use proto_time.Base.{
  ℕ, ◌+◌, ◌-◌, ◌*◌, ◌/◌, ◌^◌, true, false, not, List, [], ◌∷◌, get_or, ltb, ◌==◌, if◌then◌else◌,
}
use proto_time.Base.Bits.{low_bits, test_bit, join, shr}
use proto_time.GameBoy.Cpu.Registers.{
  Bus, Cpu, u8, u16, add_offset, lo_byte, set_lo, decode_r8, decode_r8_dest, decode_r8_src,
  decode_r16, decode_r16_stack, decode_condition, flags, accumulator, set_accumulator, set_flags,
  zero_flag, carry_flag, condition_holds, read_r16, write_r16, read_stack_r16, write_stack_r16,
  update_control_flow_pc, set_ime, schedule_ime_enable, set_stop_flag, set_halt_flag,
  lock_up_on_invalid_opcode, read8, write8, write16, read_r8, write_r8, pop16, popped, push16,
  stack_af,
}
use proto_time.GameBoy.Cpu.Dispatch.{
  Step, one_of, nop, stop, halt, ld_r16_imm, inc_r16, dec_r16, ld_mem_sp, add_hl, inc_r8, dec_r8,
  ld_r8_imm, rotate_a, daa, cpl, scf, ccf, jr, jr_cond, ld_r8_r8, ld_indirect, math_r8, math_imm,
  ret_cond, ret, reti, pop_r16, push_r16, jp_cond, jp, jp_hl, call_cond, call, rst, cb_prefix,
  ldh_store, ldh_load, ld_c_store, ld_c_load, add_sp, ld_hl_sp, ld_sp_hl, ld_store, ld_load, di, ei,
  invalid,
}
use proto_time.GameBoy.Cpu.Alu.{AluResult, math_op, rotate_accumulator, decimal_adjust, shift_op}
use Prim.Native.Nat.{bit_and, bit_or}

-- `fetchImm8` and `fetchImm16` of the bytes that start with the opcode.
unfoldable pub fetch_imm8 : List ℕ → ℕ
fetch_imm8 code = get_or code 1 0

unfoldable pub fetch_imm16 : List ℕ → ℕ
fetch_imm16 code = join 8 (get_or code 2 0) (get_or code 1 0)

module _ {M : Type 0} where
  -- The result and the flags of an instruction on the accumulator.
  unfoldable pub store_result : AluResult → Cpu M → Cpu M
  store_result r s = set_flags r.z r.n r.h r.c (set_accumulator r.value s)

  unfoldable pub add_hl_step : ℕ → Cpu M → Cpu M
  add_hl_step opcode s =
      let lhs = s.hl in
      let rhs = read_r16 (decode_r16 opcode) s in
      let h = ltb 0x0FFF (low_bits 12 lhs + low_bits 12 rhs) in
      let c = ltb 0xFFFF (lhs + rhs) in
      record (set_flags (zero_flag s) false h c s) { hl = u16 (lhs + rhs) }

  -- The flags of ADD SP,e8 and LD HL,SP+e8.
  unfoldable pub offset_flags : ℕ → ℕ → Cpu M → Cpu M
  offset_flags base imm s =
      let low = lo_byte base in
      set_flags false false (ltb 0x0F (low_bits 4 low + low_bits 4 imm)) (ltb 0xFF (low + imm)) s

  unfoldable pub complement : Cpu M → Cpu M
  complement s =
      let t = set_accumulator (255 - accumulator s) s in
      record t { af = set_lo t.af (bit_and (flags t) 0x90 + 0x60) }

  unfoldable pub set_carry : Cpu M → Cpu M
  set_carry s =
      let t = record s { af = set_lo s.af (bit_and (flags s) 0x80) } in
      record t { af = set_lo t.af (bit_or (flags t) 0x10) }

  unfoldable pub complement_carry : Cpu M → Cpu M
  complement_carry s =
      let carry = not (carry_flag s) in
      let t = record s { af = set_lo s.af (bit_and (flags s) 0x80) } in
      if carry then record t { af = set_lo t.af (bit_or (flags t) 0x10) } else t

  unfoldable pub relative_jump : ℕ → Cpu M → Cpu M
  relative_jump imm s = update_control_flow_pc (add_offset (s.pc + 2) imm) 2 s

  unfoldable pub indirect_address : ℕ → Cpu M → ℕ
  indirect_address opcode s =
      if one_of opcode (0x02 ∷ 0x0A ∷ [])
      then s.bc
      else if one_of opcode (0x12 ∷ 0x1A ∷ [])
      then s.de
      else if one_of opcode (0x22 ∷ 0x2A ∷ 0x32 ∷ 0x3A ∷ [])
      then s.hl
      else 0

  unfoldable pub move_indirect : ℕ → Cpu M → Cpu M
  move_indirect opcode s =
      if one_of opcode (0x22 ∷ 0x2A ∷ [])
      then record s { hl = u16 (s.hl + 1) }
      else if one_of opcode (0x32 ∷ 0x3A ∷ [])
      then record s { hl = u16 (s.hl + 65535) }
      else s

module _ {M : Type 0} (bus : Bus M) where
  unfoldable pub inc_r8_step : ℕ → Cpu M → Cpu M
  inc_r8_step opcode s =
      let reg = decode_r8_dest opcode in
      let old = read_r8 bus reg s in
      let t = write_r8 bus reg (u8 (old + 1)) s in
      set_flags (u8 (old + 1) == 0) false (ltb 0x0F (low_bits 4 old + 1)) (carry_flag t) t

  unfoldable pub dec_r8_step : ℕ → Cpu M → Cpu M
  dec_r8_step opcode s =
      let reg = decode_r8_dest opcode in
      let old = read_r8 bus reg s in
      let t = write_r8 bus reg (u8 (old + 255)) s in
      set_flags (u8 (old + 255) == 0) true (low_bits 4 old == 0) (carry_flag t) t

  unfoldable pub ld_indirect_step : ℕ → Cpu M → Cpu M
  ld_indirect_step opcode s =
      let address = indirect_address opcode s in
      move_indirect opcode (
        if not (test_bit 3 opcode)
        then write8 bus address (accumulator s) s
        else set_accumulator (read8 bus address s) s)

  -- The body of `addMathOp`: CP, the last case, sets only the flags.
  unfoldable pub math_step : ℕ → ℕ → Cpu M → Cpu M
  math_step opcode rhs s =
      let r = math_op opcode (accumulator s) rhs (carry_flag s) in
      if low_bits 3 (shr 3 opcode) == 7 then set_flags r.z r.n r.h r.c s else store_result r s

  unfoldable pub return_step : Cpu M → Cpu M
  return_step s = update_control_flow_pc (pop16 bus s) 1 (popped s)

  -- A call of `target` from an instruction of `size` bytes.
  unfoldable pub call_step : ℕ → ℕ → Cpu M → Cpu M
  call_step target size s = update_control_flow_pc target size (push16 bus (u16 (s.pc + size)) s)

  unfoldable pub pop_r16_step : ℕ → Cpu M → Cpu M
  pop_r16_step opcode s =
      let v = pop16 bus s in
      elim (decode_r16_stack opcode) [
        | stack_af ↦ write_stack_r16 stack_af (v / 16 * 16) (popped s)
        | r ↦ write_stack_r16 r v (popped s)
      ]

  unfoldable pub execute_cb_opcode : ℕ → Cpu M → Cpu M
  execute_cb_opcode opcode s =
      let reg = decode_r8 opcode in
      let v = read_r8 bus reg s in
      let bit = low_bits 3 (shr 3 opcode) in
      let k = low_bits 2 (shr 6 opcode) in
      if k == 0
      then (let r = shift_op opcode v (carry_flag s) in
          write_r8 bus reg r.value (set_flags r.z r.n r.h r.c s))
      else if k == 1
      then set_flags (not (test_bit bit v)) false true (carry_flag s) s
      else if k == 2
      then write_r8 bus reg (bit_and v (255 - 2 ^ bit)) s
      else write_r8 bus reg (bit_or v (2 ^ bit)) s

  -- The step that the microcode of an instruction adds to the block. `code` is the bytes of
  -- the instruction, from its opcode on.
  unfoldable pub microcode : Step → ℕ → List ℕ → Cpu M → Cpu M
  microcode nop opcode code s = s
  microcode stop opcode code s = set_stop_flag true s
  microcode halt opcode code s = set_halt_flag true s
  microcode ld_r16_imm opcode code s = write_r16 (decode_r16 opcode) (fetch_imm16 code) s
  microcode inc_r16 opcode code s =
      write_r16 (decode_r16 opcode) (u16 (read_r16 (decode_r16 opcode) s + 1)) s
  microcode dec_r16 opcode code s =
      write_r16 (decode_r16 opcode) (u16 (read_r16 (decode_r16 opcode) s + 65535)) s
  microcode ld_mem_sp opcode code s = write16 bus (fetch_imm16 code) s.sp s
  microcode add_hl opcode code s = add_hl_step opcode s
  microcode inc_r8 opcode code s = inc_r8_step opcode s
  microcode dec_r8 opcode code s = dec_r8_step opcode s
  microcode ld_r8_imm opcode code s = write_r8 bus (decode_r8_dest opcode) (fetch_imm8 code) s
  microcode rotate_a opcode code s =
      store_result (rotate_accumulator opcode (accumulator s) (carry_flag s)) s
  microcode daa opcode code s = store_result (decimal_adjust (accumulator s) (flags s)) s
  microcode cpl opcode code s = complement s
  microcode scf opcode code s = set_carry s
  microcode ccf opcode code s = complement_carry s
  microcode jr opcode code s = relative_jump (fetch_imm8 code) s
  microcode jr_cond opcode code s =
      if condition_holds (decode_condition opcode) s then relative_jump (fetch_imm8 code) s else s
  microcode ld_r8_r8 opcode code s =
      write_r8 bus (decode_r8_dest opcode) (read_r8 bus (decode_r8_src opcode) s) s
  microcode ld_indirect opcode code s = ld_indirect_step opcode s
  microcode math_r8 opcode code s = math_step opcode (read_r8 bus (decode_r8_src opcode) s) s
  microcode math_imm opcode code s = math_step opcode (fetch_imm8 code) s
  microcode ret_cond opcode code s =
      if condition_holds (decode_condition opcode) s then return_step s else s
  microcode ret opcode code s = return_step s
  microcode reti opcode code s = set_ime true (return_step s)
  microcode pop_r16 opcode code s = pop_r16_step opcode s
  microcode push_r16 opcode code s = push16 bus (read_stack_r16 (decode_r16_stack opcode) s) s
  microcode jp_cond opcode code s =
      if condition_holds (decode_condition opcode) s
      then update_control_flow_pc (fetch_imm16 code) 3 s
      else s
  microcode jp opcode code s = update_control_flow_pc (fetch_imm16 code) 3 s
  microcode jp_hl opcode code s = update_control_flow_pc s.hl 1 s
  microcode call_cond opcode code s =
      if condition_holds (decode_condition opcode) s then call_step (fetch_imm16 code) 3 s else s
  microcode call opcode code s = call_step (fetch_imm16 code) 3 s
  microcode rst opcode code s = call_step (bit_and opcode 0x38) 1 s
  microcode cb_prefix opcode code s = execute_cb_opcode (fetch_imm8 code) s
  microcode ldh_store opcode code s = write8 bus (0xFF00 + fetch_imm8 code) (accumulator s) s
  microcode ldh_load opcode code s = set_accumulator (read8 bus (0xFF00 + fetch_imm8 code) s) s
  microcode ld_c_store opcode code s = write8 bus (0xFF00 + lo_byte s.bc) (accumulator s) s
  microcode ld_c_load opcode code s = set_accumulator (read8 bus (0xFF00 + lo_byte s.bc) s) s
  microcode add_sp opcode code s = record (offset_flags s.sp (fetch_imm8 code) s) {
    sp = add_offset s.sp (fetch_imm8 code);
  }
  microcode ld_hl_sp opcode code s = record (offset_flags s.sp (fetch_imm8 code) s) {
    hl = add_offset s.sp (fetch_imm8 code);
  }
  microcode ld_sp_hl opcode code s = record s { sp = s.hl }
  microcode ld_store opcode code s = write8 bus (fetch_imm16 code) (accumulator s) s
  microcode ld_load opcode code s = set_accumulator (read8 bus (fetch_imm16 code) s) s
  microcode di opcode code s = set_ime false s
  microcode ei opcode code s = schedule_ime_enable s
  microcode invalid opcode code s = lock_up_on_invalid_opcode s
