-- ===== src/GameBoy/Cpu/Agreement.antt =====
-- The fast path does to the state what the microcode of the table does.
use proto_time.Base.{ℕ, ◌+◌, ◌-◌, ◌<◌, true, List, [], ◌∷◌, ◌≡◌, refl, ap, arith, ◌∙◌, sym}
use Prim.Native.Nat.{bit_and, bit_or}
use proto_time.Base.Bits.{bit_and_le, low_bits, shr}
use proto_time.GameBoy.Cpu.Registers.{
  Bus, Cpu, u8, u16, lo_byte, set_lo, decode_r8, decode_r8_dest, decode_r8_src, decode_r16,
  decode_r16_stack, decode_condition, flag_byte, flags, accumulator, set_accumulator, set_flags,
  zero_flag, carry_flag, condition_holds, read_r16, write_r16, read_stack_r16, write_stack_r16,
  update_control_flow_pc, set_ime, popped, write16, read_r8, write_r8, pop16, push16,
}
use proto_time.GameBoy.Cpu.Dispatch.{
  Step, one_of, nop, stop, halt, ld_r16_imm, inc_r16, dec_r16, ld_mem_sp, add_hl, inc_r8, dec_r8,
  ld_r8_imm, rotate_a, daa, cpl, scf, ccf, jr, jr_cond, ld_r8_r8, ld_indirect, math_r8, math_imm,
  ret_cond, ret, reti, pop_r16, push_r16, jp_cond, jp, jp_hl, call_cond, call, rst, cb_prefix,
  ldh_store, ldh_load, ld_c_store, ld_c_load, add_sp, ld_hl_sp, ld_sp_hl, ld_store, ld_load, di, ei,
  invalid,
}
use proto_time.GameBoy.Cpu.Alu.{math_op, rotate_accumulator, decimal_adjust}
use proto_time.GameBoy.Cpu.Microcode.{
  fetch_imm8, fetch_imm16, store_result, add_hl_step, offset_flags, complement, set_carry,
  complement_carry, relative_jump, inc_r8_step, dec_r8_step, indirect_address, move_indirect,
  ld_indirect_step, math_step, return_step, call_step, pop_r16_step, microcode,
}
use proto_time.GameBoy.Cpu.Opcodes.{case_shape}
use proto_time.GameBoy.Cpu.Fast.{
  fast_math_switch, fast_adjusted, cached_r16, set_cached_r16, cached_stack_r16,
  set_cached_stack_r16, cached_condition_holds, fast_math, fast_add_hl, fast_rotate, fast_daa,
  fast_complement, fast_set_carry, fast_complement_carry, fast_relative_jump, fast_offset_flags,
  cached_read_r8, cached_write_r8, cached_push16, fast_inc_r8, fast_dec_r8, fast_indirect,
  fast_return, fast_call, fast_pop_r16,
}
use proto_time.GameBoy.Cpu.FastCases.{fast_case}

-- Writing the low byte of a register twice is writing it once, and it reads back.
set_lo-set_lo : (r u v : ℕ) → u < 256 → set_lo (set_lo r u) v ≡ set_lo r v
unfolding set_lo
set_lo-set_lo r u v h = ground arith

lo_byte-set_lo : (r v : ℕ) → v < 256 → lo_byte (set_lo r v) ≡ v
unfolding lo_byte set_lo
lo_byte-set_lo r v h = ground arith

-- The registers that the cached accesses cut out of an opcode are those of the decoders.
module _ {M : Type 0} where
  r16_lem : (op : ℕ) (s : Cpu M) → cached_r16 (low_bits 2 (shr 4 op)) s ≡ read_r16 (decode_r16 op) s
  unfolding cached_r16 read_r16 decode_r16
  r16_lem op s = ground arith

  set_r16_lem :
      (op v : ℕ) (s : Cpu M)
      → set_cached_r16 (low_bits 2 (shr 4 op)) v s ≡ write_r16 (decode_r16 op) v s
  unfolding set_cached_r16 write_r16 decode_r16
  set_r16_lem op v s = ground arith

  condition_lem :
      (op : ℕ) (s : Cpu M)
      → cached_condition_holds (low_bits 2 (shr 3 op)) s ≡ condition_holds (decode_condition op) s
  unfolding cached_condition_holds condition_holds decode_condition zero_flag carry_flag
  condition_lem op s = ground arith

  fast_return_lem : (bus : Bus M) (s : Cpu M) → fast_return bus s ≡ return_step bus s
  unfolding fast_return return_step update_control_flow_pc popped pop16
  fast_return_lem bus s = refl

  push_lem : (bus : Bus M) (v : ℕ) (s : Cpu M) → cached_push16 bus v s ≡ push16 bus v s
  unfolding cached_push16 push16 write16
  push_lem bus v s =
      ap
        (λ a. record s {
          sp = u16 (s.sp + 65534);
          mem =
              bus.bus_write s.instruction_cycle_end_offset a
                (low_bits 8 v ∷ low_bits 8 (shr 8 v) ∷ []) s.mem;
        })
        (omega arith)

  stack_lem :
      (op : ℕ) (s : Cpu M)
      → cached_stack_r16 (low_bits 2 (shr 4 op)) s ≡ read_stack_r16 (decode_r16_stack op) s
  unfolding cached_stack_r16 read_stack_r16 decode_r16_stack
  stack_lem op s = ground arith

  read_lem :
      (bus : Bus M) (op : ℕ) (s : Cpu M)
      → cached_read_r8 bus (low_bits 3 op) s ≡ read_r8 bus (decode_r8 op) s
  unfolding cached_read_r8 read_r8 decode_r8 accumulator
  read_lem bus op s = ground arith

  read_dest_lem :
      (bus : Bus M) (op : ℕ) (s : Cpu M)
      → cached_read_r8 bus (low_bits 3 (shr 3 op)) s ≡ read_r8 bus (decode_r8_dest op) s
  unfolding cached_read_r8 read_r8 decode_r8 decode_r8_dest accumulator
  read_dest_lem bus op s = ground arith

  read_src_lem :
      (bus : Bus M) (op : ℕ) (s : Cpu M)
      → cached_read_r8 bus (low_bits 3 op) s ≡ read_r8 bus (decode_r8_src op) s
  unfolding decode_r8_src
  read_src_lem bus op s = read_lem bus op s

  write_lem :
      (bus : Bus M) (op v : ℕ) (s : Cpu M)
      → cached_write_r8 bus (low_bits 3 (shr 3 op)) v s ≡ write_r8 bus (decode_r8_dest op) v s
  unfolding cached_write_r8 write_r8 decode_r8 decode_r8_dest set_accumulator
  write_lem bus op v s = ground arith

  math_lem : (op rhs : ℕ) (s : Cpu M) (bus : Bus M) → fast_math op rhs s ≡ math_step bus op rhs s
  unfolding fast_math math_step math_op fast_math_switch store_result
  math_lem op rhs s bus = ground arith

  rotate_lem :
      (op : ℕ) (s : Cpu M)
      → fast_rotate op s ≡ store_result (rotate_accumulator op (accumulator s) (carry_flag s)) s
  unfolding fast_rotate rotate_accumulator store_result
  rotate_lem op s = ground arith

  daa_lem : (s : Cpu M) → fast_daa s ≡ store_result (decimal_adjust (accumulator s) (flags s)) s
  unfolding fast_daa fast_adjusted decimal_adjust store_result set_flags flag_byte
  daa_lem s = ground arith

  complement_lem : (s : Cpu M) → fast_complement s ≡ complement s
  unfolding fast_complement complement
  complement_lem s = refl

  inc_lem : (bus : Bus M) (op : ℕ) (s : Cpu M) → fast_inc_r8 bus op s ≡ inc_r8_step bus op s
  unfolding fast_inc_r8 inc_r8_step
  inc_lem bus op s =
      let old = read_r8 bus (decode_r8_dest op) s in
      rw (read_dest_lem bus op s, write_lem bus op (u8 (old + 1)) s) refl

  dec_lem : (bus : Bus M) (op : ℕ) (s : Cpu M) → fast_dec_r8 bus op s ≡ dec_r8_step bus op s
  unfolding fast_dec_r8 dec_r8_step
  dec_lem bus op s =
      let old = read_r8 bus (decode_r8_dest op) s in
      rw (read_dest_lem bus op s, write_lem bus op (u8 (old + 255)) s) refl

  set_carry_lem : (s : Cpu M) → fast_set_carry s ≡ set_carry s
  unfolding fast_set_carry set_carry flags
  set_carry_lem s =
      let kept = bit_and (lo_byte s.af) 0x80 in
      let small = bit_and_le 8 (lo_byte s.af) 0x80 (omega arith) in
      sym (
        ap (λ r. record s { af = r })
          (set_lo-set_lo s.af kept (bit_or (lo_byte (set_lo s.af kept)) 0x10) (omega arith)
            ∙ ap (λ f. set_lo s.af (bit_or f 0x10)) (lo_byte-set_lo s.af kept (omega arith))))

  complement_carry_lem : (s : Cpu M) → fast_complement_carry s ≡ complement_carry s
  unfolding fast_complement_carry complement_carry
  complement_carry_lem s = refl

  add_hl_lem : (op : ℕ) (s : Cpu M) → fast_add_hl op s ≡ add_hl_step op s
  unfolding fast_add_hl add_hl_step set_flags
  add_hl_lem op s = rw (r16_lem op s) refl

  indirect_lem :
      (bus : Bus M) (op : ℕ) (s : Cpu M)
      → one_of op (0x02 ∷ 0x12 ∷ 0x22 ∷ 0x32 ∷ 0x0A ∷ 0x1A ∷ 0x2A ∷ 0x3A ∷ []) ≡ true
      → fast_indirect bus op s ≡ ld_indirect_step bus op s
  unfolding fast_indirect ld_indirect_step move_indirect indirect_address
  indirect_lem bus op s h = ground arith

  fast_call_lem :
      (bus : Bus M) (target size : ℕ) (s : Cpu M)
      → fast_call bus s.pc target size s ≡ call_step bus target size s
  unfolding fast_call call_step update_control_flow_pc
  fast_call_lem bus target size s =
      ap {A = Cpu M} (λ t. record t { pc = u16 (target + 65536 - size) })
        (push_lem bus (u16 (s.pc + size)) s)

  pop_lem : (bus : Bus M) (op : ℕ) (s : Cpu M) → fast_pop_r16 bus op s ≡ pop_r16_step bus op s
  unfolding fast_pop_r16 pop_r16_step decode_r16_stack set_cached_stack_r16 write_stack_r16 popped
      pop16
  pop_lem bus op s = ground arith

  pub fast_case_lem :
      (bus : Bus M) (k : Step) (op : ℕ) (code : List ℕ) (s : Cpu M)
      → case_shape k op ≡ true
      → fast_case bus k op s.pc code s ≡ microcode bus k op code s
  unfolding case_shape fast_case microcode fast_relative_jump relative_jump update_control_flow_pc
      fast_offset_flags offset_flags set_flags
  fast_case_lem bus nop op code s h = refl
  fast_case_lem bus stop op code s h = refl
  fast_case_lem bus halt op code s h = refl
  fast_case_lem bus ld_r16_imm op code s h = set_r16_lem op (fetch_imm16 code) s
  fast_case_lem bus inc_r16 op code s h =
      rw (r16_lem op s, set_r16_lem op (u16 (read_r16 (decode_r16 op) s + 1)) s) refl
  fast_case_lem bus dec_r16 op code s h =
      rw (r16_lem op s, set_r16_lem op (u16 (read_r16 (decode_r16 op) s + 65535)) s) refl
  fast_case_lem bus ld_mem_sp op code s h = refl
  fast_case_lem bus add_hl op code s h = add_hl_lem op s
  fast_case_lem bus inc_r8 op code s h = inc_lem bus op s
  fast_case_lem bus dec_r8 op code s h = dec_lem bus op s
  fast_case_lem bus ld_r8_imm op code s h = write_lem bus op (fetch_imm8 code) s
  fast_case_lem bus rotate_a op code s h = rotate_lem op s
  fast_case_lem bus daa op code s h = daa_lem s
  fast_case_lem bus cpl op code s h = complement_lem s
  fast_case_lem bus scf op code s h = set_carry_lem s
  fast_case_lem bus ccf op code s h = complement_carry_lem s
  fast_case_lem bus jr op code s h = refl
  fast_case_lem bus jr_cond op code s h = rw (condition_lem op s) refl
  fast_case_lem bus ld_r8_r8 op code s h =
      rw (read_src_lem bus op s, write_lem bus op (read_r8 bus (decode_r8_src op) s) s) refl
  fast_case_lem bus ld_indirect op code s h = indirect_lem bus op s h
  fast_case_lem bus math_r8 op code s h =
      rw (read_src_lem bus op s) (math_lem op (read_r8 bus (decode_r8_src op) s) s bus)
  fast_case_lem bus math_imm op code s h = math_lem op (fetch_imm8 code) s bus
  fast_case_lem bus ret_cond op code s h = rw (condition_lem op s, fast_return_lem bus s) refl
  fast_case_lem bus ret op code s h = fast_return_lem bus s
  fast_case_lem bus reti op code s h = ap (set_ime true) (fast_return_lem bus s)
  fast_case_lem bus pop_r16 op code s h = pop_lem bus op s
  fast_case_lem bus push_r16 op code s h = rw (stack_lem op s) (push_lem bus _ s)
  fast_case_lem bus jp_cond op code s h = rw (condition_lem op s) refl
  fast_case_lem bus jp op code s h = refl
  fast_case_lem bus jp_hl op code s h = refl
  fast_case_lem bus call_cond op code s h =
      rw (condition_lem op s, fast_call_lem bus (fetch_imm16 code) 3 s) refl
  fast_case_lem bus call op code s h = fast_call_lem bus (fetch_imm16 code) 3 s
  fast_case_lem bus rst op code s h = fast_call_lem bus (bit_and op 0x38) 1 s
  fast_case_lem bus cb_prefix op code s h = absurd (ground arith)
  fast_case_lem bus ldh_store op code s h = refl
  fast_case_lem bus ldh_load op code s h = refl
  fast_case_lem bus ld_c_store op code s h = refl
  fast_case_lem bus ld_c_load op code s h = refl
  fast_case_lem bus add_sp op code s h = refl
  fast_case_lem bus ld_hl_sp op code s h = refl
  fast_case_lem bus ld_sp_hl op code s h = refl
  fast_case_lem bus ld_store op code s h = refl
  fast_case_lem bus ld_load op code s h = refl
  fast_case_lem bus di op code s h = refl
  fast_case_lem bus ei op code s h = refl
  fast_case_lem bus invalid op code s h = absurd (ground arith)
