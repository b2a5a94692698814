-- ===== src/GameBoy/Cpu/Invariant.antt =====
-- Every instruction keeps the registers valid: the accesses to memory, the instructions' parts, and
-- the microcode of each entry of the table.
use proto_time.Base.{
  ℕ, ◌+◌, ◌-◌, ◌*◌, ◌/◌, ◌%◌, ◌^◌, ◌<◌, true, not, List, [], ◌∷◌, ltb, ◌==◌, if-keeps, ◌≡◌, refl,
  arith,
}
use proto_time.Base.Bits.{low_bits, shr, bit_and_le, bit_or_bound, bit_and_high_half, bit_or_single}
use Prim.Native.Nat.{bit_and, bit_or}
use proto_time.Base.Finite.{all_below, all_below-elim}
use proto_time.GameBoy.Cpu.Registers.{
  Bus, Cpu, u16, hi_byte, lo_byte, set_hi, set_lo, R8, R16Stack, decode_r8, decode_r16_stack, flags,
  accumulator, set_accumulator, carry_flag, write_r16, write_stack_r16, set_ime,
  schedule_ime_enable, set_stop_flag, set_halt_flag, lock_up_on_invalid_opcode, popped, read8,
  read16, write8, write16, read_r8, write_r8, pop16, push16, r8_b, r8_c, r8_d, r8_e, r8_h, r8_l,
  r8_hl_indirect, r8_a, r16_bc, r16_de, r16_hl, stack_bc, stack_de, stack_hl, stack_af,
}
use proto_time.GameBoy.Cpu.Dispatch.{
  Step, one_of, nop, stop, halt, ld_r16_imm, inc_r16, dec_r16, ld_mem_sp, add_hl, inc_r8, dec_r8,
  ld_r8_imm, rotate_a, daa, cpl, scf, ccf, jr, jr_cond, ld_r8_r8, ld_indirect, math_r8, math_imm,
  ret_cond, ret, reti, pop_r16, push_r16, jp_cond, jp, jp_hl, call_cond, call, rst, cb_prefix,
  ldh_store, ldh_load, ld_c_store, ld_c_load, add_sp, ld_hl_sp, ld_sp_hl, ld_store, ld_load, di, ei,
  invalid,
}
use proto_time.GameBoy.Cpu.Alu.{math_op, rotate_accumulator, decimal_adjust}
use proto_time.GameBoy.Cpu.Microcode.{
  add_hl_step, offset_flags, complement, set_carry, complement_carry, inc_r8_step, dec_r8_step,
  move_indirect, ld_indirect_step, math_step, return_step, call_step, pop_r16_step,
  execute_cb_opcode, microcode,
}
use proto_time.GameBoy.Cpu.Decoding.{AreBytes}
use proto_time.GameBoy.Cpu.Valid.{
  IsValid, ReadsBytes, set_hi_word, set_lo_word, hi_byte_bound, lo_byte_bound, add_offset_bound,
  math_op_bound, rotate_bound, adjust_bound, shift_bound, fetch_imm8_bound, fetch_imm16_bound,
  set_flags-IsValid, with_flags-IsValid, set_accumulator-IsValid, words-IsValid,
  store_result-IsValid, write_r16-IsValid, set_sp-IsValid, set_hl-IsValid, control_flow-IsValid,
  popped-IsValid, relative_jump-IsValid,
}

power_bound : (k : ℕ) → k < 8 → 2 ^ k < 256
unfolding all_below
power_bound k h = ==_true (all_below-elim 8 (λ n. ltb (2 ^ n) 256) refl k h)
  where
    ==_true : ltb (2 ^ k) 256 ≡ true → 2 ^ k < 256
    ==_true e = ground arith

module _ {M : Type 0} (bus : Bus M) (bytes : ReadsBytes bus) where
  read8_bound : (a : ℕ) (s : Cpu M) → read8 bus a s < 256
  unfolding read8 ReadsBytes
  read8_bound a s = bytes a 1 s.mem 0

  read16_bound : (a : ℕ) (s : Cpu M) → read16 bus a s < 65536
  unfolding read16 ReadsBytes
  read16_bound a s = omega (arith, bytes a 2 s.mem 0, bytes a 2 s.mem 1)

  write8-IsValid : (a x : ℕ) (s : Cpu M) → IsValid s → IsValid (write8 bus a x s)
  unfolding write8
  write8-IsValid a x s v =
      words-IsValid s _ refl v.bc_word v.de_word v.hl_word v.sp_word v.pc_word v

  write16-IsValid : (a x : ℕ) (s : Cpu M) → IsValid s → IsValid (write16 bus a x s)
  unfolding write16
  write16-IsValid a x s v =
      words-IsValid s _ refl v.bc_word v.de_word v.hl_word v.sp_word v.pc_word v

  push16-IsValid : (x : ℕ) (s : Cpu M) → IsValid s → IsValid (push16 bus x s)
  unfolding push16
  push16-IsValid x s v = write16-IsValid _ x _ (set_sp-IsValid _ s (omega arith) v)

  read_r8_bound : (r : R8) (s : Cpu M) → read_r8 bus r s < 256
  unfolding read_r8
  read_r8_bound r8_b s = hi_byte_bound s.bc
  read_r8_bound r8_c s = lo_byte_bound s.bc
  read_r8_bound r8_d s = hi_byte_bound s.de
  read_r8_bound r8_e s = lo_byte_bound s.de
  read_r8_bound r8_h s = hi_byte_bound s.hl
  read_r8_bound r8_l s = lo_byte_bound s.hl
  read_r8_bound r8_hl_indirect s = read8_bound s.hl s
  read_r8_bound r8_a s = hi_byte_bound s.af

  write_r8-IsValid :
      (r : R8) (x : ℕ) (s : Cpu M) → x < 256 → IsValid s → IsValid (write_r8 bus r x s)
  unfolding write_r8 set_accumulator write_r16
  write_r8-IsValid r8_b x s b v =
      write_r16-IsValid r16_bc (set_hi s.bc x) s (set_hi_word s.bc x b).0 v
  write_r8-IsValid r8_c x s b v =
      write_r16-IsValid r16_bc (set_lo s.bc x) s (set_lo_word s.bc x b).0 v
  write_r8-IsValid r8_d x s b v =
      write_r16-IsValid r16_de (set_hi s.de x) s (set_hi_word s.de x b).0 v
  write_r8-IsValid r8_e x s b v =
      write_r16-IsValid r16_de (set_lo s.de x) s (set_lo_word s.de x b).0 v
  write_r8-IsValid r8_h x s b v =
      write_r16-IsValid r16_hl (set_hi s.hl x) s (set_hi_word s.hl x b).0 v
  write_r8-IsValid r8_l x s b v =
      write_r16-IsValid r16_hl (set_lo s.hl x) s (set_lo_word s.hl x b).0 v
  write_r8-IsValid r8_hl_indirect x s b v = write8-IsValid s.hl x s v
  write_r8-IsValid r8_a x s b v = set_accumulator-IsValid x s b v

  inc_r8-IsValid : (op : ℕ) (s : Cpu M) → IsValid s → IsValid (inc_r8_step bus op s)
  unfolding inc_r8_step
  inc_r8-IsValid op s v = set_flags-IsValid _ _ _ _ _ (write_r8-IsValid _ _ s (omega arith) v)

  dec_r8-IsValid : (op : ℕ) (s : Cpu M) → IsValid s → IsValid (dec_r8_step bus op s)
  unfolding dec_r8_step
  dec_r8-IsValid op s v = set_flags-IsValid _ _ _ _ _ (write_r8-IsValid _ _ s (omega arith) v)

  move_indirect-IsValid : (op : ℕ) (s : Cpu M) → IsValid s → IsValid (move_indirect op s)
  unfolding move_indirect
  move_indirect-IsValid op s v =
      if-keeps IsValid (one_of op (0x22 ∷ 0x2A ∷ []))
        (set_hl-IsValid (u16 (s.hl + 1)) s (omega arith) v)
        (if-keeps IsValid (one_of op (0x32 ∷ 0x3A ∷ []))
          (set_hl-IsValid (u16 (s.hl + 65535)) s (omega arith) v) v)

  ld_indirect-IsValid : (op : ℕ) (s : Cpu M) → IsValid s → IsValid (ld_indirect_step bus op s)
  unfolding ld_indirect_step
  ld_indirect-IsValid op s v = move_indirect-IsValid op _ (
      if-keeps IsValid _ (write8-IsValid _ _ s v) (set_accumulator-IsValid _ s (read8_bound _ s) v))

  math-IsValid : (op rhs : ℕ) (s : Cpu M) → rhs < 256 → IsValid s → IsValid (math_step bus op rhs s)
  unfolding math_step accumulator
  math-IsValid op rhs s b v = if-keeps IsValid _ (set_flags-IsValid _ _ _ _ s v) (
      store_result-IsValid (math_op op (accumulator s) rhs (carry_flag s)) s
        (math_op_bound op (accumulator s) rhs (carry_flag s) (hi_byte_bound s.af) b) v)

  return-IsValid : (s : Cpu M) → IsValid s → IsValid (return_step bus s)
  unfolding return_step
  return-IsValid s v = control_flow-IsValid _ 1 _ (popped-IsValid s v)

  call-IsValid : (target size : ℕ) (s : Cpu M) → IsValid s → IsValid (call_step bus target size s)
  unfolding call_step
  call-IsValid target size s v = control_flow-IsValid _ size _ (push16-IsValid _ s v)

  pop16_bound : (s : Cpu M) → pop16 bus s < 65536
  unfolding pop16
  pop16_bound s = read16_bound s.sp s

  -- A pair restored from the stack; AF is restored with the low half of its flags clear.
  write_stack-IsValid :
      (r : R16Stack) (x : ℕ) (s : Cpu M)
      → x < 65536
      → (r ≡ stack_af → x % 16 ≡ 0)
      → IsValid s
      → IsValid (write_stack_r16 r x s)
  unfolding write_stack_r16
  write_stack-IsValid stack_bc x s b c v =
      words-IsValid s _ refl b v.de_word v.hl_word v.sp_word v.pc_word v
  write_stack-IsValid stack_de x s b c v =
      words-IsValid s _ refl v.bc_word b v.hl_word v.sp_word v.pc_word v
  write_stack-IsValid stack_hl x s b c v =
      words-IsValid s _ refl v.bc_word v.de_word b v.sp_word v.pc_word v
  write_stack-IsValid stack_af x s b c v = record {
    af_word = b;
    flags_clear = c refl;
    bc_word = v.bc_word;
    de_word = v.de_word;
    hl_word = v.hl_word;
    sp_word = v.sp_word;
    pc_word = v.pc_word;
  }

  pop-IsValid : (op : ℕ) (s : Cpu M) → IsValid s → IsValid (pop_r16_step bus op s)
  unfolding pop_r16_step
  pop-IsValid op s v = go (decode_r16_stack op)
    where
      w : IsValid (popped s)
      w = popped-IsValid s v

      x : ℕ
      x = pop16 bus s

      b : x < 65536
      b = pop16_bound s

      go :
          (r : R16Stack)
          → IsValid (elim r [
            | stack_af ↦ write_stack_r16 stack_af (pop16 bus s / 16 * 16) (popped s)
            | q ↦ write_stack_r16 q (pop16 bus s) (popped s)
          ])
      go stack_bc = write_stack-IsValid stack_bc x _ b (λ e. absurd (ground arith)) w
      go stack_de = write_stack-IsValid stack_de x _ b (λ e. absurd (ground arith)) w
      go stack_hl = write_stack-IsValid stack_hl x _ b (λ e. absurd (ground arith)) w
      go stack_af =
          write_stack-IsValid stack_af (x / 16 * 16) _ (omega (arith, b)) (λ e. omega arith) w

  cb-IsValid : (op : ℕ) (s : Cpu M) → IsValid s → IsValid (execute_cb_opcode bus op s)
  unfolding execute_cb_opcode
  cb-IsValid op s v =
      let reg = decode_r8 op in
      let x = read_r8 bus reg s in
      let small = read_r8_bound reg s in
      let k = low_bits 2 (shr 6 op) in
      let bit = low_bits 3 (shr 3 op) in
      if-keeps IsValid (k == 0)
        (write_r8-IsValid reg _ _ (shift_bound op x _ small) (set_flags-IsValid _ _ _ _ s v))
        (if-keeps IsValid (k == 1) (set_flags-IsValid _ _ _ _ s v) (
          if-keeps IsValid (k == 2)
            (write_r8-IsValid reg (bit_and x (255 - 2 ^ bit)) s
              (omega (arith, bit_and_le 8 x (255 - 2 ^ bit) (omega arith))) v)
            (write_r8-IsValid reg (bit_or x (2 ^ bit)) s
              (bit_or_bound 8 x (2 ^ bit) small (power_bound bit (omega arith))) v)))

  complement-IsValid : (s : Cpu M) → IsValid s → IsValid (complement s)
  unfolding complement accumulator
  complement-IsValid s v =
      let t = set_accumulator (255 - hi_byte s.af) s in
      with_flags-IsValid (bit_and (flags t) 0x90 + 0x60) t
        (omega (arith, bit_and_le 8 (flags t) 0x90 (omega arith)))
        (omega (arith, bit_and_high_half (flags t) 9)) (set_accumulator-IsValid _ s (omega arith) v)

  -- SCF and CCF clear all flags but Z, and may then set C.
  kept_zero-IsValid :
      (s : Cpu M) → IsValid s → IsValid (record s { af = set_lo s.af (bit_and (flags s) 0x80) })
  kept_zero-IsValid s v =
      with_flags-IsValid (bit_and (flags s) 0x80) s
        (omega (arith, bit_and_le 8 (flags s) 0x80 (omega arith))) (bit_and_high_half (flags s) 8) v

  with_carry-IsValid :
      (s : Cpu M) → IsValid s → IsValid (record s { af = set_lo s.af (bit_or (flags s) 0x10) })
  unfolding flags lo_byte
  with_carry-IsValid s v =
      with_flags-IsValid (bit_or (flags s) 0x10) s
        (bit_or_bound 8 (flags s) 0x10 (omega arith) (omega arith))
        (ground (arith, bit_or_single 4 (flags s), v.flags_clear)) v

  set_carry-IsValid : (s : Cpu M) → IsValid s → IsValid (set_carry s)
  unfolding set_carry
  set_carry-IsValid s v = with_carry-IsValid _ (kept_zero-IsValid s v)

  complement_carry-IsValid : (s : Cpu M) → IsValid s → IsValid (complement_carry s)
  unfolding complement_carry
  complement_carry-IsValid s v =
      if-keeps IsValid (not (carry_flag s)) (with_carry-IsValid _ (kept_zero-IsValid s v))
        (kept_zero-IsValid s v)

  add_hl-IsValid : (op : ℕ) (s : Cpu M) → IsValid s → IsValid (add_hl_step op s)
  unfolding add_hl_step
  add_hl-IsValid op s v = set_hl-IsValid _ _ (omega arith) (set_flags-IsValid _ _ _ _ s v)

  offset-IsValid : (base imm : ℕ) (s : Cpu M) → IsValid s → IsValid (offset_flags base imm s)
  unfolding offset_flags
  offset-IsValid base imm s v = set_flags-IsValid _ _ _ _ s v

  -- The microcode of every entry keeps the registers valid, on a bus that reads bytes.
  pub microcode-IsValid :
      (k : Step) (op : ℕ) (code : List ℕ) (s : Cpu M)
      → AreBytes code
      → IsValid s
      → IsValid (microcode bus k op code s)
  unfolding microcode set_stop_flag set_halt_flag set_ime schedule_ime_enable
      lock_up_on_invalid_opcode accumulator
  microcode-IsValid nop op code s h v = v
  microcode-IsValid stop op code s h v =
      words-IsValid s _ refl v.bc_word v.de_word v.hl_word v.sp_word v.pc_word v
  microcode-IsValid halt op code s h v =
      words-IsValid s _ refl v.bc_word v.de_word v.hl_word v.sp_word v.pc_word v
  microcode-IsValid ld_r16_imm op code s h v = write_r16-IsValid _ _ s (fetch_imm16_bound code h) v
  microcode-IsValid inc_r16 op code s h v = write_r16-IsValid _ _ s (omega arith) v
  microcode-IsValid dec_r16 op code s h v = write_r16-IsValid _ _ s (omega arith) v
  microcode-IsValid ld_mem_sp op code s h v = write16-IsValid _ _ s v
  microcode-IsValid add_hl op code s h v = add_hl-IsValid op s v
  microcode-IsValid inc_r8 op code s h v = inc_r8-IsValid op s v
  microcode-IsValid dec_r8 op code s h v = dec_r8-IsValid op s v
  microcode-IsValid ld_r8_imm op code s h v = write_r8-IsValid _ _ s (fetch_imm8_bound code h) v
  microcode-IsValid rotate_a op code s h v =
      store_result-IsValid (rotate_accumulator op (accumulator s) (carry_flag s)) s
        (rotate_bound op (accumulator s) (carry_flag s) (hi_byte_bound s.af)) v
  microcode-IsValid daa op code s h v =
      store_result-IsValid (decimal_adjust (accumulator s) (flags s)) s
        (adjust_bound (accumulator s) (flags s)) v
  microcode-IsValid cpl op code s h v = complement-IsValid s v
  microcode-IsValid scf op code s h v = set_carry-IsValid s v
  microcode-IsValid ccf op code s h v = complement_carry-IsValid s v
  microcode-IsValid jr op code s h v = relative_jump-IsValid _ s v
  microcode-IsValid jr_cond op code s h v = if-keeps IsValid _ (relative_jump-IsValid _ s v) v
  microcode-IsValid ld_r8_r8 op code s h v = write_r8-IsValid _ _ s (read_r8_bound _ s) v
  microcode-IsValid ld_indirect op code s h v = ld_indirect-IsValid op s v
  microcode-IsValid math_r8 op code s h v = math-IsValid op _ s (read_r8_bound _ s) v
  microcode-IsValid math_imm op code s h v = math-IsValid op _ s (fetch_imm8_bound code h) v
  microcode-IsValid ret_cond op code s h v = if-keeps IsValid _ (return-IsValid s v) v
  microcode-IsValid ret op code s h v = return-IsValid s v
  microcode-IsValid reti op code s h v =
      let w = return-IsValid s v in
      words-IsValid _ _ refl w.bc_word w.de_word w.hl_word w.sp_word w.pc_word w
  microcode-IsValid pop_r16 op code s h v = pop-IsValid op s v
  microcode-IsValid push_r16 op code s h v = push16-IsValid _ s v
  microcode-IsValid jp_cond op code s h v = if-keeps IsValid _ (control_flow-IsValid _ 3 s v) v
  microcode-IsValid jp op code s h v = control_flow-IsValid _ 3 s v
  microcode-IsValid jp_hl op code s h v = control_flow-IsValid _ 1 s v
  microcode-IsValid call_cond op code s h v = if-keeps IsValid _ (call-IsValid _ 3 s v) v
  microcode-IsValid call op code s h v = call-IsValid _ 3 s v
  microcode-IsValid rst op code s h v = call-IsValid _ 1 s v
  microcode-IsValid cb_prefix op code s h v = cb-IsValid _ s v
  microcode-IsValid ldh_store op code s h v = write8-IsValid _ _ s v
  microcode-IsValid ldh_load op code s h v = set_accumulator-IsValid _ s (read8_bound _ s) v
  microcode-IsValid ld_c_store op code s h v = write8-IsValid _ _ s v
  microcode-IsValid ld_c_load op code s h v = set_accumulator-IsValid _ s (read8_bound _ s) v
  microcode-IsValid add_sp op code s h v =
      set_sp-IsValid _ _ (add_offset_bound _ _) (offset-IsValid _ _ s v)
  microcode-IsValid ld_hl_sp op code s h v =
      set_hl-IsValid _ _ (add_offset_bound _ _) (offset-IsValid _ _ s v)
  microcode-IsValid ld_sp_hl op code s h v = set_sp-IsValid _ s v.hl_word v
  microcode-IsValid ld_store op code s h v = write8-IsValid _ _ s v
  microcode-IsValid ld_load op code s h v = set_accumulator-IsValid _ s (read8_bound _ s) v
  microcode-IsValid di op code s h v =
      words-IsValid s _ refl v.bc_word v.de_word v.hl_word v.sp_word v.pc_word v
  microcode-IsValid ei op code s h v =
      words-IsValid s _ refl v.bc_word v.de_word v.hl_word v.sp_word v.pc_word v
  microcode-IsValid invalid op code s h v =
      words-IsValid s _ refl v.bc_word v.de_word v.hl_word v.sp_word v.pc_word v
