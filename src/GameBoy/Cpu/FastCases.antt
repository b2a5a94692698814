-- ===== src/GameBoy/Cpu/FastCases.antt =====
-- cores/gameboy/gameboy.cpp: `tryFastExecuteBytes` itself, with `finalizeFast`.
use proto_time.Base.{
  ℕ, ◌+◌, ◌-◌, Bool, true, false, List, [], ◌∷◌, Option, none, some, ◌==◌, if◌then◌else◌,
}
use proto_time.Base.Bits.{low_bits, shr}
use proto_time.GameBoy.Cpu.Registers.{
  Bus, Cpu, u16, add_offset, lo_byte, accumulator, set_accumulator, set_ime, schedule_ime_enable,
  set_stop_flag, set_halt_flag, read8, write8, write16,
}
use proto_time.GameBoy.Cpu.Cycles.{not_taken, taken, opcode_cycles_for}
use proto_time.GameBoy.Cpu.Dispatch.{
  Step, is_control_flow_opcode, table_step, nop, stop, halt, ld_r16_imm, inc_r16, dec_r16,
  ld_mem_sp, add_hl, inc_r8, dec_r8, ld_r8_imm, rotate_a, daa, cpl, scf, ccf, jr, jr_cond, ld_r8_r8,
  ld_indirect, math_r8, math_imm, ret_cond, ret, reti, pop_r16, push_r16, jp_cond, jp, jp_hl,
  call_cond, call, rst, cb_prefix, ldh_store, ldh_load, ld_c_store, ld_c_load, add_sp, ld_hl_sp,
  ld_sp_hl, ld_store, ld_load, di, ei, invalid,
}
use proto_time.GameBoy.Cpu.Switch.{supports_fast_opcode, fast_step_of, fast_byte_count}
use proto_time.GameBoy.Cpu.Microcode.{fetch_imm8, fetch_imm16}
use proto_time.GameBoy.Cpu.Execute.{
  CpuFeedback, cpu_optimized_fast_path, pc_advance, retire_instruction,
}
use Prim.Native.Nat.{bit_and}
use proto_time.GameBoy.Cpu.Fast.{
  cached_r16, set_cached_r16, cached_stack_r16, cached_condition_holds, fast_math, fast_add_hl,
  fast_rotate, fast_daa, fast_complement, fast_set_carry, fast_complement_carry, fast_relative_jump,
  fast_offset_flags, cached_read_r8, cached_write_r8, cached_push16, fast_inc_r8, fast_dec_r8,
  fast_indirect, fast_return, fast_call, fast_pop_r16,
}

-- What `finalizeFast` charges when no interrupt has left a charge.
unfoldable pub fast_charge : Option Step → ℕ → ℕ → ℕ → ℕ → ℕ
fast_charge none opcode before after count = 0
fast_charge (some k) opcode before after count =
    if after == u16 (before + count)
    then not_taken (opcode_cycles_for opcode)
    else taken (opcode_cycles_for opcode)

-- The value that `tryFastExecuteBytes` returns, with the state and the feedback it leaves.
pub record FastResult (M : Type 0) : Type 0 where
  pub handled : Bool
  pub cpu : Cpu M
  pub feedback : CpuFeedback

module _ {M : Type 0} (bus : Bus M) where
  -- What a case does before `finalizeFast`; `before` is `feedback.pcBefore`.
  unfoldable pub fast_case : Step → ℕ → ℕ → List ℕ → Cpu M → Cpu M
  fast_case nop opcode before code s = s
  fast_case stop opcode before code s = set_stop_flag true s
  fast_case halt opcode before code s = set_halt_flag true s
  fast_case ld_r16_imm opcode before code s =
      set_cached_r16 (low_bits 2 (shr 4 opcode)) (fetch_imm16 code) s
  fast_case inc_r16 opcode before code s =
      let reg = low_bits 2 (shr 4 opcode) in set_cached_r16 reg (u16 (cached_r16 reg s + 1)) s
  fast_case dec_r16 opcode before code s =
      let reg = low_bits 2 (shr 4 opcode) in set_cached_r16 reg (u16 (cached_r16 reg s + 65535)) s
  fast_case ld_mem_sp opcode before code s = write16 bus (fetch_imm16 code) s.sp s
  fast_case add_hl opcode before code s = fast_add_hl opcode s
  fast_case inc_r8 opcode before code s = fast_inc_r8 bus opcode s
  fast_case dec_r8 opcode before code s = fast_dec_r8 bus opcode s
  fast_case ld_r8_imm opcode before code s =
      cached_write_r8 bus (low_bits 3 (shr 3 opcode)) (fetch_imm8 code) s
  fast_case rotate_a opcode before code s = fast_rotate opcode s
  fast_case daa opcode before code s = fast_daa s
  fast_case cpl opcode before code s = fast_complement s
  fast_case scf opcode before code s = fast_set_carry s
  fast_case ccf opcode before code s = fast_complement_carry s
  fast_case jr opcode before code s = fast_relative_jump before (fetch_imm8 code) s
  fast_case jr_cond opcode before code s =
      if cached_condition_holds (low_bits 2 (shr 3 opcode)) s
      then fast_relative_jump before (fetch_imm8 code) s
      else s
  fast_case ld_r8_r8 opcode before code s =
      cached_write_r8 bus (low_bits 3 (shr 3 opcode)) (cached_read_r8 bus (low_bits 3 opcode) s) s
  fast_case ld_indirect opcode before code s = fast_indirect bus opcode s
  fast_case math_r8 opcode before code s =
      fast_math opcode (cached_read_r8 bus (low_bits 3 opcode) s) s
  fast_case math_imm opcode before code s = fast_math opcode (fetch_imm8 code) s
  fast_case ret_cond opcode before code s =
      if cached_condition_holds (low_bits 2 (shr 3 opcode)) s then fast_return bus s else s
  fast_case ret opcode before code s = fast_return bus s
  fast_case reti opcode before code s = set_ime true (fast_return bus s)
  fast_case pop_r16 opcode before code s = fast_pop_r16 bus opcode s
  fast_case push_r16 opcode before code s =
      cached_push16 bus (cached_stack_r16 (low_bits 2 (shr 4 opcode)) s) s
  fast_case jp_cond opcode before code s =
      if cached_condition_holds (low_bits 2 (shr 3 opcode)) s
      then record s { pc = u16 (fetch_imm16 code + 65536 - 3) }
      else s
  fast_case jp opcode before code s = record s { pc = u16 (fetch_imm16 code + 65536 - 3) }
  fast_case jp_hl opcode before code s = record s { pc = u16 (s.hl + 65536 - 1) }
  fast_case call_cond opcode before code s =
      if cached_condition_holds (low_bits 2 (shr 3 opcode)) s
      then fast_call bus before (fetch_imm16 code) 3 s
      else s
  fast_case call opcode before code s = fast_call bus before (fetch_imm16 code) 3 s
  fast_case rst opcode before code s = fast_call bus before (bit_and opcode 0x38) 1 s
  fast_case ldh_store opcode before code s = write8 bus (0xFF00 + fetch_imm8 code) (accumulator s) s
  fast_case ldh_load opcode before code s =
      set_accumulator (read8 bus (0xFF00 + fetch_imm8 code) s) s
  fast_case ld_c_store opcode before code s = write8 bus (0xFF00 + lo_byte s.bc) (accumulator s) s
  fast_case ld_c_load opcode before code s = set_accumulator (read8 bus (0xFF00 + lo_byte s.bc) s) s
  fast_case add_sp opcode before code s =
      fast_offset_flags s.sp (fetch_imm8 code) (record s { sp = add_offset s.sp (fetch_imm8 code) })
  fast_case ld_hl_sp opcode before code s =
      fast_offset_flags s.sp (fetch_imm8 code) (record s { hl = add_offset s.sp (fetch_imm8 code) })
  fast_case ld_sp_hl opcode before code s = record s { sp = s.hl }
  fast_case ld_store opcode before code s = write8 bus (fetch_imm16 code) (accumulator s) s
  fast_case ld_load opcode before code s = set_accumulator (read8 bus (fetch_imm16 code) s) s
  fast_case di opcode before code s = set_ime false s
  fast_case ei opcode before code s = schedule_ime_enable s
  fast_case cb_prefix opcode before code s = s
  fast_case invalid opcode before code s = s

  unfoldable pub finalize_fast : ℕ → ℕ → Cpu M → CpuFeedback → Cpu M × CpuFeedback
  finalize_fast opcode count s fb =
      let after = u16 (s.pc + pc_advance count s) in
      let charge =
        if s.pending_cycle_charge == 0
        then fast_charge (table_step opcode) opcode fb.pc_before after count
        else s.pending_cycle_charge in
      (
        retire_instruction bus charge (record s {
          halt_bug_pc_adjust_pending = false;
          pc = after;
          pending_cycle_charge = 0;
          instruction_execution_active = false;
        }),
        record fb {
          pc_after = after;
          execution_path = cpu_optimized_fast_path;
          retired_cycles = charge;
        },
      )

  -- The case that serves the opcode and its end, or the fall to `return false`.
  unfoldable pub serve_fast : ℕ → List ℕ → ℕ → Cpu M → CpuFeedback → Option Step → FastResult M
  serve_fast opcode code before t started none = record {
    handled = false;
    cpu = record t { instruction_execution_active = false };
    feedback = started;
  }
  serve_fast opcode code before t started (some k) =
      let r = finalize_fast opcode (fast_byte_count k) (fast_case k opcode before code t) started in
      record { handled = true; cpu = r.0; feedback = r.1 }

  -- The bodies that `fast_case` has for the two last steps are never reached: no case of the
  -- code serves them.
  unfoldable pub try_fast_execute_bytes : List ℕ → Cpu M → CpuFeedback → FastResult M
  try_fast_execute_bytes [] s fb = record { handled = false; cpu = s; feedback = fb }
  try_fast_execute_bytes (opcode ∷ rest) s fb =
      let control = is_control_flow_opcode opcode in
      let t = record s {
        instruction_execution_active = true;
        instruction_cycle_end_offset = not_taken (opcode_cycles_for opcode);
      } in
      let started = record fb {
        pc_before = s.pc;
        is_control_flow = control;
        segment_boundary_hint = control;
        retired_cycles = 0;
      } in
      if supports_fast_opcode opcode
      then serve_fast opcode (opcode ∷ rest) s.pc t started (fast_step_of opcode)
      else record { handled = false; cpu = s; feedback = fb }
