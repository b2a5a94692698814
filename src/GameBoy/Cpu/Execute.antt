-- ===== src/GameBoy/Cpu/Execute.antt =====
-- cores/gameboy/gameboy.cpp and inst_cycle/execute/executionBlock.hpp: `decodeInto` and `execute`,
-- the canonical way to run the one block of bytes that a fetch gives, and the end of an
-- instruction in `retireInstruction`.
use proto_time.Base.{
  ℕ, zero, suc, ◌+◌, ◌-◌, Bool, true, false, ◌&&◌, ◌||◌, List, [], ◌∷◌, ◌++◌, length, drop, take,
  Option, none, some, ltb, ◌==◌, if◌then◌else◌,
}
use proto_time.Base.Outcome.{Outcome, done, throws, ◌>>=◌}
use proto_time.GameBoy.Cpu.Registers.{Bus, Cpu, u16}
use proto_time.GameBoy.Cpu.Cycles.{
  OpcodeCycles, not_taken, taken, opcode_cycles_for, cb_opcode_cycles_for,
}
use proto_time.GameBoy.Cpu.Dispatch.{
  Step, is_control_flow_opcode, is_undefined_opcode, table_step, opcode_length, cb_prefix,
}
use proto_time.GameBoy.Cpu.Microcode.{fetch_imm8, microcode}

pub data ExecutionPathHint : Type 0 where
  unknown canonical_fetch_decode_execute cpu_optimized_fast_path portable_ir native_ir
        cached_block :
      ExecutionPathHint

pub record CpuFeedback : Type 0 where
  pub pc_before : ℕ
  pub pc_after : ℕ
  pub is_control_flow : Bool
  pub segment_boundary_hint : Bool
  pub retired_cycles : ℕ
  pub execution_path : ExecutionPathHint

-- The steps of a block, each with the cycles charged when it was added.
pub record ExecutionBlock (M : Type 0) : Type 0 where
  pub steps : List (ℕ × (Cpu M → Cpu M))
  pub cycles_if_not_taken : ℕ
  pub cycles_if_taken : ℕ

-- What `decodeInto` throws; the last is the model's own, for a loop that has run out of fuel.
pub data DecodeError : Type 0 where
  unimplemented_opcode invalid_opcode_length truncated_opcode_stream out_of_fuel : DecodeError

-- The cycles of an entry; a prefixed opcode has its own.
unfoldable pub entry_cycles : Step → ℕ → List ℕ → OpcodeCycles
entry_cycles cb_prefix opcode code = cb_opcode_cycles_for (fetch_imm8 code)
entry_cycles k opcode code = opcode_cycles_for opcode

module _ {M : Type 0} where
  unfoldable pub empty_block : ExecutionBlock M
  empty_block = record { steps = []; cycles_if_not_taken = 0; cycles_if_taken = 0 }

  unfoldable pub add_cycle_charge : OpcodeCycles → ExecutionBlock M → ExecutionBlock M
  add_cycle_charge c b = record b {
    cycles_if_not_taken = b.cycles_if_not_taken + not_taken c;
    cycles_if_taken = b.cycles_if_taken + taken c;
  }

  unfoldable pub add_step : (Cpu M → Cpu M) → ExecutionBlock M → ExecutionBlock M
  add_step f b = record b { steps = b.steps ++ ((b.cycles_if_not_taken, f) ∷ []) }

  -- The delayed effect of EI, at the end of an instruction.
  unfoldable pub enable_ime : Cpu M → Cpu M
  enable_ime s =
      if s.ime_enable_pending
      then (if ltb 0 s.ime_enable_delay
          then record s { ime_enable_delay = s.ime_enable_delay - 1 }
          else record s { ime = true; ime_enable_pending = false })
      else s

  -- The bytes that the program counter moves by: one less after the HALT bug.
  unfoldable pub pc_advance : ℕ → Cpu M → ℕ
  pc_advance count s = if s.halt_bug_pc_adjust_pending && ltb 0 count then count - 1 else count

  unfoldable pub run_steps : List (ℕ × (Cpu M → Cpu M)) → Cpu M → Cpu M
  run_steps [] s = s
  run_steps ((offset, f) ∷ fs) s =
      run_steps fs (
        f (record s { instruction_cycle_end_offset = offset; instruction_execution_active = true }))

module _ {M : Type 0} (bus : Bus M) where
  unfoldable pub retire_instruction : ℕ → Cpu M → Cpu M
  retire_instruction cycles s =
      if cycles == 0 then s else enable_ime (record s { mem = bus.run_hardware cycles s.mem })

  -- The entry at the front of the bytes is charged and emitted.
  unfoldable pub emit_entry : Step → ℕ → List ℕ → ExecutionBlock M → ExecutionBlock M
  emit_entry k opcode code b =
      add_step (microcode bus k opcode code) (add_cycle_charge (entry_cycles k opcode code) b)

  -- One turn of the loop of `decodeInto`, with the turns that follow it.
  unfoldable pub decode_entry :
      List ℕ
      → ℕ
      → ExecutionBlock M
      → ℕ
      → (Step → Outcome DecodeError (ExecutionBlock M × ℕ))
      → Option Step
      → Outcome DecodeError (ExecutionBlock M × ℕ)
  decode_entry code opcode b used more none = throws unimplemented_opcode
  decode_entry code opcode b used more (some k) =
      let size = opcode_length k in
      if size == 0
      then throws invalid_opcode_length
      else if ltb (length code) size
      then throws truncated_opcode_stream
      else if is_control_flow_opcode opcode || is_undefined_opcode opcode
      then done (emit_entry k opcode code b, used + size)
      else more k

  -- The loop of `decodeInto`: the block and how many bytes it has used.
  unfoldable pub decode_from :
      ℕ → List ℕ → ExecutionBlock M → ℕ → Outcome DecodeError (ExecutionBlock M × ℕ)
  decode_from fuel [] b used = done (b, used)
  decode_from zero (opcode ∷ rest) b used = throws out_of_fuel
  decode_from (suc fuel) (opcode ∷ rest) b used =
      decode_entry (opcode ∷ rest) opcode b used
        (λ (k : Step).
          decode_from fuel (drop (opcode_length k) (opcode ∷ rest))
            (emit_entry k opcode (opcode ∷ rest) b) (used + opcode_length k))
        (table_step opcode)

  unfoldable pub decode_into : List ℕ → Outcome DecodeError (ExecutionBlock M × ℕ)
  decode_into code = decode_from (length code) code empty_block 0

  -- What `execute` charges when no interrupt has left a charge.
  unfoldable pub charge_of_block : ExecutionBlock M → ℕ → ℕ → ℕ → Cpu M → ℕ
  charge_of_block b count before after s =
      if (count == 0)
        && (s.halt_flag || s.stop_flag || s.illegal_opcode_lockup || bus.dma_active s.mem)
      then 4
      else if after == u16 (before + count)
      then b.cycles_if_not_taken
      else b.cycles_if_taken

  unfoldable pub execute : ExecutionBlock M → List ℕ → Cpu M → CpuFeedback → Cpu M × CpuFeedback
  execute b code s fb =
      let count = length code in
      let control = is_control_flow_opcode_of code in
      let t = record (run_steps b.steps s) { instruction_execution_active = false } in
      let after = u16 (t.pc + pc_advance count t) in
      let charge =
        if t.pending_cycle_charge == 0
        then charge_of_block b count s.pc after t
        else t.pending_cycle_charge in
      (
        retire_instruction charge
            (record t { halt_bug_pc_adjust_pending = false; pc = after; pending_cycle_charge = 0 }),
        record {
          pc_before = s.pc;
          pc_after = after;
          is_control_flow = control;
          segment_boundary_hint = control;
          retired_cycles = charge;
          execution_path = canonical_fetch_decode_execute;
        },
      )
    where
      is_control_flow_opcode_of : List ℕ → Bool
      is_control_flow_opcode_of [] = false
      is_control_flow_opcode_of (opcode ∷ rest) = is_control_flow_opcode opcode

  -- Decoding a fetched block, which is cut to the bytes used, and executing it.
  unfoldable pub decode_and_execute :
      List ℕ → Cpu M → CpuFeedback → Outcome DecodeError (Cpu M × CpuFeedback)
  decode_and_execute code s fb =
      decode_into code >>= (λ r. done (execute (r.0) (take (r.1) code) s fb))
