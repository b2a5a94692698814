-- ===== src/GameBoy/Cpu/Tests.antt =====
-- The LR35902 on memory that is a function of the address, run on concrete instructions.
use proto_time.Base.{
  ℕ, zero, suc, ◌+◌, ◌-◌, ◌%◌, ◌<◌, ◌≤◌, true, false, not, ◌||◌, List, [], ◌∷◌, length, get_or,
  none, ltb, ◌==◌, if◌then◌else◌, ◌≡◌, ◌≢◌, refl, ap, ap₂, arith, ◌⊎◌,
}
use proto_time.Base.Bits.{test_bit}
use proto_time.Base.Outcome.{done, throws}
use proto_time.GameBoy.Cpu.Registers.{
  Bus, Cpu, u16, set_hi, decode_r8, decode_r8_dest, read8, write_r8,
}
use proto_time.GameBoy.Cpu.Dispatch.{
  is_control_flow_opcode, is_undefined_opcode, low_table_step, high_table_step, table_step,
  opcode_length,
}
use proto_time.GameBoy.Cpu.Switch.{supports_fast_opcode, low_switch, switch_step, fast_step_of}
use proto_time.GameBoy.Cpu.Alu.{math_op}
use proto_time.GameBoy.Cpu.Cycles.{opcode_cycles_for, unprefixed_opcode_cycles}
use proto_time.GameBoy.Cpu.Microcode.{fetch_imm8, return_step, call_step, microcode}
use proto_time.GameBoy.Cpu.Execute.{
  CpuFeedback, ExecutionBlock, entry_cycles, empty_block, add_cycle_charge, add_step, enable_ime,
  pc_advance, run_steps, retire_instruction, emit_entry, decode_entry, decode_from, decode_into,
  charge_of_block, execute, decode_and_execute, unknown, canonical_fetch_decode_execute,
  truncated_opcode_stream,
}
use proto_time.GameBoy.Cpu.FastCases.{serve_fast, try_fast_execute_bytes}
use proto_time.GameBoy.Cpu.Fetch.{
  serviced_bit, is_hram_address, pending_interrupts, service_interrupt_if_pending,
  whole_instruction, stream_at, fetch_stream, fetch_serviced, fetch_into,
}
use proto_time.GameBoy.Cpu.Opcodes.{table_complete}
use proto_time.GameBoy.Cpu.FastPath.{as_canonical}
use proto_time.GameBoy.Cpu.Fetched.{ReadsAll, fetched_paths_agree}
use proto_time.GameBoy.Cpu.Valid.{IsValid, ReadsBytes}
use proto_time.GameBoy.Cpu.Running.{decode_and_execute-IsValid}
use proto_time.GameBoy.Cpu.Decoding.{AreBytes, decode_ends}
use proto_time.GameBoy.Cpu.Decimal.{adjusted, bcd, add_decimal, subtract_decimal}
use proto_time.GameBoy.Cpu.Stack.{KeepsPair, call_returns}
use proto_time.GameBoy.Cpu.Interrupts.{Serves, interrupt_entered}

abbrev Memory : Type 0
Memory = ℕ → ℕ

abbrev bytes_at : ℕ → ℕ → Memory → List ℕ
bytes_at a zero m = []
bytes_at a (suc n) m = m a % 256 ∷ bytes_at (a + 1) n m

abbrev store_at : ℕ → List ℕ → Memory → Memory
store_at a [] m = m
store_at a (x ∷ xs) m = store_at (a + 1) xs (λ j. if j == a then x else m j)

abbrev flat_bus : Bus Memory
flat_bus = record {
  bus_read = bytes_at;
  bus_write = λ offset a xs m. store_at a xs m;
  run_hardware = λ n m. m;
  dma_active = λ m. false;
  interrupt_enable = λ m. m 0xFFFF;
  interrupt_flags = λ m. m 0xFF0F;
  set_interrupt_flags = λ x m. store_at 0xFF0F (x ∷ []) m;
}

-- Working memory with an instruction at 0xC000: CALL 0x1234.
abbrev program : Memory
program a =
    if a == 0xC000 then 0xCD else if a == 0xC001 then 0x34 else if a == 0xC002 then 0x12 else 0

-- The same with a timer and a joypad request that are both enabled.
abbrev interrupted : Memory
interrupted a = if (a == 0xFFFF) then 0x1F else if a == 0xFF0F then 0x14 else program a

abbrev start : Cpu Memory
start = record {
  af = 0x12B0;
  bc = 0x0013;
  de = 0x00D8;
  hl = 0x014D;
  sp = 0xDFFE;
  pc = 0xC000;
  ime = true;
  ime_enable_pending = false;
  ime_enable_delay = 0;
  halt_flag = false;
  stop_flag = false;
  illegal_opcode_lockup = false;
  halt_bug_active = false;
  halt_bug_pc_adjust_pending = false;
  pending_cycle_charge = 0;
  instruction_cycle_end_offset = 0;
  instruction_execution_active = false;
  mem = program;
}

abbrev no_feedback : CpuFeedback
no_feedback = record {
  pc_before = 0;
  pc_after = 0;
  is_control_flow = false;
  segment_boundary_hint = false;
  retired_cycles = 0;
  execution_path = unknown;
}

flat_bus-ReadsBytes : ReadsBytes flat_bus
unfolding ReadsBytes
flat_bus-ReadsBytes a n m i = go a n i
  where
    go : (a n i : ℕ) → get_or (bytes_at a n m) i 0 < 256
    go a zero i = omega arith
    go a (suc n) zero = omega arith
    go a (suc n) (suc i) = go (a + 1) n i

flat_bus-ReadsAll : ReadsAll flat_bus
flat_bus-ReadsAll = record {
  reads_bytes = flat_bus-ReadsBytes;
  reads_count = λ a n m. length-bytes_at a n m;
  reads_first = λ a n m h. first a n m h;
}
  where
    length-bytes_at : (a n : ℕ) (m : Memory) → length (bytes_at a n m) ≡ n
    length-bytes_at a zero m = refl
    length-bytes_at a (suc n) m = ap suc (length-bytes_at (a + 1) n m)

    first :
        (a n : ℕ) (m : Memory) → 1 ≤ n → get_or (bytes_at a n m) 0 0 ≡ get_or (bytes_at a 1 m) 0 0
    first a zero m h = absurd (omega arith)
    first a (suc n) m h = refl

start_registers-IsValid : IsValid start
start_registers-IsValid = record {
  af_word = omega arith;
  flags_clear = refl;
  bc_word = omega arith;
  de_word = omega arith;
  hl_word = omega arith;
  sp_word = omega arith;
  pc_word = omega arith;
}

flat_bus-KeepsPair : KeepsPair flat_bus 0xDFFC
unfolding KeepsPair
flat_bus-KeepsPair offset lo hi m p q = ap₂ (λ x y. x ∷ y ∷ []) (omega arith) (omega arith)

table_complete_example :
    (table_step 0xCB ≢ none)
    × (supports_fast_opcode 0xCB ≡ not ((0xCB == 0xCB) || is_undefined_opcode 0xCB))
table_complete_example = table_complete 0xCB (omega arith)

-- A CALL that is run on both paths.
fetched_paths_agree_example :
    let f = fetch_into flat_bus start in
    let r = try_fast_execute_bytes flat_bus f.block.code f.cpu no_feedback in
    decode_and_execute flat_bus f.block.code f.cpu no_feedback
    ≡ done (r.cpu, as_canonical r.feedback)
unfolding fetch_into pending_interrupts service_interrupt_if_pending fetch_serviced fetch_stream
    stream_at whole_instruction read8 table_step low_table_step high_table_step opcode_length
    is_hram_address try_fast_execute_bytes serve_fast supports_fast_opcode fast_step_of switch_step
    low_switch
fetched_paths_agree_example = fetched_paths_agree flat_bus flat_bus-ReadsAll start no_feedback refl

decode_and_execute-IsValid_example :
    IsValid (record start { af = 0x34B0; pc = 0xC002; instruction_cycle_end_offset = 8 })
unfolding AreBytes decode_and_execute decode_into decode_from decode_entry emit_entry add_step
    add_cycle_charge entry_cycles empty_block execute run_steps retire_instruction enable_ime
    pc_advance charge_of_block table_step low_table_step opcode_length opcode_cycles_for
    unprefixed_opcode_cycles microcode decode_r8_dest decode_r8 write_r8 set_hi fetch_imm8
    is_control_flow_opcode is_undefined_opcode
decode_and_execute-IsValid_example =
    decode_and_execute-IsValid flat_bus flat_bus-ReadsBytes (0x3E ∷ 0x34 ∷ []) start
      (record start { af = 0x34B0; pc = 0xC002; instruction_cycle_end_offset = 8 }) no_feedback
      (record {
        pc_before = 0xC000;
        pc_after = 0xC002;
        is_control_flow = false;
        segment_boundary_hint = false;
        retired_cycles = 8;
        execution_path = canonical_fetch_decode_execute;
      })
      (omega arith, (omega arith, tt)) start_registers-IsValid refl

decode_ends_example :
    ((b : ExecutionBlock Memory) × (used : ℕ) × (decode_into flat_bus (0xC3 ∷ 0x00 ∷ [])
        ≡ done (b, used))
      × (used ≤ 2))
    ⊎ (decode_into flat_bus (0xC3 ∷ 0x00 ∷ []) ≡ throws truncated_opcode_stream)
unfolding AreBytes
decode_ends_example = decode_ends flat_bus (0xC3 ∷ 0x00 ∷ []) (omega arith, (omega arith, tt))

-- 58 + 67 + 1 is 126, and 12 - 67 is 45 with a hundred borrowed.
add_decimal_example :
    let r = adjusted (math_op 0x88 0x58 0x67 true) in
    (r.value ≡ bcd (126 % 100)) × (r.c ≡ ltb 99 126)
add_decimal_example =
    add_decimal 5 8 6 7 true (omega arith) (omega arith) (omega arith) (omega arith)

subtract_decimal_example :
    let r = adjusted (math_op 0x98 0x12 0x67 false) in
    (r.value ≡ bcd ((112 - 67) % 100)) × (r.c ≡ ltb 12 67)
subtract_decimal_example =
    subtract_decimal 1 2 6 7 false (omega arith) (omega arith) (omega arith) (omega arith)

call_returns_example :
    (u16 ((return_step flat_bus (call_step flat_bus 0x1234 3 start)).pc + 1) ≡ u16 0xC003)
    × ((return_step flat_bus (call_step flat_bus 0x1234 3 start)).sp ≡ 0xDFFE)
call_returns_example =
    call_returns flat_bus 0x1234 3 start (call_step flat_bus 0x1234 3 start) flat_bus-KeepsPair
      (omega arith) refl refl

interrupt_entered_example :
    let s = record start { mem = interrupted } in
    let p = pending_interrupts flat_bus s in
    let r = service_interrupt_if_pending flat_bus s in
    (r.0 ≡ true)
    × Serves flat_bus s (r.1) (serviced_bit p)
    × (test_bit (serviced_bit p) p ≡ true)
    × ((j : ℕ) → j < serviced_bit p → test_bit j p ≡ false)
unfolding pending_interrupts
interrupt_entered_example =
    interrupt_entered flat_bus (record start { mem = interrupted }) refl
      (λ e. absurd (omega (arith, e)))
