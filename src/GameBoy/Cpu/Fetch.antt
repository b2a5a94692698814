-- ===== src/GameBoy/Cpu/Fetch.antt =====
-- cores/gameboy/gameboy.cpp: `serviceInterruptIfPending` and `fetchInto`, with which an instruction
-- begins.
use proto_time.Base.{
  ℕ, zero, suc, ◌+◌, ◌-◌, ◌^◌, Bool, true, false, not, ◌&&◌, ◌||◌, List, [], ◌∷◌, Option, none,
  some, ltb, leb, ◌==◌, if◌then◌else◌,
}
use proto_time.Base.Bits.{low_bits, test_bit, shr}
use Prim.Native.Nat.{bit_and}
use proto_time.GameBoy.Cpu.Registers.{Bus, Cpu, u16, read8}
use proto_time.GameBoy.Cpu.Dispatch.{Step, table_step, opcode_length}

-- The requests with their masks' bit numbers: VBlank, LCD status, timer, serial, joypad.
unfoldable pub serviced_bit : ℕ → ℕ
serviced_bit pending =
    if test_bit 0 pending
    then 0
    else if test_bit 1 pending
    then 1
    else if test_bit 2 pending
    then 2
    else if test_bit 3 pending
    then 3
    else 4

unfoldable pub interrupt_vector : ℕ → ℕ
interrupt_vector pending =
    if test_bit 0 pending
    then 0x0040
    else if test_bit 1 pending
    then 0x0048
    else if test_bit 2 pending
    then 0x0050
    else if test_bit 3 pending
    then 0x0058
    else 0x0060

unfoldable pub is_hram_address : ℕ → Bool
is_hram_address address = leb 0xFF80 address && leb address 0xFFFE

-- The block of bytes that a fetch leaves, and where it was fetched.
pub record FetchBlock : Type 0 where
  pub base_address : ℕ
  pub code : List ℕ

pub record Fetched (M : Type 0) : Type 0 where
  pub cpu : Cpu M
  pub block : FetchBlock

module _ {M : Type 0} (bus : Bus M) where
  unfoldable pub pending_interrupts : Cpu M → ℕ
  pending_interrupts s =
      low_bits 5 (bit_and (bus.interrupt_enable s.mem) (bus.interrupt_flags s.mem))

  -- The return address is pushed and the vector entered.
  unfoldable pub enter_interrupt : ℕ → Cpu M → Cpu M
  enter_interrupt pending s =
      let requested = bus.interrupt_flags s.mem in
      let cleared =
        bus.set_interrupt_flags (bit_and requested (255 - 2 ^ serviced_bit pending)) s.mem in
      let sp = u16 (s.sp + 65534) in
      record s {
        ime = false;
        ime_enable_pending = false;
        ime_enable_delay = 0;
        sp = sp;
        pc = interrupt_vector pending;
        pending_cycle_charge = 20;
        mem =
            bus.bus_write s.instruction_cycle_end_offset sp
              (low_bits 8 s.pc ∷ low_bits 8 (shr 8 s.pc) ∷ []) cleared;
      }

  unfoldable pub service_interrupt_if_pending : Cpu M → Bool × Cpu M
  service_interrupt_if_pending s =
      let pending = pending_interrupts s in
      if pending == 0
      then (false, s)
      else if not s.ime
      then (false, record s { halt_flag = false })
      else (true, enter_interrupt pending (record s { halt_flag = false }))

  -- The bytes after the opcode when the HALT bug reads the opcode's address again.
  unfoldable pub halt_bug_bytes : ℕ → ℕ → ℕ → Cpu M → List ℕ
  halt_bug_bytes pc i zero s = []
  halt_bug_bytes pc i (suc n) s = read8 bus (u16 (pc + i - 1)) s ∷ halt_bug_bytes pc (suc i) n s

  -- The bytes of the instruction at `pc` whose opcode has been read: that one, or as many as its
  -- entry's length asks for.
  unfoldable pub whole_instruction : ℕ → Bool → Cpu M → ℕ → Option Step → List ℕ
  whole_instruction pc halt_bug s opcode none = opcode ∷ []
  whole_instruction pc halt_bug s opcode (some k) =
      if ltb 1 (opcode_length k)
      then (if halt_bug
          then opcode ∷ halt_bug_bytes pc 1 (opcode_length k - 1) s
          else bus.bus_read pc (opcode_length k) s.mem)
      else opcode ∷ []

  unfoldable pub stream_at : ℕ → Bool → Cpu M → List ℕ
  stream_at pc halt_bug s =
      let opcode = read8 bus pc s in whole_instruction pc halt_bug s opcode (table_step opcode)

  unfoldable pub nothing_at : ℕ → Cpu M → Fetched M
  nothing_at base s = record { cpu = s; block = record { base_address = base; code = [] } }

  -- The end of `fetchInto`, once no interrupt has been entered.
  unfoldable pub fetch_stream : ℕ → Cpu M → Fetched M
  fetch_stream pc s = record {
    cpu = record s { halt_bug_active = false; halt_bug_pc_adjust_pending = s.halt_bug_active };
    block = record { base_address = pc; code = stream_at pc s.halt_bug_active s };
  }

  unfoldable pub fetch_serviced : ℕ → Bool × Cpu M → Fetched M
  fetch_serviced pc (true, s) = nothing_at s.pc s
  fetch_serviced pc (false, s) = fetch_stream pc s

  unfoldable pub fetch_into : Cpu M → Fetched M
  fetch_into s =
      let pending = pending_interrupts s in
      if s.stop_flag || s.illegal_opcode_lockup
      then nothing_at 0 s
      else if bus.dma_active s.mem && not (is_hram_address s.pc)
      then nothing_at s.pc s
      else if s.halt_flag && (pending == 0)
      then nothing_at s.pc s
      else (let t =
            if s.halt_flag && not (pending == 0) && not s.ime
            then record s { halt_flag = false; halt_bug_active = true }
            else s in
          fetch_serviced s.pc (service_interrupt_if_pending t))
