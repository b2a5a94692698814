-- ===== src/GameBoy/Cpu/Registers.antt =====
-- cores/gameboy/gameboy.cpp, cores/gameboy/decode/gb_opcode_decode.hpp and
-- memory/templ/reg_uint16.impl.hpp: the register file of the LR35902, the state the instructions
-- change, the accesses to memory they make, and the decoders of an opcode's register fields.
use proto_time.Base.{
  ℕ, ◌+◌, ◌-◌, Bool, true, false, not, List, [], ◌∷◌, get_or, ltb, ◌==◌, if◌then◌else◌,
}
use proto_time.Base.Bits.{low_bits, test_bit, join, shr}

-- The pool of memory that the instructions run against: what a bus access reads, what it does to
-- the memory and the hardware behind it, and how the hardware goes on for some cycles. A write is
-- also told at which cycle of the instruction it happens, which the divider reset asks for. The
-- last four are the hardware's registers that the processor itself looks at.
pub record Bus (M : Type 0) : Type 0 where
  pub bus_read : ℕ → ℕ → M → List ℕ
  pub bus_write : ℕ → ℕ → List ℕ → M → M
  pub run_hardware : ℕ → M → M
  pub dma_active : M → Bool
  pub interrupt_enable : M → ℕ
  pub interrupt_flags : M → ℕ
  pub set_interrupt_flags : ℕ → M → M

pub record Cpu (M : Type 0) : Type 0 where
  pub af : ℕ
  pub bc : ℕ
  pub de : ℕ
  pub hl : ℕ
  pub sp : ℕ
  pub pc : ℕ
  pub ime : Bool
  pub ime_enable_pending : Bool
  pub ime_enable_delay : ℕ
  pub halt_flag : Bool
  pub stop_flag : Bool
  pub illegal_opcode_lockup : Bool
  pub halt_bug_active : Bool
  pub halt_bug_pc_adjust_pending : Bool
  pub pending_cycle_charge : ℕ
  pub instruction_cycle_end_offset : ℕ
  pub instruction_execution_active : Bool
  pub mem : M

-- Conversions to `uint8_t` and `uint16_t`.
abbrev pub u8 : ℕ → ℕ
u8 x = low_bits 8 x

abbrev pub u16 : ℕ → ℕ
u16 x = low_bits 16 x

-- `base + offset` for an `int8_t` offset that was fetched as the byte `imm`.
unfoldable pub add_offset : ℕ → ℕ → ℕ
add_offset base imm = if ltb imm 128 then u16 (base + imm) else u16 (base + 65536 + imm - 256)

unfoldable pub hi_byte : ℕ → ℕ
hi_byte r = low_bits 8 (shr 8 r)

unfoldable pub lo_byte : ℕ → ℕ
lo_byte r = low_bits 8 r

unfoldable pub set_hi : ℕ → ℕ → ℕ
set_hi r v = join 8 v (low_bits 8 r)

unfoldable pub set_lo : ℕ → ℕ → ℕ
set_lo r v = join 8 (low_bits 8 (shr 8 r)) v

pub data R8 : Type 0 where
  r8_b r8_c r8_d r8_e r8_h r8_l r8_hl_indirect r8_a : R8

pub data R16 : Type 0 where
  r16_bc r16_de r16_hl r16_sp : R16

pub data R16Stack : Type 0 where
  stack_bc stack_de stack_hl stack_af : R16Stack

pub data Condition : Type 0 where
  cond_nz cond_z cond_nc cond_c : Condition

unfoldable pub decode_r8 : ℕ → R8
decode_r8 code =
    let k = low_bits 3 code in
    if k == 0
    then r8_b
    else if k == 1
    then r8_c
    else if k == 2
    then r8_d
    else if k == 3
    then r8_e
    else if k == 4
    then r8_h
    else if k == 5
    then r8_l
    else if k == 6
    then r8_hl_indirect
    else r8_a

unfoldable pub decode_r8_dest : ℕ → R8
decode_r8_dest opcode = decode_r8 (low_bits 3 (shr 3 opcode))

unfoldable pub decode_r8_src : ℕ → R8
decode_r8_src opcode = decode_r8 opcode

unfoldable pub decode_r16 : ℕ → R16
decode_r16 opcode =
    let k = low_bits 2 (shr 4 opcode) in
    if k == 0 then r16_bc else if k == 1 then r16_de else if k == 2 then r16_hl else r16_sp

unfoldable pub decode_r16_stack : ℕ → R16Stack
decode_r16_stack opcode =
    let k = low_bits 2 (shr 4 opcode) in
    if k == 0 then stack_bc else if k == 1 then stack_de else if k == 2 then stack_hl else stack_af

unfoldable pub decode_condition : ℕ → Condition
decode_condition opcode =
    let k = low_bits 2 (shr 3 opcode) in
    if k == 0 then cond_nz else if k == 1 then cond_z else if k == 2 then cond_nc else cond_c

-- The four flags as the low byte of AF; their masks are disjoint.
unfoldable pub flag_byte : Bool → Bool → Bool → Bool → ℕ
flag_byte z n h c =
    (if z then 0x80 else 0)
    + (if n then 0x40 else 0)
    + (if h then 0x20 else 0)
    + (if c then 0x10 else 0)

module _ {M : Type 0} where
  unfoldable pub flags : Cpu M → ℕ
  flags s = lo_byte s.af

  unfoldable pub accumulator : Cpu M → ℕ
  accumulator s = hi_byte s.af

  unfoldable pub set_accumulator : ℕ → Cpu M → Cpu M
  set_accumulator v s = record s { af = set_hi s.af v }

  unfoldable pub set_flags : Bool → Bool → Bool → Bool → Cpu M → Cpu M
  set_flags z n h c s = record s { af = set_lo s.af (flag_byte z n h c) }

  unfoldable pub zero_flag : Cpu M → Bool
  zero_flag s = test_bit 7 (flags s)

  unfoldable pub carry_flag : Cpu M → Bool
  carry_flag s = test_bit 4 (flags s)

  unfoldable pub condition_holds : Condition → Cpu M → Bool
  condition_holds cond_nz s = not (zero_flag s)
  condition_holds cond_z s = zero_flag s
  condition_holds cond_nc s = not (carry_flag s)
  condition_holds cond_c s = carry_flag s

  unfoldable pub read_r16 : R16 → Cpu M → ℕ
  read_r16 r16_bc s = s.bc
  read_r16 r16_de s = s.de
  read_r16 r16_hl s = s.hl
  read_r16 r16_sp s = s.sp

  unfoldable pub write_r16 : R16 → ℕ → Cpu M → Cpu M
  write_r16 r16_bc v s = record s { bc = v }
  write_r16 r16_de v s = record s { de = v }
  write_r16 r16_hl v s = record s { hl = v }
  write_r16 r16_sp v s = record s { sp = v }

  unfoldable pub read_stack_r16 : R16Stack → Cpu M → ℕ
  read_stack_r16 stack_bc s = s.bc
  read_stack_r16 stack_de s = s.de
  read_stack_r16 stack_hl s = s.hl
  read_stack_r16 stack_af s = s.af

  unfoldable pub write_stack_r16 : R16Stack → ℕ → Cpu M → Cpu M
  write_stack_r16 stack_bc v s = record s { bc = v }
  write_stack_r16 stack_de v s = record s { de = v }
  write_stack_r16 stack_hl v s = record s { hl = v }
  write_stack_r16 stack_af v s = record s { af = v }

  unfoldable pub update_control_flow_pc : ℕ → ℕ → Cpu M → Cpu M
  update_control_flow_pc target instruction_length s = record s {
    pc = u16 (target + 65536 - instruction_length);
  }

  unfoldable pub set_ime : Bool → Cpu M → Cpu M
  set_ime enabled s = record s { ime = enabled; ime_enable_pending = false; ime_enable_delay = 0 }

  unfoldable pub schedule_ime_enable : Cpu M → Cpu M
  schedule_ime_enable s = record s { ime_enable_pending = true; ime_enable_delay = 1 }

  unfoldable pub set_stop_flag : Bool → Cpu M → Cpu M
  set_stop_flag true s = record s { stop_flag = true }
  set_stop_flag false s = record s { stop_flag = false; illegal_opcode_lockup = false }

  unfoldable pub set_halt_flag : Bool → Cpu M → Cpu M
  set_halt_flag f s = record s { halt_flag = f }

  unfoldable pub lock_up_on_invalid_opcode : Cpu M → Cpu M
  lock_up_on_invalid_opcode s = record s { illegal_opcode_lockup = true }

  unfoldable pub popped : Cpu M → Cpu M
  popped s = record s { sp = u16 (s.sp + 2) }

module _ {M : Type 0} (bus : Bus M) where
  unfoldable pub read8 : ℕ → Cpu M → ℕ
  read8 address s = get_or (bus.bus_read address 1 s.mem) 0 0

  unfoldable pub read16 : ℕ → Cpu M → ℕ
  read16 address s =
      let bytes = bus.bus_read address 2 s.mem in join 8 (get_or bytes 1 0) (get_or bytes 0 0)

  unfoldable pub write8 : ℕ → ℕ → Cpu M → Cpu M
  write8 address v s = record s {
    mem = bus.bus_write s.instruction_cycle_end_offset address (v ∷ []) s.mem;
  }

  unfoldable pub write16 : ℕ → ℕ → Cpu M → Cpu M
  write16 address v s = record s {
    mem =
        bus.bus_write s.instruction_cycle_end_offset address
          (low_bits 8 v ∷ low_bits 8 (shr 8 v) ∷ []) s.mem;
  }

  unfoldable pub read_r8 : R8 → Cpu M → ℕ
  read_r8 r8_b s = hi_byte s.bc
  read_r8 r8_c s = lo_byte s.bc
  read_r8 r8_d s = hi_byte s.de
  read_r8 r8_e s = lo_byte s.de
  read_r8 r8_h s = hi_byte s.hl
  read_r8 r8_l s = lo_byte s.hl
  read_r8 r8_hl_indirect s = read8 s.hl s
  read_r8 r8_a s = hi_byte s.af

  unfoldable pub write_r8 : R8 → ℕ → Cpu M → Cpu M
  write_r8 r8_b v s = record s { bc = set_hi s.bc v }
  write_r8 r8_c v s = record s { bc = set_lo s.bc v }
  write_r8 r8_d v s = record s { de = set_hi s.de v }
  write_r8 r8_e v s = record s { de = set_lo s.de v }
  write_r8 r8_h v s = record s { hl = set_hi s.hl v }
  write_r8 r8_l v s = record s { hl = set_lo s.hl v }
  write_r8 r8_hl_indirect v s = write8 s.hl v s
  write_r8 r8_a v s = record s { af = set_hi s.af v }

  -- `pop16`: the popped value; `popped` is the state that it leaves.
  unfoldable pub pop16 : Cpu M → ℕ
  pop16 s = read16 s.sp s

  unfoldable pub push16 : ℕ → Cpu M → Cpu M
  push16 v s = write16 (u16 (s.sp + 65534)) v (record s { sp = u16 (s.sp + 65534) })
