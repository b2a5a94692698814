-- ===== src/GameBoy/Ports.antt =====
-- cores/gameboy/gameboy.cpp: the accesses that the processor answers itself before its own store sees
-- them, and the joypad. `buildMemoryStore` installs the two handlers in that store; a machine that
-- attaches another store in its place does not call them. The registers of the clock and of the sound
-- unit are the fields of their states.
pub mod Guard
pub mod Joypad
mod Tests
use proto_time.Base.{
  ℕ, ◌+◌, ◌-◌, ◌*◌, ◌/◌, ◌%◌, Bool, true, false, not, ◌&&◌, ◌||◌, List, [], ◌∷◌, ltb, leb, ◌==◌,
  if◌then◌else◌, between, Option, some, none, length, ◌++◌, map,
}
use proto_time.Base.Bits.{low_bits, test_bit}
use Prim.Native.Nat.{bit_and, bit_or}
use proto_time.GameBoy.Clock.{
  DividerResetEvent, Clock, normalize_access_address, with_coincidence, request, divider_reset,
}
use proto_time.GameBoy.Apu.State.{Sound}
use proto_time.GameBoy.Apu.Write.{handle_apu_register_write}

pub record Ports (S : Type 0) : Type 0 where
  pub clock : Clock S
  pub sound : Sound
  pub joyp : ℕ
  pub joyp_select : ℕ
  pub joypad_pressed : ℕ
  pub dma_register : ℕ
  pub ie : ℕ
  pub stop_flag : Bool
  pub executing : Bool
  pub cycle_end_offset : ℕ

unfoldable pub is_hram_address : ℕ → Bool
is_hram_address address = leb 0xFF80 address && leb address 0xFFFE

-- `low & ~x` for a nibble.
abbrev pub without : ℕ → ℕ → ℕ
without x low = bit_and low (15 - low_bits 4 x)

-- `value.size()` bytes of 0xFF.
abbrev pub open_bus : List ℕ → List ℕ
open_bus value = map (λ b. 0xFF) value

-- A register's byte, for a read of one byte.
abbrev pub single : Option ℕ → Option (List ℕ)
single (some v) = some (v ∷ [])
single none = none

module _ {S : Type 0} where
  abbrev pub with_clock : Ports S → Clock S → Ports S
  with_clock p c = record p { clock = c }

  unfoldable pub joypad_low_nibble : Ports S → ℕ
  joypad_low_nibble p =
      let directions = if test_bit 4 p.joyp_select then 15 else without p.joypad_pressed 15 in
      if test_bit 5 p.joyp_select then directions else without (p.joypad_pressed / 16) directions

  -- The end of either change to the joypad: the register, and the request for a line that fell.
  unfoldable pub joypad_changed : ℕ → Ports S → Ports S
  joypad_changed old_low p =
      let new_low = joypad_low_nibble p in
      let shown = record p { joyp = bit_or (bit_or 0xC0 p.joyp_select) new_low } in
      if without new_low old_low == 0 then shown else with_clock shown (request 4 p.clock)

  unfoldable pub set_joypad_state : ℕ → Ports S → Ports S
  set_joypad_state pressed p =
      let newly = bit_and pressed (255 - low_bits 8 p.joypad_pressed) in
      joypad_changed (joypad_low_nibble p) (record p {
        joypad_pressed = pressed;
        stop_flag = if newly == 0 then p.stop_flag else false;
      })

  unfoldable pub lcd_enabled : Clock S → Bool
  lcd_enabled c = test_bit 7 c.lcdc

  unfoldable pub current_ppu_mode : Clock S → ℕ
  current_ppu_mode c =
      let dot = c.ppu_dot_counter % 456 in
      if not (lcd_enabled c)
      then 0
      else if leb 144 c.ly
      then 1
      else if ltb dot 80
      then 2
      else if ltb dot 252
      then 3
      else 0

  -- Inside an instruction the reset waits for its cycle; there is room for 64 of them.
  unfoldable pub reset_divider : Ports S → Ports S
  reset_divider p =
      let c = p.clock in
      let event : DividerResetEvent = record {
        cycle_offset = p.cycle_end_offset;
        event_tac = c.tac;
      } in
      let waiting : Clock S = record c {
        divider_reset_events = c.divider_reset_events ++ (event ∷ []);
      } in
      let reset : Clock S =
        if p.executing && ltb (length c.divider_reset_events) 64
        then waiting
        else divider_reset event c in
      with_clock p (record reset { div = 0 })

  unfoldable pub cached_register : ℕ → Ports S → Option ℕ
  cached_register address p =
      if address == 0xFF01
      then some p.clock.sb
      else if address == 0xFF02
      then some p.clock.sc
      else if address == 0xFF04
      then some p.clock.div
      else if address == 0xFF05
      then some p.clock.tima
      else if address == 0xFF06
      then some p.clock.tma
      else if address == 0xFF07
      then some p.clock.tac
      else if address == 0xFF0F
      then some p.clock.interrupt_flags
      else if address == 0xFF40
      then some p.clock.lcdc
      else if address == 0xFF41
      then some p.clock.stat
      else if address == 0xFF44
      then some p.clock.ly
      else if address == 0xFF45
      then some p.clock.lyc
      else if address == 0xFF46
      then some p.dma_register
      else if address == 0xFFFF
      then some p.ie
      else none

  -- A byte for one of the registers that are not answered before.
  unfoldable pub write_cached_register : ℕ → ℕ → Ports S → Option (Ports S)
  write_cached_register address value p =
      let c = p.clock in
      if address == 0xFF01
      then some (with_clock p (record c { sb = value }))
      else if address == 0xFF05
      then some (with_clock p (record c { tima = value }))
      else if address == 0xFF06
      then some (with_clock p (record c { tma = value }))
      else if address == 0xFF07
      then some (with_clock p (record c { tac = value }))
      else if address == 0xFF0F
      then some (with_clock p (record c { interrupt_flags = value }))
      else if address == 0xFF40
      then some (with_clock p (record c { lcdc = value }))
      else if address == 0xFF45
      then some (with_clock p (record c { lyc = value }))
      else if address == 0xFFFF
      then some (record p { ie = value })
      else none

  unfoldable pub write_joyp : ℕ → Ports S → Ports S
  write_joyp value p =
      joypad_changed (joypad_low_nibble p) (record p { joyp_select = bit_and value 0x30 })

  unfoldable pub write_sc : ℕ → Ports S → Ports S
  write_sc value p = with_clock p (record p.clock {
    sc = value;
    serial_transfer_active = test_bit 7 value;
    serial_cycle_progress = 0;
  })

  unfoldable pub write_stat : ℕ → Ports S → Ports S
  write_stat value p = with_clock p (record p.clock {
    stat = bit_or (bit_or 0x80 (bit_and value 0x78)) (low_bits 3 p.clock.stat);
  })

  unfoldable pub write_ly : Ports S → Ports S
  write_ly p =
      let c = p.clock in
      let mode = if lcd_enabled c then 2 else 0 in
      with_clock p (record c {
        ppu_dot_counter = 0;
        ly = 0;
        stat = with_coincidence (c.lyc == 0) (bit_or (bit_or (bit_and c.stat 0x78) mode) 0x80);
        stat_interrupt_latched = false;
      })

  unfoldable pub write_dma : ℕ → Ports S → Ports S
  write_dma value p =
      record (with_clock p (record p.clock {
        dma_active = true;
        dma_source_base = value * 256;
        dma_cycle_progress = 0;
      })) { dma_register = value }

  -- A single byte for a register.
  unfoldable pub write_port : ℕ → ℕ → Ports S → Option (Ports S)
  write_port address value p =
      if address == 0xFF00
      then some (write_joyp value p)
      else if address == 0xFF02
      then some (write_sc value p)
      else if address == 0xFF04
      then some (reset_divider p)
      else if address == 0xFF41
      then some (write_stat value p)
      else if address == 0xFF44
      then some (write_ly p)
      else if address == 0xFF46
      then some (write_dma value p)
      else if between 0xFF10 0xFF27 address || between 0xFF30 0xFF40 address
      then some (record p { sound = handle_apu_register_write address value p.sound })
      else write_cached_register address value p

  unfoldable pub dma_blocks_read : ℕ → Ports S → Bool
  dma_blocks_read address p = p.clock.dma_active && not (is_hram_address address)

  -- Video RAM while pixels are drawn, OAM while it is searched too.
  unfoldable pub lcd_blocks_read : ℕ → Ports S → Bool
  lcd_blocks_read address p =
      let mode = current_ppu_mode p.clock in
      lcd_enabled p.clock
      && ((between 0x8000 0xA000 address && (mode == 3))
          || (between 0xFE00 0xFEA0 address && ((mode == 2) || (mode == 3))))

  unfoldable pub cached_read : ℕ → List ℕ → Ports S → Option (List ℕ)
  cached_read address (b ∷ []) p = single (cached_register address p)
  cached_read address value p = none

  unfoldable pub read_memory : ℕ → List ℕ → Ports S → Option (List ℕ)
  read_memory address value p =
      if between 0xFEA0 0xFF00 address || dma_blocks_read address p
      then some (open_bus value)
      else elim (cached_read address value p) [
        | some r ↦ some r
        | none ↦ if lcd_blocks_read address p then some (open_bus value) else none
      ]

  unfoldable pub read_port : ℕ → List ℕ → Ports S → Option (List ℕ)
  read_port address [] p = read_memory address [] p
  read_port address (b ∷ bytes) p =
      if address == 0xFF00
      then some (bit_or (bit_or 0xC0 p.joyp_select) (joypad_low_nibble p) ∷ bytes)
      else read_memory address (b ∷ bytes) p

  -- What the buffer holds after a read that is answered here.
  unfoldable pub handle_memory_read : ℕ → List ℕ → Ports S → Option (List ℕ)
  handle_memory_read address value p = read_port (normalize_access_address address) value p

  -- The tests that the write makes for itself.
  unfoldable pub dma_blocks_write : ℕ → Ports S → Bool
  dma_blocks_write address p = p.clock.dma_active && not (is_hram_address address)

  unfoldable pub lcd_blocks_write : ℕ → Ports S → Bool
  lcd_blocks_write address p =
      let mode = current_ppu_mode p.clock in
      lcd_enabled p.clock
      && ((between 0x8000 0xA000 address && (mode == 3))
          || (between 0xFE00 0xFEA0 address && ((mode == 2) || (mode == 3))))

  -- A write that is dropped, or is left to the memory map.
  unfoldable pub write_memory : ℕ → ℕ → Ports S → Option (Ports S)
  write_memory address size p =
      if (leb 0xFEA0 address && leb (address - 0xFEA0 + size) 0x60)
        || dma_blocks_write address p
        || lcd_blocks_write address p
      then some p
      else none

  unfoldable pub written_port : ℕ → List ℕ → Ports S → Option (Ports S)
  written_port address (v ∷ []) p = elim (write_port address v p) [
    | some q ↦ some q
    | none ↦ write_memory address 1 p
  ]
  written_port address value p = write_memory address (length value) p

  unfoldable pub handle_memory_write : ℕ → List ℕ → Ports S → Option (Ports S)
  handle_memory_write address value p = written_port (normalize_access_address address) value p
