-- ===== src/GameBoy/Clock.antt =====
-- cores/gameboy/gameboy.cpp: the hardware that `retireInstruction` runs for each cycle of an instruction.
-- The copies of the registers that the code keeps while it loops are the fields of the state, so
-- the flags that say which to write back have no counterpart: a register that is not written back
-- has not changed. The sound unit's step, which has its own state (GameBoy/Apu), and the DMA controller's event at the end of a copy are left out.
pub mod Frame
pub mod Timer
pub mod Lcd
mod Tests
use proto_time.Base.{
  ℕ, zero, suc, ◌+◌, ◌-◌, ◌*◌, ◌/◌, ◌%◌, ◌^◌, Bool, true, false, not, ◌&&◌, ◌||◌, List, [], ◌∷◌,
  ltb, leb, ◌==◌, if◌then◌else◌, min,
}
use proto_time.Base.Bits.{low_bits, test_bit, shr}
use Prim.Native.Nat.{bit_and, bit_or}

pub record DividerResetEvent : Type 0 where
  pub cycle_offset : ℕ
  pub event_tac : ℕ

pub record Clock (S : Type 0) : Type 0 where
  pub divider_counter : ℕ
  pub divider_reset_events : List DividerResetEvent
  pub div : ℕ
  pub tima : ℕ
  pub tma : ℕ
  pub tac : ℕ
  pub sb : ℕ
  pub sc : ℕ
  pub serial_transfer_active : Bool
  pub serial_cycle_progress : ℕ
  pub interrupt_flags : ℕ
  pub lcdc : ℕ
  pub stat : ℕ
  pub ly : ℕ
  pub lyc : ℕ
  pub ppu_dot_counter : ℕ
  pub lcd_enabled_last_tick : Bool
  pub stat_interrupt_latched : Bool
  pub dma_active : Bool
  pub dma_source_base : ℕ
  pub dma_cycle_progress : ℕ
  pub store : S

-- The number of the divider bit that the timer watches.
unfoldable pub timer_bit_for_tac : ℕ → ℕ
timer_bit_for_tac tac =
    let k = low_bits 2 tac in
    if k == 0 then 9 else if k == 1 then 3 else if k == 2 then 5 else if k == 3 then 7 else 9

unfoldable pub normalize_access_address : ℕ → ℕ
normalize_access_address address =
    if leb 0xE000 address && leb address 0xFDFF then address - 0x2000 else address

unfoldable pub timer_signal : ℕ → ℕ → Bool
timer_signal tac divider = test_bit 2 tac && test_bit (timer_bit_for_tac tac) divider

-- `stat` with the coincidence bit set or cleared.
unfoldable pub with_coincidence : Bool → ℕ → ℕ
with_coincidence coincidence stat = if coincidence then bit_or stat 0x04 else bit_and stat 0xFB

unfoldable pub lcd_mode : ℕ → ℕ → ℕ
lcd_mode line dot =
    if leb 144 line then 1 else if ltb dot 80 then 2 else if ltb dot 252 then 3 else 0

unfoldable pub stat_interrupt_requested : Bool → ℕ → ℕ → Bool
stat_interrupt_requested coincidence mode stat =
    (coincidence && test_bit 6 stat)
    || ((mode == 0) && test_bit 3 stat)
    || ((mode == 1) && test_bit 4 stat)
    || ((mode == 2) && test_bit 5 stat)

-- What is left of the reset events counts from the end of the instruction.
unfoldable pub rebase_events : ℕ → List DividerResetEvent → List DividerResetEvent
rebase_events cycles [] = []
rebase_events cycles (e ∷ es) =
    record e { cycle_offset = e.cycle_offset - min e.cycle_offset cycles } ∷ rebase_events cycles es

module _ {S : Type 0} where
  -- `(interruptFlags | mask) & kInterruptMask` for the mask of one bit.
  unfoldable pub request : ℕ → Clock S → Clock S
  request bit c = record c { interrupt_flags = low_bits 5 (bit_or c.interrupt_flags (2 ^ bit)) }

  -- TIMA counts, and at its end is loaded anew with a request.
  unfoldable pub count_tima : Clock S → Clock S
  count_tima c =
      if c.tima == 0xFF
      then request 2 (record c { tima = c.tma })
      else record c { tima = low_bits 8 (c.tima + 1) }

  unfoldable pub serial_cycle : Clock S → Clock S
  serial_cycle c =
      if c.serial_transfer_active
      then (let progress = c.serial_cycle_progress + 1 in
          if leb 4096 progress
          then request 3 (record c {
            serial_transfer_active = false;
            serial_cycle_progress = 0;
            sb = 0xFF;
            sc = bit_and c.sc 0x7F;
          })
          else record c { serial_cycle_progress = progress })
      else c

  unfoldable pub timer_cycle : Clock S → Clock S
  timer_cycle c =
      let next = low_bits 16 (c.divider_counter + 1) in
      let d = record c { divider_counter = next } in
      if timer_signal c.tac c.divider_counter && not (timer_signal c.tac next)
      then count_tima d
      else d

  unfoldable pub divider_reset : DividerResetEvent → Clock S → Clock S
  divider_reset e c =
      let d = record c { divider_counter = 0 } in
      if timer_signal e.event_tac c.divider_counter then count_tima d else d

  -- The resets that fall due by the end of a cycle, and the events that are left.
  unfoldable pub divider_resets : ℕ → List DividerResetEvent → Clock S → Clock S
  divider_resets now [] c = record c { divider_reset_events = [] }
  divider_resets now (e ∷ es) c =
      let later = divider_resets now es (divider_reset e c) in
      if leb e.cycle_offset now then later else record c { divider_reset_events = e ∷ es }

  unfoldable pub lcd_off_cycle : Clock S → Clock S
  lcd_off_cycle c = record c {
    ppu_dot_counter = 0;
    lcd_enabled_last_tick = false;
    stat_interrupt_latched = false;
    ly = 0;
    stat = with_coincidence (c.lyc == 0) (bit_and c.stat 0xF8);
  }

  unfoldable pub lcd_turned_on : Clock S → Clock S
  lcd_turned_on c = if c.lcd_enabled_last_tick then c else record c {
    ppu_dot_counter = 0;
    ly = 0;
    lcd_enabled_last_tick = true;
    stat_interrupt_latched = false;
  }

  unfoldable pub stat_interrupt : Bool → Clock S → Clock S
  stat_interrupt requested c =
      let d = record c { stat_interrupt_latched = requested } in
      if requested && not c.stat_interrupt_latched then request 1 d else d

  unfoldable pub vblank_interrupt : ℕ → Clock S → Clock S
  vblank_interrupt previous c = if not (previous == 144) && (c.ly == 144) then request 0 c else c

  unfoldable pub lcd_on_cycle : Clock S → Clock S
  lcd_on_cycle c =
      let previous = low_bits 8 (c.ppu_dot_counter / 456) in
      let dots = (c.ppu_dot_counter + 1) % 70224 in
      let line = low_bits 8 (dots / 456) in
      let mode = lcd_mode line (dots % 456) in
      let coincidence = line == c.lyc in
      let stat = with_coincidence coincidence (bit_or (bit_and c.stat 0xF8) mode) in
      vblank_interrupt previous (
        stat_interrupt (stat_interrupt_requested coincidence mode stat)
          (record c { ppu_dot_counter = dots; ly = line; stat = stat }))

  unfoldable pub lcd_cycle : Clock S → Clock S
  lcd_cycle c = if test_bit 7 c.lcdc then lcd_on_cycle (lcd_turned_on c) else lcd_off_cycle c

module _ {S : Type 0} (read_store : ℕ → S → ℕ) (load_store : ℕ → ℕ → S → S) where
  -- The byte that the DMA copies now, from the memory's backing store.
  unfoldable pub dma_copy : ℕ → Clock S → Clock S
  dma_copy index c =
      let source = normalize_access_address (low_bits 16 (c.dma_source_base + index)) in
      let byte =
        if leb 0xFEA0 source && leb source 0xFEFF then 0xFF else read_store source c.store in
      record c { store = load_store (0xFE00 + index) byte c.store }

  unfoldable pub dma_cycle : Clock S → Clock S
  dma_cycle c =
      if c.dma_active
      then (let index = c.dma_cycle_progress / 4 in
          let d =
            if (c.dma_cycle_progress % 4 == 0) && ltb index 0xA0 then dma_copy index c else c in
          let progress = c.dma_cycle_progress + 1 in
          if leb 640 progress
          then record d { dma_active = false; dma_cycle_progress = 0 }
          else record d { dma_cycle_progress = progress })
      else c

  -- One turn of the loop of `retireInstruction`, whose end is `now` cycles into it.
  unfoldable pub cycle : ℕ → Clock S → Clock S
  cycle now c =
      let t = timer_cycle (serial_cycle (dma_cycle c)) in
      lcd_cycle (divider_resets now t.divider_reset_events t)

  unfoldable pub cycles_from : ℕ → ℕ → Clock S → Clock S
  cycles_from now zero c = c
  cycles_from now (suc n) c = cycles_from (suc now) n (cycle (suc now) c)

  -- `retireInstruction` but for what it does to the interrupt enable.
  unfoldable pub retire : ℕ → Clock S → Clock S
  retire zero c = c
  retire (suc n) c =
      let d = cycles_from 0 (suc n) c in
      record d {
        div = low_bits 8 (shr 8 d.divider_counter);
        divider_reset_events = rebase_events (suc n) d.divider_reset_events;
      }
