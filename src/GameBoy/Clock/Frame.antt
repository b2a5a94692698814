-- ===== src/GameBoy/Clock/Frame.antt =====
-- What each part of a cycle leaves alone: the timer's registers, and the LCD's.
use proto_time.Base.{
  ℕ, zero, suc, ◌≤◌, ◌^◌, Bool, true, List, ◌==◌, if-keeps, ◌≡◌, refl, arith, ◌∙◌,
}
use proto_time.Base.Bits.{low_bits, test_bit, bit_or_single}
use Prim.Native.Nat.{bit_or}
use proto_time.GameBoy.Clock.{
  DividerResetEvent, Clock, request, count_tima, serial_cycle, timer_cycle, lcd_off_cycle,
  lcd_turned_on, stat_interrupt, vblank_interrupt, lcd_on_cycle, lcd_cycle, dma_copy, dma_cycle,
}

-- A request sets its bit and clears none of the five.
pub request_bits :
    (bit flags : ℕ)
    → bit ≤ 4
    → test_bit 0 flags ≡ true
    → test_bit 0 (low_bits 5 (bit_or flags (2 ^ bit))) ≡ true
request_bits zero flags b h = ground (arith, bit_or_single 0 flags)
request_bits (suc zero) flags b h = ground (arith, bit_or_single 1 flags)
request_bits (suc (suc zero)) flags b h = ground (arith, bit_or_single 2 flags)
request_bits (suc (suc (suc zero))) flags b h = ground (arith, bit_or_single 3 flags)
request_bits (suc (suc (suc (suc zero)))) flags b h = ground (arith, bit_or_single 4 flags)
request_bits (suc (suc (suc (suc (suc n))))) flags b h = absurd (omega arith)

pub request_sets_vblank : (flags : ℕ) → test_bit 0 (low_bits 5 (bit_or flags 1)) ≡ true
request_sets_vblank flags = ground (arith, bit_or_single 0 flags)

pub record TimerView : Type 0 where
  pub view_divider : ℕ
  pub view_tima : ℕ
  pub view_tma : ℕ
  pub view_tac : ℕ
  pub view_events : List DividerResetEvent

pub record LcdView : Type 0 where
  pub view_lcdc : ℕ
  pub view_lyc : ℕ
  pub view_dots : ℕ
  pub view_last_tick : Bool

module _ {S : Type 0} where
  abbrev pub timer_view : Clock S → TimerView
  timer_view c = record {
    view_divider = c.divider_counter;
    view_tima = c.tima;
    view_tma = c.tma;
    view_tac = c.tac;
    view_events = c.divider_reset_events;
  }

  abbrev pub lcd_view : Clock S → LcdView
  lcd_view c = record {
    view_lcdc = c.lcdc;
    view_lyc = c.lyc;
    view_dots = c.ppu_dot_counter;
    view_last_tick = c.lcd_enabled_last_tick;
  }

  -- A VBlank request that stands is kept.
  abbrev pub KeepsVblank : Clock S → Clock S → Type 0
  KeepsVblank c d = test_bit 0 c.interrupt_flags ≡ true → test_bit 0 d.interrupt_flags ≡ true

  request-KeepsVblank : (bit : ℕ) (c d : Clock S) → bit ≤ 4 → KeepsVblank c (request bit c)
  unfolding request
  request-KeepsVblank bit c d b = request_bits bit c.interrupt_flags b

  pub timer_view-serial_cycle : (c : Clock S) → timer_view (serial_cycle c) ≡ timer_view c
  unfolding serial_cycle request
  timer_view-serial_cycle c =
      if-keeps (λ d. timer_view d ≡ timer_view c) c.serial_transfer_active
        (if-keeps (λ d. timer_view d ≡ timer_view c) _ refl refl) refl

  pub lcd_view-serial_cycle :
      (c : Clock S) → (lcd_view (serial_cycle c) ≡ lcd_view c) × KeepsVblank c (serial_cycle c)
  unfolding serial_cycle request
  lcd_view-serial_cycle c =
      if-keeps (λ d. (lcd_view d ≡ lcd_view c) × KeepsVblank c d) c.serial_transfer_active
        (if-keeps (λ d. (lcd_view d ≡ lcd_view c) × KeepsVblank c d) _
          (refl, request_bits 3 c.interrupt_flags (omega arith)) (refl, λ h. h))
        (refl, λ h. h)

  pub lcd_view-count_tima :
      (c : Clock S) → (lcd_view (count_tima c) ≡ lcd_view c) × KeepsVblank c (count_tima c)
  unfolding count_tima request
  lcd_view-count_tima c =
      if-keeps (λ d. (lcd_view d ≡ lcd_view c) × KeepsVblank c d) (c.tima == 0xFF)
        (refl, request_bits 2 c.interrupt_flags (omega arith)) (refl, λ h. h)

  pub lcd_view-timer_cycle :
      (c : Clock S) → (lcd_view (timer_cycle c) ≡ lcd_view c) × KeepsVblank c (timer_cycle c)
  unfolding timer_cycle
  lcd_view-timer_cycle c =
      if-keeps (λ d. (lcd_view d ≡ lcd_view c) × KeepsVblank c d) _ (lcd_view-count_tima _)
        (refl, λ h. h)

  timer_view-vblank_interrupt :
      (line : ℕ) (c : Clock S) → timer_view (vblank_interrupt line c) ≡ timer_view c
  unfolding vblank_interrupt request
  timer_view-vblank_interrupt line c = if-keeps (λ d. timer_view d ≡ timer_view c) _ refl refl

  timer_view-stat_interrupt :
      (requested : Bool) (c : Clock S) → timer_view (stat_interrupt requested c) ≡ timer_view c
  unfolding stat_interrupt request
  timer_view-stat_interrupt requested c = if-keeps (λ d. timer_view d ≡ timer_view c) _ refl refl

  timer_view-lcd_turned_on : (c : Clock S) → timer_view (lcd_turned_on c) ≡ timer_view c
  unfolding lcd_turned_on
  timer_view-lcd_turned_on c = if-keeps (λ d. timer_view d ≡ timer_view c) _ refl refl

  timer_view-lcd_on_cycle : (c : Clock S) → timer_view (lcd_on_cycle c) ≡ timer_view c
  unfolding lcd_on_cycle
  timer_view-lcd_on_cycle c = timer_view-vblank_interrupt _ _ ∙ timer_view-stat_interrupt _ _

  pub timer_view-lcd_cycle : (c : Clock S) → timer_view (lcd_cycle c) ≡ timer_view c
  unfolding lcd_cycle lcd_off_cycle
  timer_view-lcd_cycle c =
      if-keeps (λ d. timer_view d ≡ timer_view c) (test_bit 7 c.lcdc)
        (timer_view-lcd_on_cycle _ ∙ timer_view-lcd_turned_on c) refl

  module _ (read_store : ℕ → S → ℕ) (load_store : ℕ → ℕ → S → S) where
    pub timer_view-dma_cycle :
        (c : Clock S) → timer_view (dma_cycle read_store load_store c) ≡ timer_view c
    unfolding dma_cycle dma_copy
    timer_view-dma_cycle c = ground arith

    pub lcd_view-dma_cycle :
        (c : Clock S)
        → (lcd_view (dma_cycle read_store load_store c) ≡ lcd_view c)
          × ((dma_cycle read_store load_store c).interrupt_flags ≡ c.interrupt_flags)
    unfolding dma_cycle dma_copy
    lcd_view-dma_cycle c = (ground arith, ground arith)
