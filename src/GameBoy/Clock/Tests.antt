-- ===== src/GameBoy/Clock/Tests.antt =====
-- The hardware's cycles on a concrete state.
use proto_time.Base.{ℕ, ◌/◌, true, false, [], ◌≡◌, refl, arith}
use proto_time.Base.Bits.{test_bit}
use proto_time.GameBoy.Clock.{Clock, timer_bit_for_tac, cycles_from}
use proto_time.GameBoy.Clock.Timer.{timer_counts, tima_next, tima_after, counts_in, timer_period}
use proto_time.GameBoy.Clock.Lcd.{lcd_position, vblank_is_requested}

-- The timer at its fastest, about to count past its end; the LCD on, a few dots before line 144.
abbrev running : Clock ℕ
running = record {
  divider_counter = 65530;
  divider_reset_events = [];
  div = 255;
  tima = 254;
  tma = 7;
  tac = 5;
  sb = 0;
  sc = 0;
  serial_transfer_active = false;
  serial_cycle_progress = 0;
  interrupt_flags = 0;
  lcdc = 0x91;
  stat = 0x80;
  ly = 143;
  lyc = 0;
  ppu_dot_counter = 65660;
  lcd_enabled_last_tick = true;
  stat_interrupt_latched = false;
  dma_active = false;
  dma_source_base = 0;
  dma_cycle_progress = 0;
  store = 0;
}

abbrev no_read : ℕ → ℕ → ℕ
no_read a u = 0

abbrev no_load : ℕ → ℕ → ℕ → ℕ
no_load a x u = u

-- 40 cycles pass three multiples of 16: TIMA goes to 255, is loaded with 7, and goes to 8.
timer_counts_example :
    let d = cycles_from no_read no_load 0 40 running in
    (d.divider_counter ≡ 34) × (d.tima ≡ tima_after (counts_in (timer_period 5) 65530 40) 7 254)
timer_counts_example = timer_counts no_read no_load 40 0 running refl refl (omega arith)

tima_at_the_end : tima_after (counts_in (timer_period 5) 65530 40) 7 254 ≡ 8
unfolding tima_after tima_next counts_in timer_period timer_bit_for_tac
tima_at_the_end = refl

lcd_position_example :
    let d = cycles_from no_read no_load 0 12 running in
    (d.ppu_dot_counter ≡ 65672) × (d.ly ≡ d.ppu_dot_counter / 456)
lcd_position_example = lcd_position no_read no_load 12 0 running refl refl (omega arith) refl

vblank_is_requested_example :
    test_bit 0 (cycles_from no_read no_load 0 12 running).interrupt_flags ≡ true
vblank_is_requested_example =
    vblank_is_requested no_read no_load 12 0 running refl refl (omega arith) (omega arith)
