-- ===== src/GameBoy/Ports/Tests.antt =====
-- Runs of the accesses.
use proto_time.Base.{ℕ, true, false, [], ◌∷◌, ◌≡◌, refl, ◌⊎◌, inl, arith, some, none}
use proto_time.GameBoy.Clock.{Clock, normalize_access_address, request}
use proto_time.GameBoy.Apu.State.{reset_apu}
use proto_time.GameBoy.Ports.{
  Ports, joypad_low_nibble, joypad_changed, set_joypad_state, lcd_enabled, current_ppu_mode,
  cached_register, dma_blocks_read, lcd_blocks_read, cached_read, read_memory, read_port,
  handle_memory_read,
}
use proto_time.GameBoy.Ports.Joypad.{line_is_high, high, button_requests}
use proto_time.Base.Bits.{test_bit}
use proto_time.GameBoy.Ports.Guard.{IsMemory, Guarded, Answers, reads_and_writes_kept_back}

-- The LCD is on and at the given dot of its first line.
abbrev clock_at : ℕ → Clock ℕ
clock_at dots = record {
  divider_counter = 0;
  divider_reset_events = [];
  div = 0;
  tima = 0;
  tma = 0;
  tac = 0;
  sb = 0;
  sc = 0;
  serial_transfer_active = false;
  serial_cycle_progress = 0;
  interrupt_flags = 0;
  lcdc = 0x80;
  stat = 0;
  ly = 0;
  lyc = 0;
  ppu_dot_counter = dots;
  lcd_enabled_last_tick = true;
  stat_interrupt_latched = false;
  dma_active = false;
  dma_source_base = 0;
  dma_cycle_progress = 0;
  store = 0;
}

abbrev ports_at : ℕ → Ports ℕ
ports_at dots = record {
  clock = clock_at dots;
  sound = record { apu = reset_apu true; io = λ a. 0 };
  joyp = 0xFF;
  joyp_select = 0x10;
  joypad_pressed = 0;
  dma_register = 0;
  ie = 0;
  stop_flag = false;
  executing = false;
  cycle_end_offset = 0;
}

-- Video RAM is kept back while the line is drawn, and not after it.
drawing : handle_memory_read 0x8000 (0 ∷ []) (ports_at 100) ≡ some (0xFF ∷ [])
unfolding handle_memory_read read_port read_memory cached_read cached_register
    normalize_access_address dma_blocks_read lcd_blocks_read lcd_enabled current_ppu_mode
drawing = refl

blanking : handle_memory_read 0x8000 (0 ∷ []) (ports_at 300) ≡ none
unfolding handle_memory_read read_port read_memory cached_read cached_register
    normalize_access_address dma_blocks_read lcd_blocks_read lcd_enabled current_ppu_mode
blanking = refl

-- A button that is selected is pressed: the line is low and the interrupt is requested.
pressing : (set_joypad_state 0x10 (ports_at 0)).clock.interrupt_flags ≡ 0x10
unfolding set_joypad_state joypad_changed joypad_low_nibble request
pressing = refl

reads_and_writes_kept_back_example :
    (Guarded (normalize_access_address 0xFE10) (clock_at 40)
      × Answers 0xFE10 0 7 (ports_at 40) (some (0xFF ∷ [])) (some (ports_at 40)))
    ⊎ ((¬ Guarded (normalize_access_address 0xFE10) (clock_at 40))
        × Answers 0xFE10 0 7 (ports_at 40) none none)
reads_and_writes_kept_back_example =
    reads_and_writes_kept_back 0xFE10 0 7 (ports_at 40)
      (unfold IsMemory normalize_access_address in inl (omega arith))

-- It is the first case: OAM is searched.
searching : Guarded 0xFE10 (clock_at 40)
unfolding Guarded
searching = ground arith

button_requests_example :
    (test_bit 0 (joypad_low_nibble (set_joypad_state 0x10 (ports_at 0))) ≡ false)
    × (test_bit 4 (set_joypad_state 0x10 (ports_at 0)).clock.interrupt_flags ≡ true)
button_requests_example =
    button_requests 0x10 0 (ports_at 0) (omega arith) (omega arith) (omega arith)
      (unfold high line_is_high in refl)
      (unfold high line_is_high set_joypad_state joypad_changed joypad_low_nibble request in refl)
