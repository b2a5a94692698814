-- ===== src/GameBoy/Apu/Trigger.antt =====
-- cores/gameboy/gameboy.cpp: what starts a channel.
use proto_time.Base.{ℕ, ◌/◌, Bool, not, ◌&&◌, ◌||◌, ◌==◌, if◌then◌else◌}
use proto_time.Base.Bits.{low_bits, test_bit, shr}
use proto_time.GameBoy.Apu.State.{
  Pulse, Wave, Noise, Sound, pulse_timer_period, wave_timer_period, noise_timer_period,
  update_apu_status_register,
}
use proto_time.GameBoy.Apu.Units.{sweep_out_of_range, disabled, with_pulse1}

-- `period == 0u ? 8u : period`
abbrev pub timer_start : ℕ → ℕ
timer_start period = if period == 0 then 8 else period

abbrev pub dac_of : ℕ → Bool
dac_of envelope = not (envelope / 8 == 0)

unfoldable pub triggered_pulse : Bool → ℕ → ℕ → Pulse → Pulse
triggered_pulse master control envelope p =
    let volume = low_bits 4 (shr 4 envelope) in
    let period = low_bits 3 envelope in
    record p {
      duty = low_bits 2 (shr 6 control);
      length_counter = if p.length_counter == 0 then 64 else p.length_counter;
      initial_volume = volume;
      volume = volume;
      envelope_increase = test_bit 3 envelope;
      envelope_period = period;
      envelope_timer = timer_start period;
      dac_enabled = dac_of envelope;
      enabled = master && dac_of envelope;
      timer = pulse_timer_period p.frequency;
      duty_step = 0;
    }

-- The channel with NR10 read.
unfoldable pub started_sweep : ℕ → Pulse → Pulse
started_sweep sweep p =
    let period = low_bits 3 (shr 4 sweep) in
    let shift = low_bits 3 sweep in
    record p {
      sweep_period = period;
      sweep_negate = test_bit 3 sweep;
      sweep_shift = shift;
      shadow_frequency = p.frequency;
      sweep_timer = timer_start period;
      sweep_enabled = not (period == 0) || not (shift == 0);
    }

unfoldable pub triggered_sweep : ℕ → Pulse → Pulse
triggered_sweep sweep p =
    let q = started_sweep sweep p in
    if not (q.sweep_shift == 0) && sweep_out_of_range q then disabled q else q

-- The first channel has the sweep, the second has not.
unfoldable pub trigger_pulse1 : Sound → Sound
trigger_pulse1 s =
    let p = triggered_pulse s.apu.master_enabled (s.io 0xFF11) (s.io 0xFF12) s.apu.pulse1 in
    update_apu_status_register (with_pulse1 s (triggered_sweep (s.io 0xFF10) p))

unfoldable pub trigger_pulse2 : Sound → Sound
trigger_pulse2 s =
    let p = triggered_pulse s.apu.master_enabled (s.io 0xFF16) (s.io 0xFF17) s.apu.pulse2 in
    update_apu_status_register (record s { apu = record s.apu { pulse2 = p } })

unfoldable pub triggered_wave : Bool → ℕ → Wave → Wave
triggered_wave master nr30 w = record w {
  wave_length = if w.wave_length == 0 then 256 else w.wave_length;
  wave_dac = test_bit 7 nr30;
  wave_on = master && test_bit 7 nr30;
  wave_timer = wave_timer_period w.wave_frequency;
  sample_index = 0;
}

unfoldable pub trigger_apu_wave : Sound → Sound
trigger_apu_wave s =
    let w = triggered_wave s.apu.master_enabled (s.io 0xFF1A) s.apu.wave in
    update_apu_status_register (record s { apu = record s.apu { wave = w } })

-- The channel with its registers read, before its timer is loaded.
unfoldable pub triggered_noise : Bool → ℕ → ℕ → Noise → Noise
triggered_noise master nr42 nr43 n = record n {
  noise_length = if n.noise_length == 0 then 64 else n.noise_length;
  noise_initial_volume = low_bits 4 (shr 4 nr42);
  noise_volume = low_bits 4 (shr 4 nr42);
  noise_increase = test_bit 3 nr42;
  noise_period = low_bits 3 nr42;
  noise_envelope_timer = timer_start (low_bits 3 nr42);
  clock_shift = low_bits 4 (shr 4 nr43);
  width_mode_7 = test_bit 3 nr43;
  divisor_code = low_bits 3 nr43;
  noise_dac = dac_of nr42;
  noise_on = master && dac_of nr42;
  lfsr = 0x7FFF;
}

unfoldable pub trigger_apu_noise : Sound → Sound
trigger_apu_noise s =
    let n = triggered_noise s.apu.master_enabled (s.io 0xFF21) (s.io 0xFF22) s.apu.noise in
    update_apu_status_register
      (record s { apu = record s.apu { noise = record n { noise_timer = noise_timer_period n } } })
