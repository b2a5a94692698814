-- ===== src/GameBoy/Apu/Write.antt =====
-- cores/gameboy/gameboy.cpp: `handleApuRegisterWrite`, for the addresses that reach it.
use proto_time.Base.{ℕ, zero, suc, ◌-◌, true, false, not, ◌||◌, ◌==◌, if◌then◌else◌, between}
use proto_time.Base.Bits.{low_bits, test_bit, shr, join}
use Prim.Native.Nat.{bit_and, bit_or}
use proto_time.GameBoy.Apu.State.{
  Pulse, Wave, Noise, Sound, reset_apu, write_io, update_apu_status_register,
}
use proto_time.GameBoy.Apu.Units.{with_pulse1}
use proto_time.GameBoy.Apu.Trigger.{
  dac_of, trigger_pulse1, trigger_pulse2, trigger_apu_wave, trigger_apu_noise,
}

abbrev pub with_pulse2 : Sound → Pulse → Sound
with_pulse2 s p = record s { apu = record s.apu { pulse2 = p } }

abbrev pub with_wave : Sound → Wave → Sound
with_wave s w = record s { apu = record s.apu { wave = w } }

abbrev pub with_noise : Sound → Noise → Sound
with_noise s n = record s { apu = record s.apu { noise = n } }

unfoldable pub written_sweep : ℕ → Pulse → Pulse
written_sweep value p = record p {
  has_sweep = true;
  sweep_period = low_bits 3 (shr 4 value);
  sweep_negate = test_bit 3 value;
  sweep_shift = low_bits 3 value;
}

unfoldable pub written_length : ℕ → Pulse → Pulse
written_length value p = record p {
  duty = low_bits 2 (shr 6 value);
  length_counter = 64 - low_bits 6 value;
}

unfoldable pub written_envelope : ℕ → Pulse → Pulse
written_envelope value p = record p {
  initial_volume = low_bits 4 (shr 4 value);
  envelope_increase = test_bit 3 value;
  envelope_period = low_bits 3 value;
  dac_enabled = dac_of value;
  enabled = if dac_of value then p.enabled else false;
}

-- The low byte of a frequency, and the three bits above it.
unfoldable pub frequency_low : ℕ → ℕ → ℕ
frequency_low value frequency = bit_or (bit_and frequency 0x0700) value

unfoldable pub frequency_high : ℕ → ℕ → ℕ
frequency_high value frequency = join 8 (low_bits 3 value) (low_bits 8 frequency)

unfoldable pub written_control : ℕ → Pulse → Pulse
written_control value p = record p {
  length_enabled = test_bit 6 value;
  frequency = frequency_high value p.frequency;
}

unfoldable pub written_noise_envelope : ℕ → Noise → Noise
written_noise_envelope value n = record n {
  noise_initial_volume = low_bits 4 (shr 4 value);
  noise_increase = test_bit 3 value;
  noise_period = low_bits 3 value;
  noise_dac = dac_of value;
  noise_on = if dac_of value then n.noise_on else false;
}

unfoldable pub written_pulse1 : ℕ → ℕ → Sound → Sound
written_pulse1 address value s =
    let p = s.apu.pulse1 in
    let controlled = with_pulse1 s (written_control value p) in
    if address == 0xFF10
    then with_pulse1 s (written_sweep value p)
    else if address == 0xFF11
    then with_pulse1 s (written_length value p)
    else if address == 0xFF12
    then with_pulse1 s (written_envelope value p)
    else if address == 0xFF13
    then with_pulse1 s (record p { frequency = frequency_low value p.frequency })
    else if test_bit 7 value
    then trigger_pulse1 controlled
    else controlled

unfoldable pub written_pulse2 : ℕ → ℕ → Sound → Sound
written_pulse2 address value s =
    let p = s.apu.pulse2 in
    let controlled = with_pulse2 s (written_control value p) in
    if address == 0xFF16
    then with_pulse2 s (written_length value p)
    else if address == 0xFF17
    then with_pulse2 s (written_envelope value p)
    else if address == 0xFF18
    then with_pulse2 s (record p { frequency = frequency_low value p.frequency })
    else if test_bit 7 value
    then trigger_pulse2 controlled
    else controlled

unfoldable pub written_wave : ℕ → ℕ → Sound → Sound
written_wave address value s =
    let w = s.apu.wave in
    let controlled = with_wave s (record w {
      wave_length_enabled = test_bit 6 value;
      wave_frequency = frequency_high value w.wave_frequency;
    }) in
    if address == 0xFF1A
    then with_wave s (record w {
      wave_dac = test_bit 7 value;
      wave_on = if test_bit 7 value then w.wave_on else false;
    })
    else if address == 0xFF1B
    then with_wave s (record w { wave_length = 256 - value })
    else if address == 0xFF1C
    then s
    else if address == 0xFF1D
    then with_wave s (record w { wave_frequency = frequency_low value w.wave_frequency })
    else if test_bit 7 value
    then trigger_apu_wave controlled
    else controlled

unfoldable pub written_noise : ℕ → ℕ → Sound → Sound
written_noise address value s =
    let n = s.apu.noise in
    let controlled = with_noise s (record n { noise_length_enabled = test_bit 6 value }) in
    if address == 0xFF20
    then with_noise s (record n { noise_length = 64 - low_bits 6 value })
    else if address == 0xFF21
    then with_noise s (written_noise_envelope value n)
    else if address == 0xFF22
    then with_noise s (record n {
      clock_shift = low_bits 4 (shr 4 value);
      width_mode_7 = test_bit 3 value;
      divisor_code = low_bits 3 value;
    })
    else if test_bit 7 value
    then trigger_apu_noise controlled
    else controlled

-- The cases of the switch but NR52, each behind its `storeAt`.
unfoldable pub written_register : ℕ → ℕ → Sound → Sound
written_register address value s =
    if between 0xFF10 0xFF15 address
    then written_pulse1 address value s
    else if between 0xFF16 0xFF1A address
    then written_pulse2 address value s
    else if between 0xFF1A 0xFF1F address
    then written_wave address value s
    else if between 0xFF20 0xFF24 address
    then written_noise address value s
    else s

-- Power off: the registers from `address` on are cleared, but for the two that do not exist.
unfoldable pub clear_registers : ℕ → ℕ → Sound → Sound
clear_registers address zero s = s
clear_registers address (suc n) s =
    clear_registers (suc address) n
      (if (address == 0xFF15) || (address == 0xFF1F) then s else write_io address 0 s)

unfoldable pub write_nr52 : ℕ → Sound → Sound
write_nr52 value s =
    if not (test_bit 7 value)
    then clear_registers 0xFF10 22 (record s { apu = reset_apu false })
    else if s.apu.master_enabled
    then s
    else record s {
      apu = record s.apu {
        master_enabled = true;
        frame_sequencer_counter = 0;
        frame_sequencer_step = 0;
      };
    }

unfoldable pub handle_apu_register_write : ℕ → ℕ → Sound → Sound
handle_apu_register_write address value s =
    if between 0xFF30 0xFF40 address
    then write_io address value s
    else update_apu_status_register (
        if address == 0xFF26
        then write_nr52 value s
        else written_register address value (write_io address value s))
