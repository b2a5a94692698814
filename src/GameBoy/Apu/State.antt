-- ===== src/GameBoy/Apu/State.antt =====
-- cores/gameboy/gameboy.hpp, the structs of the sound unit, and cores/gameboy/gameboy.cpp, the periods
-- of the timers, the status register and the start. The I/O registers are a function of the address:
-- each of 0xFF10 to 0xFF3F keeps the byte that was last written to it by `writeIoRegister` or `storeAt`.
use proto_time.Base.{
  ℕ, ◌+◌, ◌-◌, ◌*◌, ◌^◌, min, max, Bool, true, false, List, ◌==◌, if◌then◌else◌, filled,
}
use proto_time.Base.Bits.{low_bits, test_bit}

pub record Pulse : Type 0 where
  pub enabled : Bool
  pub dac_enabled : Bool
  pub length_enabled : Bool
  pub duty : ℕ
  pub duty_step : ℕ
  pub length_counter : ℕ
  pub initial_volume : ℕ
  pub volume : ℕ
  pub envelope_increase : Bool
  pub envelope_period : ℕ
  pub envelope_timer : ℕ
  pub frequency : ℕ
  pub timer : ℕ
  pub has_sweep : Bool
  pub sweep_period : ℕ
  pub sweep_timer : ℕ
  pub sweep_negate : Bool
  pub sweep_shift : ℕ
  pub shadow_frequency : ℕ
  pub sweep_enabled : Bool

pub record Wave : Type 0 where
  pub wave_on : Bool
  pub wave_dac : Bool
  pub wave_length_enabled : Bool
  pub wave_length : ℕ
  pub wave_frequency : ℕ
  pub wave_timer : ℕ
  pub sample_index : ℕ

pub record Noise : Type 0 where
  pub noise_on : Bool
  pub noise_dac : Bool
  pub noise_length_enabled : Bool
  pub noise_length : ℕ
  pub noise_initial_volume : ℕ
  pub noise_volume : ℕ
  pub noise_increase : Bool
  pub noise_period : ℕ
  pub noise_envelope_timer : ℕ
  pub clock_shift : ℕ
  pub divisor_code : ℕ
  pub width_mode_7 : Bool
  pub noise_timer : ℕ
  pub lfsr : ℕ

pub record Apu : Type 0 where
  pub master_enabled : Bool
  pub frame_sequencer_counter : ℕ
  pub frame_sequencer_step : ℕ
  pub sample_accumulator : ℕ
  pub sample_counter : ℕ
  pub frame_counter : ℕ
  pub recent_samples : List ℕ
  pub recent_write_cursor : ℕ
  pub recent_sample_count : ℕ
  pub pulse1 : Pulse
  pub pulse2 : Pulse
  pub wave : Wave
  pub noise : Noise

-- The sound unit and the I/O registers.
pub record Sound : Type 0 where
  pub apu : Apu
  pub io : ℕ → ℕ

abbrev pub silent_pulse : Pulse
silent_pulse = record {
  enabled = false;
  dac_enabled = false;
  length_enabled = false;
  duty = 0;
  duty_step = 0;
  length_counter = 0;
  initial_volume = 0;
  volume = 0;
  envelope_increase = false;
  envelope_period = 0;
  envelope_timer = 0;
  frequency = 0;
  timer = 0;
  has_sweep = false;
  sweep_period = 0;
  sweep_timer = 0;
  sweep_negate = false;
  sweep_shift = 0;
  shadow_frequency = 0;
  sweep_enabled = false;
}

abbrev pub silent_wave : Wave
silent_wave = record {
  wave_on = false;
  wave_dac = false;
  wave_length_enabled = false;
  wave_length = 0;
  wave_frequency = 0;
  wave_timer = 0;
  sample_index = 0;
}

abbrev pub silent_noise : Noise
silent_noise = record {
  noise_on = false;
  noise_dac = false;
  noise_length_enabled = false;
  noise_length = 0;
  noise_initial_volume = 0;
  noise_volume = 0;
  noise_increase = false;
  noise_period = 0;
  noise_envelope_timer = 0;
  clock_shift = 0;
  divisor_code = 0;
  width_mode_7 = false;
  noise_timer = 0;
  lfsr = 0x7FFF;
}

-- `ApuState{}`, but for what the code always sets next.
unfoldable pub reset_apu : Bool → Apu
reset_apu master = record {
  master_enabled = master;
  frame_sequencer_counter = 0;
  frame_sequencer_step = 0;
  sample_accumulator = 0;
  sample_counter = 0;
  frame_counter = 0;
  recent_samples = filled 4096 0;
  recent_write_cursor = 0;
  recent_sample_count = 0;
  pulse1 = record silent_pulse { has_sweep = true };
  pulse2 = silent_pulse;
  wave = silent_wave;
  noise = silent_noise;
}

unfoldable pub pulse_timer_period : ℕ → ℕ
pulse_timer_period frequency = low_bits 16 (max 4 ((2048 - low_bits 11 frequency) * 4))

unfoldable pub wave_timer_period : ℕ → ℕ
wave_timer_period frequency = low_bits 16 (max 2 ((2048 - low_bits 11 frequency) * 2))

-- `kDivisors`: 8, then the multiples of 16.
unfoldable pub noise_divisor : ℕ → ℕ
noise_divisor code = if code == 0 then 8 else 16 * code

unfoldable pub noise_timer_period : Noise → ℕ
noise_timer_period n =
    let period = noise_divisor (low_bits 3 n.divisor_code) * 2 ^ n.clock_shift in
    min (max period 8) 0xFFFF

unfoldable pub channel_bits : Apu → ℕ
channel_bits a =
    (if a.pulse1.enabled then 1 else 0)
    + (if a.pulse2.enabled then 2 else 0)
    + (if a.wave.wave_on then 4 else 0)
    + (if a.noise.noise_on then 8 else 0)

-- What NR52 shows: bits that do not overlap, so their `|` is a sum.
unfoldable pub apu_status : Apu → ℕ
apu_status a = (if a.master_enabled then 0x80 else 0) + 0x70 + channel_bits a

unfoldable pub write_io : ℕ → ℕ → Sound → Sound
write_io address value s = record s { io = λ other. if other == address then value else s.io other }

unfoldable pub update_apu_status_register : Sound → Sound
update_apu_status_register s = write_io 0xFF26 (apu_status s.apu) s

unfoldable pub initialize_apu : Sound → Sound
initialize_apu s =
    update_apu_status_register (record s { apu = reset_apu (test_bit 7 (s.io 0xFF26)) })
