-- ===== src/GameBoy/Apu/Sample.antt =====
-- cores/gameboy/gameboy.cpp: the samples of the channels, their mix, and the ring of recent samples.
-- A signed number is what is added and what is taken away; an int16_t is its sixteen bits.
use proto_time.Base.{
  ℕ, ◌+◌, ◌-◌, ◌*◌, ◌/◌, ◌%◌, min, Bool, not, ◌&&◌, ◌||◌, leb, ◌==◌, if◌then◌else◌, set,
}
use proto_time.Base.Bits.{low_bits, test_bit, shr}
use proto_time.GameBoy.Apu.State.{Pulse, Noise, Sound}

pub record Signed : Type 0 where
  pub up : ℕ
  pub down : ℕ

abbrev pub nothing : Signed
nothing = record { up = 0; down = 0 }

abbrev pub swing : Bool → ℕ → Signed
swing high volume =
    if high then record { up = volume; down = 0 } else record { up = 0; down = volume }

-- `kDutyPatterns`
unfoldable pub duty_pattern : ℕ → ℕ → Bool
duty_pattern duty step =
    if duty == 0
    then step == 7
    else if duty == 1
    then (step == 0) || (step == 7)
    else if duty == 2
    then (step == 0) || leb 5 step
    else leb 1 step && leb step 6

unfoldable pub current_pulse_sample : Bool → Pulse → Signed
current_pulse_sample master p =
    if not master || not p.enabled || not p.dac_enabled || (p.volume == 0)
    then nothing
    else swing (duty_pattern (low_bits 2 p.duty) (low_bits 3 p.duty_step)) p.volume

-- The four bits of wave RAM at the index.
unfoldable pub wave_nibble : (ℕ → ℕ) → ℕ → ℕ
wave_nibble io index =
    let packed = io (0xFF30 + index / 2) in
    if index % 2 == 0 then low_bits 4 (shr 4 packed) else low_bits 4 packed

unfoldable pub current_wave_sample : Sound → Signed
current_wave_sample s =
    let w = s.apu.wave in
    let level = low_bits 2 (shr 5 (s.io 0xFF1C)) in
    let sample = wave_nibble s.io (low_bits 5 w.sample_index) in
    let scaled = if level == 2 then shr 1 sample else if level == 3 then shr 2 sample else sample in
    if not s.apu.master_enabled || not w.wave_on || not w.wave_dac || (level == 0)
    then nothing
    else record { up = scaled * 2; down = 16 }

unfoldable pub current_noise_sample : Bool → Noise → Signed
current_noise_sample master n =
    if not master || not n.noise_on || not n.noise_dac || (n.noise_volume == 0)
    then nothing
    else swing (n.lfsr % 2 == 0) n.noise_volume

abbrev pub plus : Signed → Signed → Signed
plus a b = record { up = a.up + b.up; down = a.down + b.down }

abbrev pub scaled_by : ℕ → Signed → Signed
scaled_by k a = record { up = a.up * k; down = a.down * k }

abbrev pub chosen : Bool → Signed → Signed
chosen b a = if b then a else nothing

-- One side: the channels that NR51 sends there by its bits from `first` on, and its volume.
unfoldable pub mix_side : ℕ → ℕ → ℕ → Signed → Signed → Signed → Signed → Signed
mix_side first nr51 volume ch1 ch2 ch3 ch4 = scaled_by (volume + 1) (
    plus (plus (chosen (test_bit first nr51) ch1) (chosen (test_bit (first + 1) nr51) ch2))
      (plus (chosen (test_bit (first + 2) nr51) ch3) (chosen (test_bit (first + 3) nr51) ch4)))

-- `(left + right) * 32`, before it is clamped.
unfoldable pub mixed_sample : Sound → Signed
mixed_sample s =
    let ch1 = current_pulse_sample s.apu.master_enabled s.apu.pulse1 in
    let ch2 = current_pulse_sample s.apu.master_enabled s.apu.pulse2 in
    let ch3 = current_wave_sample s in
    let ch4 = current_noise_sample s.apu.master_enabled s.apu.noise in
    let nr50 = s.io 0xFF24 in
    let nr51 = s.io 0xFF25 in
    scaled_by 32 (
      plus (mix_side 4 nr51 (low_bits 3 (shr 4 nr50)) ch1 ch2 ch3 ch4)
        (mix_side 0 nr51 (low_bits 3 nr50) ch1 ch2 ch3 ch4))

-- The clamped number as an int16_t.
unfoldable pub clamped : Signed → ℕ
clamped a = if leb a.down a.up then min (a.up - a.down) 32767 else 65536 - min (a.down - a.up) 32768

unfoldable pub push_apu_sample : Sound → Sound
push_apu_sample s =
    let a = s.apu in
    let count = a.sample_counter + 1 in
    record s {
      apu = record a {
        recent_samples = set a.recent_samples a.recent_write_cursor (clamped (mixed_sample s));
        recent_write_cursor = (a.recent_write_cursor + 1) % 4096;
        recent_sample_count = min (a.recent_sample_count + 1) 4096;
        sample_counter = low_bits 64 count;
        frame_counter =
            if low_bits 64 count % 256 == 0
            then low_bits 64 (a.frame_counter + 1)
            else a.frame_counter;
      };
    }
