-- ===== src/GameBoy/Apu/Step.antt =====
-- cores/gameboy/gameboy.cpp: `stepApuOneCycle`.
use proto_time.Base.{ℕ, zero, suc, ◌+◌, ◌-◌, ◌*◌, ◌/◌, ◌%◌, ◌^◌, Bool, leb, ◌==◌, if◌then◌else◌}
use proto_time.Base.Bits.{low_bits}
use Prim.Native.Nat.{bit_and, bit_or, bit_xor}
use proto_time.GameBoy.Apu.State.{
  Pulse, Wave, Noise, Sound, pulse_timer_period, wave_timer_period, noise_timer_period,
}
use proto_time.GameBoy.Apu.Units.{step_apu_frame_sequencer}
use proto_time.GameBoy.Apu.Sample.{push_apu_sample}

unfoldable pub sequencer_cycle : Sound → Sound
sequencer_cycle s =
    let counter = low_bits 32 (s.apu.frame_sequencer_counter + 1) in
    let at : ℕ → Sound = λ n. record s { apu = record s.apu { frame_sequencer_counter = n } } in
    if leb 8192 counter then step_apu_frame_sequencer (at 0) else at counter

unfoldable pub tick_pulse_timer : Pulse → Pulse
tick_pulse_timer p =
    if p.timer - 1 == 0
    then record p {
      timer = pulse_timer_period p.frequency;
      duty_step = low_bits 3 (p.duty_step + 1);
    }
    else record p { timer = p.timer - 1 }

unfoldable pub tick_wave_timer : Wave → Wave
tick_wave_timer w =
    if w.wave_timer - 1 == 0
    then record w {
      wave_timer = wave_timer_period w.wave_frequency;
      sample_index = low_bits 5 (w.sample_index + 1);
    }
    else record w { wave_timer = w.wave_timer - 1 }

-- The shift register moves on; in the short mode the new bit is bit 6 too.
unfoldable pub next_lfsr : Bool → ℕ → ℕ
next_lfsr short r =
    let bit = bit_xor r (r / 2) % 2 in
    let shifted = bit_or (r / 2) (bit * 2 ^ 14) in
    if short then bit_or (bit_and 0xFFBF shifted) (bit * 2 ^ 6) else shifted

unfoldable pub tick_noise_timer : Noise → Noise
tick_noise_timer n =
    if n.noise_timer - 1 == 0
    then record n {
      noise_timer = noise_timer_period n;
      lfsr = low_bits 16 (next_lfsr n.width_mode_7 n.lfsr);
    }
    else record n { noise_timer = n.noise_timer - 1 }

unfoldable pub tick_timers : Sound → Sound
tick_timers s = record s {
  apu = record s.apu {
    pulse1 = tick_pulse_timer s.apu.pulse1;
    pulse2 = tick_pulse_timer s.apu.pulse2;
    wave = tick_wave_timer s.apu.wave;
    noise = tick_noise_timer s.apu.noise;
  };
}

abbrev pub with_accumulator : ℕ → Sound → Sound
with_accumulator n s = record s { apu = record s.apu { sample_accumulator = n } }

-- The loop that pushes the samples that are due, with fuel.
unfoldable pub push_due : ℕ → Sound → Sound
push_due zero s = s
push_due (suc fuel) s =
    let rest =
      push_due fuel (push_apu_sample (with_accumulator (s.apu.sample_accumulator - 4194304) s)) in
    if leb 4194304 s.apu.sample_accumulator then rest else s

unfoldable pub emit_samples : Sound → Sound
emit_samples s =
    let due = low_bits 32 (s.apu.sample_accumulator + 48000) in
    push_due (due / 4194304) (with_accumulator due s)

unfoldable pub step_apu_one_cycle : Sound → Sound
step_apu_one_cycle s =
    emit_samples (if s.apu.master_enabled then tick_timers (sequencer_cycle s) else s)
