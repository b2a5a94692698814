-- ===== src/GameBoy/Apu/Bounds.antt =====
-- Every event keeps the ranges of the channels' numbers.
use proto_time.Base.{
  ℕ, zero, suc, ◌+◌, ◌-◌, ◌%◌, ◌^◌, ◌≤◌, ◌<◌, false, not, ◌||◌, leb, ◌==◌, if◌then◌else◌, if-keeps,
  if-split, ◌≡◌, refl, sym, subst, arith,
}
use proto_time.Base.Bits.{low_bits}
use proto_time.GameBoy.Apu.State.{
  Pulse, Wave, Noise, Sound, apu_status, write_io, update_apu_status_register,
}
use proto_time.GameBoy.Apu.Units.{
  lengths_run_out, tick_apu_length_counters, swept_frequency, sweep_out_of_range, disabled,
  with_pulse1, sweep_now, tick_apu_sweep, tick_envelopes, next_sequencer_step,
  step_apu_frame_sequencer,
}
use proto_time.GameBoy.Apu.Sample.{push_apu_sample}
use proto_time.GameBoy.Apu.Step.{
  sequencer_cycle, tick_timers, push_due, emit_samples, step_apu_one_cycle,
}
use proto_time.GameBoy.Apu.Write.{with_pulse2, with_wave, with_noise}
use proto_time.GameBoy.Apu.Valid.{
  IsValidPulse, IsValidNoise, IsValid, pulse_kept, ticked_lengths-IsValid, tick_timers-IsValid,
  tick_envelopes-IsValid, sweep_to-IsValid,
}

pub write_io-IsValid :
    (address value : ℕ) (s : Sound) → IsValid s → IsValid (write_io address value s)
unfolding write_io
write_io-IsValid address value s v = record {
  pulse1_valid = v.pulse1_valid;
  pulse2_valid = v.pulse2_valid;
  wave_bound = v.wave_bound;
  noise_valid = v.noise_valid;
}

pub update_apu_status_register-IsValid :
    (s : Sound) → IsValid s → IsValid (update_apu_status_register s)
unfolding update_apu_status_register
update_apu_status_register-IsValid s v = write_io-IsValid 0xFF26 (apu_status s.apu) s v

pub with_pulse1-IsValid :
    (s : Sound) (p : Pulse) → IsValidPulse p → IsValid s → IsValid (with_pulse1 s p)
with_pulse1-IsValid s p h v = record {
  pulse1_valid = h;
  pulse2_valid = v.pulse2_valid;
  wave_bound = v.wave_bound;
  noise_valid = v.noise_valid;
}

pub with_pulse2-IsValid :
    (s : Sound) (p : Pulse) → IsValidPulse p → IsValid s → IsValid (with_pulse2 s p)
with_pulse2-IsValid s p h v = record {
  pulse1_valid = v.pulse1_valid;
  pulse2_valid = h;
  wave_bound = v.wave_bound;
  noise_valid = v.noise_valid;
}

pub with_wave-IsValid :
    (s : Sound) (w : Wave) → w.wave_frequency ≤ 2047 → IsValid s → IsValid (with_wave s w)
with_wave-IsValid s w h v = record {
  pulse1_valid = v.pulse1_valid;
  pulse2_valid = v.pulse2_valid;
  wave_bound = h;
  noise_valid = v.noise_valid;
}

pub with_noise-IsValid :
    (s : Sound) (n : Noise)
    → n.noise_volume ≤ 15
    → n.lfsr < 2 ^ 15
    → IsValid s
    → IsValid (with_noise s n)
with_noise-IsValid s n h k v = record {
  pulse1_valid = v.pulse1_valid;
  pulse2_valid = v.pulse2_valid;
  wave_bound = v.wave_bound;
  noise_valid = record { noise_volume_bound = h; lfsr_bound = k };
}

tick_apu_length_counters-IsValid : (s : Sound) → IsValid s → IsValid (tick_apu_length_counters s)
unfolding tick_apu_length_counters
tick_apu_length_counters-IsValid s v =
    let ticked = ticked_lengths-IsValid s v in
    if-keeps IsValid (lengths_run_out s.apu) (update_apu_status_register-IsValid _ ticked) ticked

in_range : (p : Pulse) → sweep_out_of_range p ≡ false → low_bits 16 (swept_frequency p) ≤ 2047
in_range p h = ground arith

sweep_now-IsValid : (s : Sound) (p : Pulse) → IsValidPulse p → IsValid s → IsValid (sweep_now s p)
unfolding sweep_now
sweep_now-IsValid s p h v =
    let kept = with_pulse1-IsValid s p h v in
    let off : IsValidPulse (disabled p) = pulse_kept p _ refl refl refl h in
    if-keeps IsValid (p.sweep_period == 0) kept (
      if-split IsValid (sweep_out_of_range p)
        (λ r. update_apu_status_register-IsValid _ (with_pulse1-IsValid s _ off v))
        (λ r. if-keeps IsValid (p.sweep_shift == 0) kept (
          update_apu_status_register-IsValid _
            (with_pulse1-IsValid s _ (sweep_to-IsValid _ p (in_range p r) h) v))))

tick_apu_sweep-IsValid : (s : Sound) → IsValid s → IsValid (tick_apu_sweep s)
unfolding tick_apu_sweep
tick_apu_sweep-IsValid s v =
    let p = s.apu.pulse1 in
    let timed : ℕ → Pulse = λ n. record p { sweep_timer = n } in
    let timed_valid : (n : ℕ) → IsValidPulse (timed n) =
      λ n. pulse_kept p _ refl refl refl v.pulse1_valid in
    let loaded = if p.sweep_period == 0 then 8 else p.sweep_period in
    if-keeps IsValid (not p.has_sweep || not p.enabled || not p.sweep_enabled) v (
      if-keeps IsValid (not (p.sweep_timer - 1 == 0)) (with_pulse1-IsValid s _ (timed_valid _) v)
        (sweep_now-IsValid s (timed loaded) (timed_valid loaded) v))

step_apu_frame_sequencer-IsValid : (s : Sound) → IsValid s → IsValid (step_apu_frame_sequencer s)
unfolding step_apu_frame_sequencer next_sequencer_step
step_apu_frame_sequencer-IsValid s v =
    let step = s.apu.frame_sequencer_step in
    let lengths = if step % 2 == 0 then tick_apu_length_counters s else s in
    let swept = if (step == 2) || (step == 6) then tick_apu_sweep lengths else lengths in
    let after_lengths : IsValid lengths =
      if-keeps IsValid (step % 2 == 0) (tick_apu_length_counters-IsValid s v) v in
    let after_sweep : IsValid swept =
      if-keeps IsValid ((step == 2) || (step == 6)) (tick_apu_sweep-IsValid lengths after_lengths)
        after_lengths in
    let after_envelopes : IsValid (if step == 7 then tick_envelopes swept else swept) =
      if-keeps IsValid (step == 7) (tick_envelopes-IsValid swept after_sweep) after_sweep in
    record {
      pulse1_valid = after_envelopes.pulse1_valid;
      pulse2_valid = after_envelopes.pulse2_valid;
      wave_bound = after_envelopes.wave_bound;
      noise_valid = after_envelopes.noise_valid;
    }

-- A change of the counters alone.
pub counters_kept :
    (s t : Sound)
    → t.apu.pulse1 ≡ s.apu.pulse1
    → t.apu.pulse2 ≡ s.apu.pulse2
    → t.apu.wave ≡ s.apu.wave
    → t.apu.noise ≡ s.apu.noise
    → IsValid s
    → IsValid t
counters_kept s t e f g h v = record {
  pulse1_valid = subst IsValidPulse (sym e) v.pulse1_valid;
  pulse2_valid = subst IsValidPulse (sym f) v.pulse2_valid;
  wave_bound = subst (λ (w : Wave). w.wave_frequency ≤ 2047) (sym g) v.wave_bound;
  noise_valid = subst IsValidNoise (sym h) v.noise_valid;
}

push_due-IsValid : (fuel : ℕ) (s : Sound) → IsValid s → IsValid (push_due fuel s)
unfolding push_due push_apu_sample
push_due-IsValid zero s v = v
push_due-IsValid (suc fuel) s v =
    if-keeps IsValid (leb 4194304 s.apu.sample_accumulator)
      (push_due-IsValid fuel _ (counters_kept s _ refl refl refl refl v)) v

pub step_apu_one_cycle-IsValid : (s : Sound) → IsValid s → IsValid (step_apu_one_cycle s)
unfolding step_apu_one_cycle emit_samples sequencer_cycle
step_apu_one_cycle-IsValid s v =
    let sequenced : IsValid (sequencer_cycle s) =
      if-keeps IsValid (leb 8192 (low_bits 32 (s.apu.frame_sequencer_counter + 1)))
        (step_apu_frame_sequencer-IsValid _ (counters_kept s _ refl refl refl refl v))
        (counters_kept s _ refl refl refl refl v) in
    let ticked = if s.apu.master_enabled then tick_timers (sequencer_cycle s) else s in
    let ticked_valid : IsValid ticked =
      if-keeps IsValid s.apu.master_enabled (tick_timers-IsValid _ sequenced) v in
    push_due-IsValid _ _ (counters_kept ticked _ refl refl refl refl ticked_valid)
