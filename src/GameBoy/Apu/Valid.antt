-- ===== src/GameBoy/Apu/Valid.antt =====
-- The ranges of the channels' numbers, and that the ticks of the units keep them.
use proto_time.Base.{
  ℕ, ◌+◌, ◌-◌, ◌*◌, ◌/◌, ◌%◌, ◌^◌, ◌≤◌, ◌<◌, Bool, false, not, ◌&&◌, ◌||◌, ltb, ◌==◌, if-keeps, ◌≡◌,
  refl, arith,
}
use proto_time.Base.Bits.{low_bits, shr, bit_or_bound, bit_and_le}
use Prim.Native.Nat.{bit_or, bit_xor}
use proto_time.GameBoy.Apu.State.{Pulse, Wave, Noise, Sound}
use proto_time.GameBoy.Apu.Units.{
  tick_apu_envelope, tick_pulse_envelope, tick_noise_envelope, counts, runs_out, tick_pulse_length,
  tick_wave_length, tick_noise_length, ticked_lengths, sweep_to, ticked_envelopes, tick_envelopes,
}
use proto_time.GameBoy.Apu.Step.{
  tick_pulse_timer, tick_wave_timer, next_lfsr, tick_noise_timer, tick_timers,
}

-- A volume has four bits, a frequency eleven, the shift register fifteen.
pub record IsValidPulse (p : Pulse) : Type 0 where
  pub volume_bound : p.volume ≤ 15
  pub frequency_bound : p.frequency ≤ 2047
  pub shadow_bound : p.shadow_frequency ≤ 2047

pub record IsValidNoise (n : Noise) : Type 0 where
  pub noise_volume_bound : n.noise_volume ≤ 15
  pub lfsr_bound : n.lfsr < 2 ^ 15

pub record IsValid (s : Sound) : Type 0 where
  pub pulse1_valid : IsValidPulse s.apu.pulse1
  pub pulse2_valid : IsValidPulse s.apu.pulse2
  pub wave_bound : s.apu.wave.wave_frequency ≤ 2047
  pub noise_valid : IsValidNoise s.apu.noise

-- A channel that keeps the bounded numbers stays valid.
pub pulse_kept :
    (p q : Pulse)
    → q.volume ≡ p.volume
    → q.frequency ≡ p.frequency
    → q.shadow_frequency ≡ p.shadow_frequency
    → IsValidPulse p
    → IsValidPulse q
pulse_kept p q e f g v = record {
  volume_bound = omega (arith, e, v.volume_bound);
  frequency_bound = omega (arith, f, v.frequency_bound);
  shadow_bound = omega (arith, g, v.shadow_bound);
}

pub envelope_bound :
    (on increase : Bool) (period timer volume : ℕ)
    → volume ≤ 15
    → (tick_apu_envelope on increase period timer volume).1 ≤ 15
unfolding tick_apu_envelope
envelope_bound on increase period timer volume h =
    let Low : ℕ × ℕ → Type 0 = λ r. r.1 ≤ 15 in
    if-keeps Low (not on || (period == 0)) h
      (if-keeps Low (not (timer - 1 == 0)) h (if-keeps Low increase (ground arith) (omega arith)))

tick_pulse_envelope-IsValid : (p : Pulse) → IsValidPulse p → IsValidPulse (tick_pulse_envelope p)
unfolding tick_pulse_envelope
tick_pulse_envelope-IsValid p v = record {
  volume_bound = envelope_bound p.enabled _ _ _ _ v.volume_bound;
  frequency_bound = v.frequency_bound;
  shadow_bound = v.shadow_bound;
}

tick_pulse_length-IsValid : (p : Pulse) → IsValidPulse p → IsValidPulse (tick_pulse_length p)
unfolding tick_pulse_length
tick_pulse_length-IsValid p v =
    if-keeps IsValidPulse (runs_out p.enabled p.length_enabled p.length_counter)
      (pulse_kept p _ refl refl refl v)
      (if-keeps IsValidPulse (counts p.enabled p.length_enabled p.length_counter)
        (pulse_kept p _ refl refl refl v) v)

tick_pulse_timer-IsValid : (p : Pulse) → IsValidPulse p → IsValidPulse (tick_pulse_timer p)
unfolding tick_pulse_timer
tick_pulse_timer-IsValid p v =
    if-keeps IsValidPulse (p.timer - 1 == 0) (pulse_kept p _ refl refl refl v)
      (pulse_kept p _ refl refl refl v)

tick_noise_length-IsValid : (n : Noise) → IsValidNoise n → IsValidNoise (tick_noise_length n)
unfolding tick_noise_length
tick_noise_length-IsValid n v =
    let emptied : IsValidNoise (record n { noise_length = 0; noise_on = false }) = record {
      noise_volume_bound = v.noise_volume_bound;
      lfsr_bound = v.lfsr_bound;
    } in
    let counted : IsValidNoise (record n { noise_length = n.noise_length - 1 }) = record {
      noise_volume_bound = v.noise_volume_bound;
      lfsr_bound = v.lfsr_bound;
    } in
    if-keeps IsValidNoise (runs_out n.noise_on n.noise_length_enabled n.noise_length) emptied
      (if-keeps IsValidNoise (counts n.noise_on n.noise_length_enabled n.noise_length) counted v)

next_lfsr_bound : (short : Bool) (r : ℕ) → r < 2 ^ 15 → next_lfsr short r < 2 ^ 15
unfolding next_lfsr
next_lfsr_bound short r h =
    let bit = bit_xor r (r / 2) % 2 in
    let shifted = bit_or (r / 2) (bit * 2 ^ 14) in
    let bound : shifted < 2 ^ 15 = bit_or_bound 15 _ _ (omega arith) (omega arith) in
    if-keeps (λ (x : ℕ). x < 2 ^ 15) short
      (bit_or_bound 15 _ _ (omega (arith, bit_and_le 15 0xFFBF shifted bound)) (omega arith)) bound

tick_noise_timer-IsValid : (n : Noise) → IsValidNoise n → IsValidNoise (tick_noise_timer n)
unfolding tick_noise_timer
tick_noise_timer-IsValid n v =
    if-keeps IsValidNoise (n.noise_timer - 1 == 0)
      (record {
        noise_volume_bound = v.noise_volume_bound;
        lfsr_bound = omega (arith, next_lfsr_bound n.width_mode_7 n.lfsr v.lfsr_bound);
      })
      (record { noise_volume_bound = v.noise_volume_bound; lfsr_bound = v.lfsr_bound })

tick_wave_length_frequency : (w : Wave) → (tick_wave_length w).wave_frequency ≡ w.wave_frequency
unfolding tick_wave_length
tick_wave_length_frequency w =
    let Same : Wave → Type 0 = λ v. v.wave_frequency ≡ w.wave_frequency in
    if-keeps Same (runs_out w.wave_on w.wave_length_enabled w.wave_length) refl
      (if-keeps Same (counts w.wave_on w.wave_length_enabled w.wave_length) refl refl)

tick_wave_timer_frequency : (w : Wave) → (tick_wave_timer w).wave_frequency ≡ w.wave_frequency
unfolding tick_wave_timer
tick_wave_timer_frequency w =
    if-keeps (λ (v : Wave). v.wave_frequency ≡ w.wave_frequency) (w.wave_timer - 1 == 0) refl refl

pub ticked_lengths-IsValid :
    (s : Sound) → IsValid s → IsValid (record s { apu = ticked_lengths s.apu })
unfolding ticked_lengths
ticked_lengths-IsValid s v = record {
  pulse1_valid = tick_pulse_length-IsValid s.apu.pulse1 v.pulse1_valid;
  pulse2_valid = tick_pulse_length-IsValid s.apu.pulse2 v.pulse2_valid;
  wave_bound = omega (arith, tick_wave_length_frequency s.apu.wave, v.wave_bound);
  noise_valid = tick_noise_length-IsValid s.apu.noise v.noise_valid;
}

pub tick_timers-IsValid : (s : Sound) → IsValid s → IsValid (tick_timers s)
unfolding tick_timers
tick_timers-IsValid s v = record {
  pulse1_valid = tick_pulse_timer-IsValid s.apu.pulse1 v.pulse1_valid;
  pulse2_valid = tick_pulse_timer-IsValid s.apu.pulse2 v.pulse2_valid;
  wave_bound = omega (arith, tick_wave_timer_frequency s.apu.wave, v.wave_bound);
  noise_valid = tick_noise_timer-IsValid s.apu.noise v.noise_valid;
}

pub tick_envelopes-IsValid : (s : Sound) → IsValid s → IsValid (tick_envelopes s)
unfolding tick_envelopes ticked_envelopes tick_noise_envelope
tick_envelopes-IsValid s v = record {
  pulse1_valid = tick_pulse_envelope-IsValid s.apu.pulse1 v.pulse1_valid;
  pulse2_valid = tick_pulse_envelope-IsValid s.apu.pulse2 v.pulse2_valid;
  wave_bound = v.wave_bound;
  noise_valid = record {
    noise_volume_bound =
        envelope_bound s.apu.noise.noise_on _ _ _ _ v.noise_valid.noise_volume_bound;
    lfsr_bound = v.noise_valid.lfsr_bound;
  };
}

-- The sweep leaves the range of a frequency only by disabling the channel.
pub sweep_to-IsValid :
    (next : ℕ) (p : Pulse) → next ≤ 2047 → IsValidPulse p → IsValidPulse (sweep_to next p)
unfolding sweep_to
sweep_to-IsValid next p h v =
    if-keeps IsValidPulse
      (not p.sweep_negate && ltb 2047 (low_bits 16 (next + shr p.sweep_shift next)))
      (record { volume_bound = v.volume_bound; frequency_bound = h; shadow_bound = h })
      (record { volume_bound = v.volume_bound; frequency_bound = h; shadow_bound = h })
