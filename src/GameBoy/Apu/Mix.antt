-- ===== src/GameBoy/Apu/Mix.antt =====
-- The mix of the four channels fits in a sample.
use proto_time.Base.{
  ℕ, zero, suc, ◌+◌, ◌*◌, ◌%◌, ◌≤◌, Bool, not, ◌||◌, List, ◌==◌, if◌then◌else◌, if-keeps, ◌≡◌,
  arith,
}
use proto_time.Base.Bits.{low_bits, shr}
use proto_time.GameBoy.Apu.State.{Pulse, Noise, Sound, initialize_apu}
use proto_time.GameBoy.Apu.Sample.{
  Signed, nothing, swing, current_pulse_sample, wave_nibble, current_wave_sample,
  current_noise_sample, plus, scaled_by, chosen, mix_side, mixed_sample, clamped,
}
use proto_time.GameBoy.Apu.Valid.{IsValidPulse, IsValidNoise, IsValid}
use proto_time.GameBoy.Apu.Running.{Event, happen_all}
use proto_time.GameBoy.Apu.Writes.{WritesBytes, numbers_in_range}

-- A signed number no further than `k` from zero.
record Within (k : ℕ) (a : Signed) : Type 0 where
  not_above : a.up ≤ a.down + k
  not_below : a.down ≤ a.up + k

nothing-Within : (k : ℕ) → Within k nothing
nothing-Within k = record { not_above = omega arith; not_below = omega arith }

swing-Within : (k volume : ℕ) (high : Bool) → volume ≤ k → Within k (swing high volume)
swing-Within k volume high h =
    if-keeps (Within k) high (record { not_above = omega arith; not_below = omega arith })
      (record { not_above = omega arith; not_below = omega arith })

plus-Within : (j k : ℕ) (a b : Signed) → Within j a → Within k b → Within (j + k) (plus a b)
plus-Within j k a b p q = record {
  not_above = omega (arith, p.not_above, q.not_above);
  not_below = omega (arith, p.not_below, q.not_below);
}

mul-le : (a b n k : ℕ) → a ≤ b + n → a * k ≤ b * k + n * k
mul-le a b n zero h = omega arith
mul-le a b n (suc k) h = ground (arith, mul-le a b n k h)

scaled_by-Within : (n k m : ℕ) (a : Signed) → n * k ≤ m → Within n a → Within m (scaled_by k a)
scaled_by-Within n k m a h p = record {
  not_above = omega (arith, h, mul-le a.up a.down n k p.not_above);
  not_below = omega (arith, h, mul-le a.down a.up n k p.not_below);
}

chosen-Within : (k : ℕ) (b : Bool) (a : Signed) → Within k a → Within k (chosen b a)
chosen-Within k b a p = if-keeps (Within k) b p (nothing-Within k)

current_pulse_sample-Within :
    (master : Bool) (p : Pulse) → IsValidPulse p → Within 15 (current_pulse_sample master p)
unfolding current_pulse_sample
current_pulse_sample-Within master p v =
    if-keeps (Within 15) (not master || not p.enabled || not p.dac_enabled || (p.volume == 0))
      (nothing-Within 15) (swing-Within 15 p.volume _ v.volume_bound)

current_noise_sample-Within :
    (master : Bool) (n : Noise) → IsValidNoise n → Within 15 (current_noise_sample master n)
unfolding current_noise_sample
current_noise_sample-Within master n v =
    if-keeps (Within 15) (not master || not n.noise_on || not n.noise_dac || (n.noise_volume == 0))
      (nothing-Within 15) (swing-Within 15 n.noise_volume _ v.noise_volume_bound)

wave_nibble_bound : (io : ℕ → ℕ) (index : ℕ) → wave_nibble io index ≤ 15
unfolding wave_nibble
wave_nibble_bound io index =
    if-keeps (λ (x : ℕ). x ≤ 15) (index % 2 == 0) (omega arith) (omega arith)

current_wave_sample-Within : (s : Sound) → Within 16 (current_wave_sample s)
unfolding current_wave_sample
current_wave_sample-Within s =
    let w = s.apu.wave in
    let level = low_bits 2 (shr 5 (s.io 0xFF1C)) in
    let sample = wave_nibble s.io (low_bits 5 w.sample_index) in
    let low : sample ≤ 15 = wave_nibble_bound s.io (low_bits 5 w.sample_index) in
    let scaled : ℕ =
      if level == 2 then shr 1 sample else if level == 3 then shr 2 sample else sample in
    let bound : scaled ≤ 15 =
      if-keeps (λ (x : ℕ). x ≤ 15) (level == 2) (omega (arith, low))
        (if-keeps (λ (x : ℕ). x ≤ 15) (level == 3) (omega (arith, low)) low) in
    if-keeps (Within 16)
      (not s.apu.master_enabled || not w.wave_on || not w.wave_dac || (level == 0))
      (nothing-Within 16) (record { not_above = omega (arith, bound); not_below = omega arith })

mix_side-Within :
    (first nr51 volume : ℕ) (ch1 ch2 ch3 ch4 : Signed)
    → volume ≤ 7
    → Within 15 ch1
    → Within 15 ch2
    → Within 16 ch3
    → Within 15 ch4
    → Within 488 (mix_side first nr51 volume ch1 ch2 ch3 ch4)
unfolding mix_side
mix_side-Within first nr51 volume ch1 ch2 ch3 ch4 h p1 p2 p3 p4 =
    scaled_by-Within 61 (volume + 1) 488 _ (omega arith) (
      plus-Within 30 31 _ _
        (plus-Within 15 15 _ _ (chosen-Within 15 _ ch1 p1) (chosen-Within 15 _ ch2 p2))
        (plus-Within 16 15 _ _ (chosen-Within 16 _ ch3 p3) (chosen-Within 15 _ ch4 p4)))

mixed_sample-Within : (s : Sound) → IsValid s → Within 31232 (mixed_sample s)
unfolding mixed_sample
mixed_sample-Within s v =
    let p1 = current_pulse_sample-Within s.apu.master_enabled s.apu.pulse1 v.pulse1_valid in
    let p2 = current_pulse_sample-Within s.apu.master_enabled s.apu.pulse2 v.pulse2_valid in
    let p3 = current_wave_sample-Within s in
    let p4 = current_noise_sample-Within s.apu.master_enabled s.apu.noise v.noise_valid in
    scaled_by-Within 976 32 31232 _ (omega arith) (
      plus-Within 488 488 _ _ (mix_side-Within 4 _ _ _ _ _ _ (omega arith) p1 p2 p3 p4)
        (mix_side-Within 0 _ _ _ _ _ _ (omega arith) p1 p2 p3 p4))

-- On a number that an int16_t holds, the clamp is its sixteen bits.
clamped_lem : (a : Signed) → Within 31232 a → (clamped a + a.down) % 65536 ≡ a.up % 65536
unfolding clamped
clamped_lem a p = ground (arith, p.not_above, p.not_below)

-- After the unit is started, whatever cycles pass and whatever bytes are written to its registers:
-- the mix of the channels lies within 31232 of zero, so the clamp never cuts it off, and the sample
-- holds it modulo 2^16.
pub mix_is_not_clipped :
    (events : List Event) (s : Sound)
    → WritesBytes events
    → (let m = mixed_sample (happen_all events (initialize_apu s)) in
        (m.up ≤ m.down + 31232)
        × (m.down ≤ m.up + 31232)
        × ((clamped m + m.down) % 65536 ≡ m.up % 65536))
mix_is_not_clipped events s w =
    let p = mixed_sample-Within _ (numbers_in_range events s w) in
    (p.not_above, p.not_below, clamped_lem _ p)
