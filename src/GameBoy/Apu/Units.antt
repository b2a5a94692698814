-- ===== src/GameBoy/Apu/Units.antt =====
-- cores/gameboy/gameboy.cpp: envelopes, length counters, the sweep and the frame sequencer.
use proto_time.Base.{
  ℕ, ◌+◌, ◌-◌, ◌%◌, Bool, false, not, ◌&&◌, ◌||◌, ltb, ◌==◌, if◌then◌else◌, length,
}
use proto_time.Base.Bits.{low_bits, shr}
use proto_time.GameBoy.Apu.State.{
  Pulse, Wave, Noise, Apu, Sound, pulse_timer_period, update_apu_status_register,
}

-- The timer and the volume that a tick leaves.
unfoldable pub tick_apu_envelope : Bool → Bool → ℕ → ℕ → ℕ → ℕ × ℕ
tick_apu_envelope on increase period timer volume =
    if not on || (period == 0)
    then (timer, volume)
    else if not (timer - 1 == 0)
    then (timer - 1, volume)
    else if increase
    then (period, (if ltb volume 15 then volume + 1 else volume))
    else (period, volume - 1)

unfoldable pub tick_pulse_envelope : Pulse → Pulse
tick_pulse_envelope p =
    let ticked =
      tick_apu_envelope p.enabled p.envelope_increase p.envelope_period p.envelope_timer p.volume in
    record p { envelope_timer = ticked.0; volume = ticked.1 }

unfoldable pub tick_noise_envelope : Noise → Noise
tick_noise_envelope n =
    let ticked =
      tick_apu_envelope n.noise_on n.noise_increase n.noise_period n.noise_envelope_timer
        n.noise_volume in
    record n { noise_envelope_timer = ticked.0; noise_volume = ticked.1 }

-- Whether a length counter counts, and whether it runs out in this tick.
abbrev pub counts : Bool → Bool → ℕ → Bool
counts on length_on length = (on && length_on) && ltb 0 length

abbrev pub runs_out : Bool → Bool → ℕ → Bool
runs_out on length_on length = counts on length_on length && (length - 1 == 0)

unfoldable pub tick_pulse_length : Pulse → Pulse
tick_pulse_length p =
    if runs_out p.enabled p.length_enabled p.length_counter
    then record p { length_counter = 0; enabled = false }
    else if counts p.enabled p.length_enabled p.length_counter
    then record p { length_counter = p.length_counter - 1 }
    else p

unfoldable pub tick_wave_length : Wave → Wave
tick_wave_length w =
    if runs_out w.wave_on w.wave_length_enabled w.wave_length
    then record w { wave_length = 0; wave_on = false }
    else if counts w.wave_on w.wave_length_enabled w.wave_length
    then record w { wave_length = w.wave_length - 1 }
    else w

unfoldable pub tick_noise_length : Noise → Noise
tick_noise_length n =
    if runs_out n.noise_on n.noise_length_enabled n.noise_length
    then record n { noise_length = 0; noise_on = false }
    else if counts n.noise_on n.noise_length_enabled n.noise_length
    then record n { noise_length = n.noise_length - 1 }
    else n

-- `changed` of `tickApuLengthCounters`.
unfoldable pub lengths_run_out : Apu → Bool
lengths_run_out a =
    runs_out a.pulse1.enabled a.pulse1.length_enabled a.pulse1.length_counter
    || runs_out a.pulse2.enabled a.pulse2.length_enabled a.pulse2.length_counter
    || runs_out a.wave.wave_on a.wave.wave_length_enabled a.wave.wave_length
    || runs_out a.noise.noise_on a.noise.noise_length_enabled a.noise.noise_length

unfoldable pub ticked_lengths : Apu → Apu
ticked_lengths a = record a {
  pulse1 = tick_pulse_length a.pulse1;
  pulse2 = tick_pulse_length a.pulse2;
  wave = tick_wave_length a.wave;
  noise = tick_noise_length a.noise;
}

unfoldable pub tick_apu_length_counters : Sound → Sound
tick_apu_length_counters s =
    let t = record s { apu = ticked_lengths s.apu } in
    if lengths_run_out s.apu then update_apu_status_register t else t

-- The frequency that the sweep goes to, and whether it leaves the range: below 0 or above 2047.
abbrev pub swept_frequency : Pulse → ℕ
swept_frequency p =
    let delta = shr p.sweep_shift p.shadow_frequency in
    if p.sweep_negate then p.shadow_frequency - delta else p.shadow_frequency + delta

abbrev pub sweep_out_of_range : Pulse → Bool
sweep_out_of_range p =
    (p.sweep_negate && ltb p.shadow_frequency (shr p.sweep_shift p.shadow_frequency))
    || ltb 2047 (swept_frequency p)

abbrev pub disabled : Pulse → Pulse
disabled p = record p { enabled = false }

-- The new frequency, and the second test for what the next sweep would reach.
unfoldable pub sweep_to : ℕ → Pulse → Pulse
sweep_to next p =
    let q = record p {
      shadow_frequency = next;
      frequency = next;
      timer = pulse_timer_period next;
    } in
    if not p.sweep_negate && ltb 2047 (low_bits 16 (next + shr p.sweep_shift next))
    then disabled q
    else q

abbrev pub with_pulse1 : Sound → Pulse → Sound
with_pulse1 s p = record s { apu = record s.apu { pulse1 = p } }

-- The sweep at the end of its timer, which has been loaded anew.
unfoldable pub sweep_now : Sound → Pulse → Sound
sweep_now s p =
    if p.sweep_period == 0
    then with_pulse1 s p
    else if sweep_out_of_range p
    then update_apu_status_register (with_pulse1 s (disabled p))
    else if p.sweep_shift == 0
    then with_pulse1 s p
    else update_apu_status_register (with_pulse1 s (sweep_to (low_bits 16 (swept_frequency p)) p))

unfoldable pub tick_apu_sweep : Sound → Sound
tick_apu_sweep s =
    let p = s.apu.pulse1 in
    if not p.has_sweep || not p.enabled || not p.sweep_enabled
    then s
    else if not (p.sweep_timer - 1 == 0)
    then with_pulse1 s (record p { sweep_timer = p.sweep_timer - 1 })
    else sweep_now s (record p { sweep_timer = if p.sweep_period == 0 then 8 else p.sweep_period })

unfoldable pub ticked_envelopes : Apu → Apu
ticked_envelopes a = record a {
  pulse1 = tick_pulse_envelope a.pulse1;
  pulse2 = tick_pulse_envelope a.pulse2;
  noise = tick_noise_envelope a.noise;
}

unfoldable pub tick_envelopes : Sound → Sound
tick_envelopes s = record s { apu = ticked_envelopes s.apu }

unfoldable pub next_sequencer_step : Sound → Sound
next_sequencer_step s = record s {
  apu = record s.apu { frame_sequencer_step = low_bits 3 (s.apu.frame_sequencer_step + 1) };
}

unfoldable pub step_apu_frame_sequencer : Sound → Sound
step_apu_frame_sequencer s =
    let step = s.apu.frame_sequencer_step in
    let lengths = if step % 2 == 0 then tick_apu_length_counters s else s in
    let sweep = if (step == 2) || (step == 6) then tick_apu_sweep lengths else lengths in
    let envelopes = if step == 7 then tick_envelopes sweep else sweep in
    next_sequencer_step envelopes
