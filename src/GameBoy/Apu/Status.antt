-- ===== src/GameBoy/Apu/Status.antt =====
-- NR52 tells which channels are on.
use proto_time.Base.{
  ℕ, ◌+◌, ◌-◌, ◌%◌, Bool, true, false, not, ◌||◌, ◌==◌, if◌then◌else◌, if-keeps, if-split,
  if_of_false, ◌≡◌, refl, sym, ap, ◌∙◌, arith,
}
use proto_time.GameBoy.Apu.State.{
  Pulse, Wave, Noise, Apu, Sound, channel_bits, apu_status, write_io, update_apu_status_register,
}
use proto_time.GameBoy.Apu.Units.{
  tick_pulse_envelope, tick_noise_envelope, runs_out, tick_pulse_length, tick_wave_length,
  tick_noise_length, lengths_run_out, ticked_lengths, tick_apu_length_counters, sweep_out_of_range,
  with_pulse1, sweep_now, tick_apu_sweep, ticked_envelopes, tick_envelopes, next_sequencer_step,
  step_apu_frame_sequencer,
}

-- NR52 reads as the status of the unit.
unfoldable pub InSync : Sound → Type 0
InSync s = s.io 0xFF26 ≡ apu_status s.apu

pub update_apu_status_register-InSync : (s : Sound) → InSync (update_apu_status_register s)
unfolding InSync update_apu_status_register write_io apu_status channel_bits
update_apu_status_register-InSync s = refl

-- What the status depends on.
pub record Switches : Type 0 where
  pub on_master : Bool
  pub on_pulse1 : Bool
  pub on_pulse2 : Bool
  pub on_wave : Bool
  pub on_noise : Bool

abbrev pub switches : Apu → Switches
switches a = record {
  on_master = a.master_enabled;
  on_pulse1 = a.pulse1.enabled;
  on_pulse2 = a.pulse2.enabled;
  on_wave = a.wave.wave_on;
  on_noise = a.noise.noise_on;
}

unfoldable status_of : Switches → ℕ
status_of v =
    (if v.on_master then 0x80 else 0)
    + 0x70
    + ((if v.on_pulse1 then 1 else 0)
        + (if v.on_pulse2 then 2 else 0)
        + (if v.on_wave then 4 else 0)
        + (if v.on_noise then 8 else 0))

apu_status-switches : (a : Apu) → apu_status a ≡ status_of (switches a)
unfolding apu_status channel_bits status_of
apu_status-switches a = refl

-- A part that switches nothing and leaves the registers alone.
pub record Quiet (s t : Sound) : Type 0 where
  pub quiet_io : t.io 0xFF26 ≡ s.io 0xFF26
  pub quiet_switches : switches t.apu ≡ switches s.apu

pub Quiet-InSync : (s t : Sound) → Quiet s t → InSync s → InSync t
unfolding InSync
Quiet-InSync s t q h =
    q.quiet_io
    ∙ h
    ∙ apu_status-switches s.apu
    ∙ ap status_of (sym q.quiet_switches)
    ∙ sym (apu_status-switches t.apu)

pub Quiet-refl : (s : Sound) → Quiet s s
Quiet-refl s = record { quiet_io = refl; quiet_switches = refl }

pub Quiet-trans : (s t u : Sound) → Quiet s t → Quiet t u → Quiet s u
Quiet-trans s t u p q = record {
  quiet_io = q.quiet_io ∙ p.quiet_io;
  quiet_switches = q.quiet_switches ∙ p.quiet_switches;
}

-- A length counter that does not run out switches nothing.
pulse_length_quiet :
    (p : Pulse)
    → runs_out p.enabled p.length_enabled p.length_counter ≡ false
    → (tick_pulse_length p).enabled ≡ p.enabled
unfolding tick_pulse_length
pulse_length_quiet p h =
    ap (λ (q : Pulse). q.enabled) (if_of_false _ h)
    ∙ if-keeps (λ (q : Pulse). q.enabled ≡ p.enabled) _ refl refl

wave_length_quiet :
    (w : Wave)
    → runs_out w.wave_on w.wave_length_enabled w.wave_length ≡ false
    → (tick_wave_length w).wave_on ≡ w.wave_on
unfolding tick_wave_length
wave_length_quiet w h =
    ap (λ (q : Wave). q.wave_on) (if_of_false _ h)
    ∙ if-keeps (λ (q : Wave). q.wave_on ≡ w.wave_on) _ refl refl

noise_length_quiet :
    (n : Noise)
    → runs_out n.noise_on n.noise_length_enabled n.noise_length ≡ false
    → (tick_noise_length n).noise_on ≡ n.noise_on
unfolding tick_noise_length
noise_length_quiet n h =
    ap (λ (q : Noise). q.noise_on) (if_of_false _ h)
    ∙ if-keeps (λ (q : Noise). q.noise_on ≡ n.noise_on) _ refl refl

or_false :
    (a b c d : Bool)
    → (a || b || c || d) ≡ false
    → (a ≡ false) × (b ≡ false) × (c ≡ false) × (d ≡ false)
or_false true b c d h = ground arith
or_false false true c d h = ground arith
or_false false false true d h = ground arith
or_false false false false d h = (refl, refl, refl, h)

ticked_lengths-Quiet :
    (s : Sound) → lengths_run_out s.apu ≡ false → Quiet s (record s { apu = ticked_lengths s.apu })
unfolding lengths_run_out ticked_lengths
ticked_lengths-Quiet s h =
    let all = or_false _ _ _ _ h in
    record {
      quiet_io = refl;
      quiet_switches = λ i. record {
        on_master = s.apu.master_enabled;
        on_pulse1 = pulse_length_quiet s.apu.pulse1 all.0 i;
        on_pulse2 = pulse_length_quiet s.apu.pulse2 all.1 i;
        on_wave = wave_length_quiet s.apu.wave all.2 i;
        on_noise = noise_length_quiet s.apu.noise all.3 i;
      };
    }

tick_apu_length_counters-InSync : (s : Sound) → InSync s → InSync (tick_apu_length_counters s)
unfolding tick_apu_length_counters
tick_apu_length_counters-InSync s h =
    if-split InSync (lengths_run_out s.apu) (λ r. update_apu_status_register-InSync _)
      (λ r. Quiet-InSync s _ (ticked_lengths-Quiet s r) h)

with_pulse1-Quiet :
    (s : Sound) (p : Pulse) → p.enabled ≡ s.apu.pulse1.enabled → Quiet s (with_pulse1 s p)
with_pulse1-Quiet s p h = record {
  quiet_io = refl;
  quiet_switches = ap (λ b. record (switches s.apu) { on_pulse1 = b }) h;
}

sweep_now-InSync :
    (s : Sound) (p : Pulse) → p.enabled ≡ s.apu.pulse1.enabled → InSync s → InSync (sweep_now s p)
unfolding sweep_now
sweep_now-InSync s p e h =
    let kept = Quiet-InSync s _ (with_pulse1-Quiet s p e) h in
    if-keeps InSync (p.sweep_period == 0) kept (
      if-keeps InSync (sweep_out_of_range p) (update_apu_status_register-InSync _)
        (if-keeps InSync (p.sweep_shift == 0) kept (update_apu_status_register-InSync _)))

tick_apu_sweep-InSync : (s : Sound) → InSync s → InSync (tick_apu_sweep s)
unfolding tick_apu_sweep
tick_apu_sweep-InSync s h =
    let p = s.apu.pulse1 in
    let timed : ℕ → Pulse = λ n. record p { sweep_timer = n } in
    let kept = Quiet-InSync s _ (with_pulse1-Quiet s (timed (p.sweep_timer - 1)) refl) h in
    let loaded = if p.sweep_period == 0 then 8 else p.sweep_period in
    if-keeps InSync (not p.has_sweep || not p.enabled || not p.sweep_enabled) h (
      if-keeps InSync (not (p.sweep_timer - 1 == 0)) kept
        (sweep_now-InSync s (timed loaded) refl h))

tick_envelopes-Quiet : (s : Sound) → Quiet s (tick_envelopes s)
unfolding tick_envelopes ticked_envelopes tick_pulse_envelope tick_noise_envelope
tick_envelopes-Quiet s = record { quiet_io = refl; quiet_switches = refl }

pub step_apu_frame_sequencer-InSync : (s : Sound) → InSync s → InSync (step_apu_frame_sequencer s)
unfolding step_apu_frame_sequencer next_sequencer_step
step_apu_frame_sequencer-InSync s h =
    let step = s.apu.frame_sequencer_step in
    let lengths = if step % 2 == 0 then tick_apu_length_counters s else s in
    let swept = if (step == 2) || (step == 6) then tick_apu_sweep lengths else lengths in
    let after_lengths : InSync lengths =
      if-keeps InSync (step % 2 == 0) (tick_apu_length_counters-InSync s h) h in
    let after_sweep : InSync swept =
      if-keeps InSync _ (tick_apu_sweep-InSync lengths after_lengths) after_lengths in
    let after_envelopes =
      if-keeps InSync (step == 7) (Quiet-InSync swept _ (tick_envelopes-Quiet swept) after_sweep)
        after_sweep in
    Quiet-InSync _ _ (record { quiet_io = refl; quiet_switches = refl }) after_envelopes
