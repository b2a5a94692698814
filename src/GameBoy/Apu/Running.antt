-- ===== src/GameBoy/Apu/Running.antt =====
-- What every sequence of cycles and register writes keeps.
use proto_time.Base.{
  ℕ, zero, suc, ◌-◌, ◌/◌, ◌≤◌, ◌<◌, false, List, [], ◌∷◌, leb, ◌==◌, if◌then◌else◌, between,
  if-keeps, if-split, if_of_false, ◌≡◌, refl, ◌∙◌, arith,
}
use proto_time.GameBoy.Apu.State.{Pulse, Wave, Noise, Sound, apu_status, write_io, initialize_apu}
use proto_time.GameBoy.Apu.Sample.{push_apu_sample}
use proto_time.GameBoy.Apu.Step.{
  sequencer_cycle, tick_pulse_timer, tick_wave_timer, tick_noise_timer, tick_timers,
  with_accumulator, push_due, emit_samples, step_apu_one_cycle,
}
use proto_time.GameBoy.Apu.Write.{handle_apu_register_write}
use proto_time.GameBoy.Apu.Status.{
  InSync, update_apu_status_register-InSync, Quiet, Quiet-InSync, Quiet-refl, Quiet-trans,
  step_apu_frame_sequencer-InSync,
}

-- What happens to the unit: a cycle passes, or the processor writes a register.
pub data Event : Type 0 where
  cycle_passes : Event
  register_written : ℕ → ℕ → Event

unfoldable pub happen : Event → Sound → Sound
happen cycle_passes s = step_apu_one_cycle s
happen (register_written address value) s = handle_apu_register_write address value s

unfoldable pub happen_all : List Event → Sound → Sound
happen_all [] s = s
happen_all (e ∷ es) s = happen_all es (happen e s)

sequencer_cycle-InSync : (s : Sound) → InSync s → InSync (sequencer_cycle s)
unfolding sequencer_cycle
sequencer_cycle-InSync s h =
    let at : ℕ → Sound = λ n. record s { apu = record s.apu { frame_sequencer_counter = n } } in
    let moved : (n : ℕ) → InSync (at n) =
      λ n. Quiet-InSync s (at n) (record { quiet_io = refl; quiet_switches = refl }) h in
    if-keeps InSync _ (step_apu_frame_sequencer-InSync (at 0) (moved 0)) (moved _)

pulse_timer_quiet : (p : Pulse) → (tick_pulse_timer p).enabled ≡ p.enabled
unfolding tick_pulse_timer
pulse_timer_quiet p = if-keeps (λ (q : Pulse). q.enabled ≡ p.enabled) (p.timer - 1 == 0) refl refl

wave_timer_quiet : (w : Wave) → (tick_wave_timer w).wave_on ≡ w.wave_on
unfolding tick_wave_timer
wave_timer_quiet w =
    if-keeps (λ (v : Wave). v.wave_on ≡ w.wave_on) (w.wave_timer - 1 == 0) refl refl

noise_timer_quiet : (n : Noise) → (tick_noise_timer n).noise_on ≡ n.noise_on
unfolding tick_noise_timer
noise_timer_quiet n =
    if-keeps (λ (m : Noise). m.noise_on ≡ n.noise_on) (n.noise_timer - 1 == 0) refl refl

tick_timers-Quiet : (s : Sound) → Quiet s (tick_timers s)
unfolding tick_timers
tick_timers-Quiet s = record {
  quiet_io = refl;
  quiet_switches = λ i. record {
    on_master = s.apu.master_enabled;
    on_pulse1 = pulse_timer_quiet s.apu.pulse1 i;
    on_pulse2 = pulse_timer_quiet s.apu.pulse2 i;
    on_wave = wave_timer_quiet s.apu.wave i;
    on_noise = noise_timer_quiet s.apu.noise i;
  };
}

push_apu_sample-Quiet : (s : Sound) → Quiet s (push_apu_sample s)
unfolding push_apu_sample
push_apu_sample-Quiet s = record { quiet_io = refl; quiet_switches = refl }

push_due-Quiet : (fuel : ℕ) (s : Sound) → Quiet s (push_due fuel s)
unfolding push_due
push_due-Quiet zero s = Quiet-refl s
push_due-Quiet (suc fuel) s =
    let counted = with_accumulator (s.apu.sample_accumulator - 4194304) s in
    if-keeps (Quiet s) (leb 4194304 s.apu.sample_accumulator)
      (Quiet-trans s counted _ (record { quiet_io = refl; quiet_switches = refl })
        (Quiet-trans counted _ _ (push_apu_sample-Quiet counted)
          (push_due-Quiet fuel (push_apu_sample counted))))
      (Quiet-refl s)

pub emit_samples-Quiet : (s : Sound) → Quiet s (emit_samples s)
unfolding emit_samples
emit_samples-Quiet s =
    Quiet-trans s _ _ (record { quiet_io = refl; quiet_switches = refl }) (push_due-Quiet _ _)

push_due_ends :
    (fuel : ℕ) (s : Sound)
    → s.apu.sample_accumulator / 4194304 ≤ fuel
    → (push_due fuel s).apu.sample_accumulator < 4194304
unfolding push_due push_apu_sample
push_due_ends zero s h = omega arith
push_due_ends (suc fuel) s h =
    if-split (λ (t : Sound). t.apu.sample_accumulator < 4194304)
      (leb 4194304 s.apu.sample_accumulator) (λ r. push_due_ends fuel _ (ground arith))
      (λ r. ground arith)

-- The fuel is enough: the loop ends with no sample due.
emit_samples_ends : (s : Sound) → (emit_samples s).apu.sample_accumulator < 4194304
unfolding emit_samples
emit_samples_ends s = push_due_ends _ _ (omega arith)

step_apu_one_cycle-InSync : (s : Sound) → InSync s → InSync (step_apu_one_cycle s)
unfolding step_apu_one_cycle
step_apu_one_cycle-InSync s h =
    let ticked = if s.apu.master_enabled then tick_timers (sequencer_cycle s) else s in
    let kept : InSync ticked =
      if-keeps InSync s.apu.master_enabled
        (Quiet-InSync _ _ (tick_timers-Quiet (sequencer_cycle s)) (sequencer_cycle-InSync s h)) h in
    Quiet-InSync ticked _ (emit_samples-Quiet ticked) kept

write_io-InSync :
    (address value : ℕ) (s : Sound)
    → (0xFF26 == address) ≡ false
    → InSync s
    → InSync (write_io address value s)
unfolding InSync write_io
write_io-InSync address value s n h = if_of_false _ n ∙ h

handle_apu_register_write-InSync :
    (address value : ℕ) (s : Sound) → InSync s → InSync (handle_apu_register_write address value s)
unfolding handle_apu_register_write
handle_apu_register_write-InSync address value s h =
    if-split InSync (between 0xFF30 0xFF40 address)
      (λ r. write_io-InSync address value s (ground arith) h)
      (λ r. update_apu_status_register-InSync _)

happen_all-InSync : (events : List Event) (s : Sound) → InSync s → InSync (happen_all events s)
unfolding happen_all happen
happen_all-InSync [] s h = h
happen_all-InSync (cycle_passes ∷ es) s h =
    happen_all-InSync es (step_apu_one_cycle s) (step_apu_one_cycle-InSync s h)
happen_all-InSync (register_written a v ∷ es) s h =
    happen_all-InSync es (handle_apu_register_write a v s)
      (handle_apu_register_write-InSync a v s h)

-- After the unit is started, whatever cycles pass and whatever is written to its registers: NR52
-- reads as the master switch and the four channels that are on, with its unused bits set.
pub status_is_current :
    (events : List Event) (s : Sound)
    → (happen_all events (initialize_apu s)).io 0xFF26
      ≡ apu_status (happen_all events (initialize_apu s)).apu
unfolding InSync initialize_apu
status_is_current events s =
    happen_all-InSync events (initialize_apu s) (update_apu_status_register-InSync _)
