-- ===== src/GameBoy/Apu/Power.antt =====
-- A unit that is switched off is silent until it is switched on.
use proto_time.Base.{
  ℕ, zero, suc, ◌+◌, ◌≤◌, Bool, false, not, ◌||◌, List, [], ◌∷◌, ◌==◌, if◌then◌else◌, between,
  if-keeps, if-split, if_of_true, if_of_false, ◌≡◌, ◌≢◌, refl, ap, ap₂, ◌∙◌, arith,
}
use proto_time.Base.Bits.{low_bits, test_bit, shr}
use proto_time.GameBoy.Apu.State.{Sound, reset_apu, write_io, update_apu_status_register}
use proto_time.GameBoy.Apu.Trigger.{
  trigger_pulse1, trigger_pulse2, trigger_apu_wave, trigger_apu_noise,
}
use proto_time.GameBoy.Apu.Sample.{
  Signed, nothing, current_pulse_sample, current_wave_sample, current_noise_sample, plus, scaled_by,
  chosen, mix_side, mixed_sample,
}
use proto_time.GameBoy.Apu.Step.{sequencer_cycle, tick_timers, step_apu_one_cycle}
use proto_time.GameBoy.Apu.Write.{
  written_pulse1, written_pulse2, written_wave, written_noise, written_register, clear_registers,
  write_nr52, handle_apu_register_write,
}
use proto_time.GameBoy.Apu.Status.{Switches}
use proto_time.GameBoy.Apu.Running.{
  Event, happen, happen_all, emit_samples-Quiet, cycle_passes, register_written,
}

abbrev Off : Sound → Type 0
Off s = s.apu.master_enabled ≡ false

trigger_pulse1-Off : (s : Sound) → Off s → Off (trigger_pulse1 s)
unfolding trigger_pulse1 update_apu_status_register write_io
trigger_pulse1-Off s h = h

trigger_pulse2-Off : (s : Sound) → Off s → Off (trigger_pulse2 s)
unfolding trigger_pulse2 update_apu_status_register write_io
trigger_pulse2-Off s h = h

trigger_apu_wave-Off : (s : Sound) → Off s → Off (trigger_apu_wave s)
unfolding trigger_apu_wave update_apu_status_register write_io
trigger_apu_wave-Off s h = h

trigger_apu_noise-Off : (s : Sound) → Off s → Off (trigger_apu_noise s)
unfolding trigger_apu_noise update_apu_status_register write_io
trigger_apu_noise-Off s h = h

written_pulse1-Off : (address value : ℕ) (s : Sound) → Off s → Off (written_pulse1 address value s)
unfolding written_pulse1
written_pulse1-Off address value s h = if-keeps Off (address == 0xFF10) h (
    if-keeps Off (address == 0xFF11) h (
      if-keeps Off (address == 0xFF12) h (
        if-keeps Off (address == 0xFF13) h
          (if-keeps Off (test_bit 7 value) (trigger_pulse1-Off _ h) h))))

written_pulse2-Off : (address value : ℕ) (s : Sound) → Off s → Off (written_pulse2 address value s)
unfolding written_pulse2
written_pulse2-Off address value s h = if-keeps Off (address == 0xFF16) h (
    if-keeps Off (address == 0xFF17) h (
      if-keeps Off (address == 0xFF18) h
        (if-keeps Off (test_bit 7 value) (trigger_pulse2-Off _ h) h)))

written_wave-Off : (address value : ℕ) (s : Sound) → Off s → Off (written_wave address value s)
unfolding written_wave
written_wave-Off address value s h = if-keeps Off (address == 0xFF1A) h (
    if-keeps Off (address == 0xFF1B) h (
      if-keeps Off (address == 0xFF1C) h (
        if-keeps Off (address == 0xFF1D) h
          (if-keeps Off (test_bit 7 value) (trigger_apu_wave-Off _ h) h))))

written_noise-Off : (address value : ℕ) (s : Sound) → Off s → Off (written_noise address value s)
unfolding written_noise
written_noise-Off address value s h = if-keeps Off (address == 0xFF20) h (
    if-keeps Off (address == 0xFF21) h (
      if-keeps Off (address == 0xFF22) h
        (if-keeps Off (test_bit 7 value) (trigger_apu_noise-Off _ h) h)))

written_register-Off :
    (address value : ℕ) (s : Sound) → Off s → Off (written_register address value s)
unfolding written_register
written_register-Off a value s h =
    if-keeps Off (between 0xFF10 0xFF15 a) (written_pulse1-Off a value s h) (
      if-keeps Off (between 0xFF16 0xFF1A a) (written_pulse2-Off a value s h) (
        if-keeps Off (between 0xFF1A 0xFF1F a) (written_wave-Off a value s h)
          (if-keeps Off (between 0xFF20 0xFF24 a) (written_noise-Off a value s h) h)))

handle_apu_register_write-Off :
    (address value : ℕ) (s : Sound)
    → address ≢ 0xFF26
    → Off s
    → Off (handle_apu_register_write address value s)
unfolding handle_apu_register_write update_apu_status_register write_io
handle_apu_register_write-Off address value s n h = if-keeps Off (between 0xFF30 0xFF40 address) h (
    if-split Off (address == 0xFF26) (λ r. absurd (ground arith))
      (λ r. written_register-Off address value _ h))

step_apu_one_cycle-Off : (s : Sound) → Off s → Off (step_apu_one_cycle s)
unfolding step_apu_one_cycle
step_apu_one_cycle-Off s h =
    let ticked = if s.apu.master_enabled then tick_timers (sequencer_cycle s) else s in
    let same : ticked ≡ s = if_of_false _ h in
    ap (λ (v : Switches). v.on_master) (emit_samples-Quiet ticked).quiet_switches
    ∙ ap (λ (t : Sound). t.apu.master_enabled) same
    ∙ h

clear_registers-Off : (address n : ℕ) (s : Sound) → Off s → Off (clear_registers address n s)
unfolding clear_registers write_io
clear_registers-Off address zero s h = h
clear_registers-Off address (suc n) s h =
    clear_registers-Off (suc address) n _
      (if-keeps Off ((address == 0xFF15) || (address == 0xFF1F)) h h)

write_nr52-Off :
    (value : ℕ) (s : Sound)
    → test_bit 7 value ≡ false
    → Off (handle_apu_register_write 0xFF26 value s)
unfolding handle_apu_register_write update_apu_status_register write_io write_nr52 reset_apu
write_nr52-Off value s h =
    ap (λ (t : Sound). t.apu.master_enabled)
      (if_of_true {b = not (test_bit 7 value)} _ (ground arith))
    ∙ clear_registers-Off 0xFF10 22 (record s { apu = reset_apu false }) refl

mix_side-nothing :
    (first nr51 volume : ℕ) → mix_side first nr51 volume nothing nothing nothing nothing ≡ nothing
unfolding mix_side
mix_side-nothing first nr51 volume =
    let same : ℕ → Signed = λ n. record { up = n; down = n } in
    let none_chosen : (b : Bool) → chosen b nothing ≡ nothing =
      λ b. if-keeps (λ a. a ≡ nothing) b refl refl in
    let pair : (b c : Bool) → plus (chosen b nothing) (chosen c nothing) ≡ nothing =
      λ b c. ap₂ plus (none_chosen b) (none_chosen c) in
    ap (scaled_by (volume + 1)) (ap₂ plus (pair _ _) (pair _ _)) ∙ ap same (omega arith)

mixed_sample-Off : (s : Sound) → Off s → mixed_sample s ≡ nothing
unfolding mixed_sample current_pulse_sample current_wave_sample current_noise_sample
mixed_sample-Off s h =
    let mix = λ (b : Bool). mixed_sample (record s { apu = record s.apu { master_enabled = b } }) in
    ap mix h
    ∙ ap₂ (λ (a b : Signed). scaled_by 32 (plus a b))
        (mix_side-nothing 4 (s.io 0xFF25) (low_bits 3 (shr 4 (s.io 0xFF24))))
        (mix_side-nothing 0 (s.io 0xFF25) (low_bits 3 (s.io 0xFF24)))

-- No event writes NR52.
unfoldable pub LeavesPower : List Event → Type 0
LeavesPower [] = 0 ≤ 0
LeavesPower (cycle_passes ∷ es) = LeavesPower es
LeavesPower (register_written address value ∷ es) = (address ≢ 0xFF26) × LeavesPower es

happen_all-Off :
    (events : List Event) (s : Sound) → LeavesPower events → Off s → Off (happen_all events s)
unfolding happen_all happen LeavesPower
happen_all-Off [] s k h = h
happen_all-Off (cycle_passes ∷ es) s k h =
    happen_all-Off es (step_apu_one_cycle s) k (step_apu_one_cycle-Off s h)
happen_all-Off (register_written a value ∷ es) s k h =
    happen_all-Off es (handle_apu_register_write a value s) k.1
      (handle_apu_register_write-Off a value s k.0 h)

-- After a write to NR52 with its top bit clear, whatever cycles pass and whatever is written to the
-- other registers: the mix is zero, also where a channel is triggered.
pub off_is_silent :
    (value : ℕ) (events : List Event) (s : Sound)
    → test_bit 7 value ≡ false
    → LeavesPower events
    → mixed_sample (happen_all events (handle_apu_register_write 0xFF26 value s)) ≡ nothing
off_is_silent value events s h k =
    mixed_sample-Off _ (happen_all-Off events _ k (write_nr52-Off value s h))
