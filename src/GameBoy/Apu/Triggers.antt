-- ===== src/GameBoy/Apu/Triggers.antt =====
-- A trigger keeps the ranges of the channels' numbers.
use proto_time.Base.{ℕ, Bool, not, ◌&&◌, ◌==◌, if-keeps, refl, arith}
use proto_time.GameBoy.Apu.State.{Pulse, Sound}
use proto_time.GameBoy.Apu.Units.{sweep_out_of_range, disabled}
use proto_time.GameBoy.Apu.Trigger.{
  triggered_pulse, started_sweep, triggered_sweep, trigger_pulse1, trigger_pulse2, triggered_wave,
  trigger_apu_wave, triggered_noise, trigger_apu_noise,
}
use proto_time.GameBoy.Apu.Valid.{IsValidPulse, IsValid, pulse_kept}
use proto_time.GameBoy.Apu.Bounds.{
  update_apu_status_register-IsValid, with_pulse1-IsValid, with_pulse2-IsValid, with_wave-IsValid,
  with_noise-IsValid,
}

triggered_pulse-IsValid :
    (master : Bool) (control envelope : ℕ) (p : Pulse)
    → IsValidPulse p
    → IsValidPulse (triggered_pulse master control envelope p)
unfolding triggered_pulse
triggered_pulse-IsValid master control envelope p v = record {
  volume_bound = omega arith;
  frequency_bound = v.frequency_bound;
  shadow_bound = v.shadow_bound;
}

triggered_sweep-IsValid :
    (sweep : ℕ) (p : Pulse) → IsValidPulse p → IsValidPulse (triggered_sweep sweep p)
unfolding triggered_sweep started_sweep
triggered_sweep-IsValid sweep p v =
    let q = started_sweep sweep p in
    let started : IsValidPulse q = record {
      volume_bound = v.volume_bound;
      frequency_bound = v.frequency_bound;
      shadow_bound = v.frequency_bound;
    } in
    if-keeps IsValidPulse (not (q.sweep_shift == 0) && sweep_out_of_range q)
      (pulse_kept q (disabled q) refl refl refl started) started

pub trigger_pulse1-IsValid : (s : Sound) → IsValid s → IsValid (trigger_pulse1 s)
unfolding trigger_pulse1
trigger_pulse1-IsValid s v = update_apu_status_register-IsValid _ (
    with_pulse1-IsValid s _
      (triggered_sweep-IsValid _ _ (triggered_pulse-IsValid _ _ _ _ v.pulse1_valid)) v)

pub trigger_pulse2-IsValid : (s : Sound) → IsValid s → IsValid (trigger_pulse2 s)
unfolding trigger_pulse2
trigger_pulse2-IsValid s v =
    update_apu_status_register-IsValid _
      (with_pulse2-IsValid s _ (triggered_pulse-IsValid _ _ _ _ v.pulse2_valid) v)

pub trigger_apu_wave-IsValid : (s : Sound) → IsValid s → IsValid (trigger_apu_wave s)
unfolding trigger_apu_wave triggered_wave
trigger_apu_wave-IsValid s v =
    update_apu_status_register-IsValid _ (with_wave-IsValid s _ v.wave_bound v)

pub trigger_apu_noise-IsValid : (s : Sound) → IsValid s → IsValid (trigger_apu_noise s)
unfolding trigger_apu_noise triggered_noise
trigger_apu_noise-IsValid s v =
    update_apu_status_register-IsValid _ (with_noise-IsValid s _ (omega arith) (omega arith) v)
