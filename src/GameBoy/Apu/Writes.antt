-- ===== src/GameBoy/Apu/Writes.antt =====
-- Writes of bytes to the registers keep the ranges, and with the cycles every sequence of events does.
use proto_time.Base.{
  ℕ, zero, suc, ◌^◌, ◌≤◌, ◌<◌, Bool, false, not, ◌||◌, List, [], ◌∷◌, ◌==◌, between, if-keeps, ◌≡◌,
  refl, arith,
}
use proto_time.Base.Bits.{test_bit, bit_or_bound, bit_and_le}
use Prim.Native.Nat.{bit_and, bit_or}
use proto_time.GameBoy.Apu.State.{Pulse, Wave, Noise, Sound, reset_apu, initialize_apu}
use proto_time.GameBoy.Apu.Step.{step_apu_one_cycle}
use proto_time.GameBoy.Apu.Write.{
  with_noise, written_sweep, written_length, written_envelope, frequency_low, frequency_high,
  written_control, written_noise_envelope, written_pulse1, written_pulse2, written_wave,
  written_noise, written_register, clear_registers, write_nr52, handle_apu_register_write,
}
use proto_time.GameBoy.Apu.Valid.{IsValidPulse, IsValid, pulse_kept}
use proto_time.GameBoy.Apu.Triggers.{
  trigger_pulse1-IsValid, trigger_pulse2-IsValid, trigger_apu_wave-IsValid,
  trigger_apu_noise-IsValid,
}
use proto_time.GameBoy.Apu.Bounds.{
  write_io-IsValid, update_apu_status_register-IsValid, with_pulse1-IsValid, with_pulse2-IsValid,
  with_wave-IsValid, with_noise-IsValid, counters_kept, step_apu_one_cycle-IsValid,
}
use proto_time.GameBoy.Apu.Running.{Event, happen, happen_all, cycle_passes, register_written}

frequency_low_bound : (value f : ℕ) → value < 256 → frequency_low value f ≤ 2047
unfolding frequency_low
frequency_low_bound value f h =
    let low : bit_or (bit_and f 0x0700) value < 2 ^ 11 =
      bit_or_bound 11 _ _ (omega (arith, bit_and_le 11 f 0x0700 (omega arith))) (omega arith) in
    omega (arith, low)

frequency_high_bound : (value f : ℕ) → frequency_high value f ≤ 2047
unfolding frequency_high
frequency_high_bound value f = omega arith

with_frequency :
    (f : ℕ) (p : Pulse) → f ≤ 2047 → IsValidPulse p → IsValidPulse (record p { frequency = f })
with_frequency f p h v = record {
  volume_bound = v.volume_bound;
  frequency_bound = h;
  shadow_bound = v.shadow_bound;
}

written_control-IsValid :
    (value : ℕ) (p : Pulse) → IsValidPulse p → IsValidPulse (written_control value p)
unfolding written_control
written_control-IsValid value p v = record {
  volume_bound = v.volume_bound;
  frequency_bound = frequency_high_bound value p.frequency;
  shadow_bound = v.shadow_bound;
}

written_pulse1-IsValid :
    (address value : ℕ) (s : Sound)
    → value < 256
    → IsValid s
    → IsValid (written_pulse1 address value s)
unfolding written_pulse1 written_sweep written_length written_envelope
written_pulse1-IsValid address value s b v =
    let p = s.apu.pulse1 in
    let put = λ (q : Pulse) (h : IsValidPulse q). with_pulse1-IsValid s q h v in
    let controlled = put _ (written_control-IsValid value p v.pulse1_valid) in
    if-keeps IsValid (address == 0xFF10) (put _ (pulse_kept p _ refl refl refl v.pulse1_valid)) (
      if-keeps IsValid (address == 0xFF11) (put _ (pulse_kept p _ refl refl refl v.pulse1_valid)) (
        if-keeps IsValid (address == 0xFF12) (put _ (pulse_kept p _ refl refl refl v.pulse1_valid))
          (if-keeps IsValid (address == 0xFF13)
            (put _ (with_frequency _ p (frequency_low_bound value p.frequency b) v.pulse1_valid))
            (if-keeps IsValid (test_bit 7 value) (trigger_pulse1-IsValid _ controlled)
              controlled))))

written_pulse2-IsValid :
    (address value : ℕ) (s : Sound)
    → value < 256
    → IsValid s
    → IsValid (written_pulse2 address value s)
unfolding written_pulse2 written_length written_envelope
written_pulse2-IsValid address value s b v =
    let p = s.apu.pulse2 in
    let put = λ (q : Pulse) (h : IsValidPulse q). with_pulse2-IsValid s q h v in
    let controlled = put _ (written_control-IsValid value p v.pulse2_valid) in
    if-keeps IsValid (address == 0xFF16) (put _ (pulse_kept p _ refl refl refl v.pulse2_valid)) (
      if-keeps IsValid (address == 0xFF17) (put _ (pulse_kept p _ refl refl refl v.pulse2_valid)) (
        if-keeps IsValid (address == 0xFF18)
          (put _ (with_frequency _ p (frequency_low_bound value p.frequency b) v.pulse2_valid))
          (if-keeps IsValid (test_bit 7 value) (trigger_pulse2-IsValid _ controlled) controlled)))

written_wave-IsValid :
    (address value : ℕ) (s : Sound)
    → value < 256
    → IsValid s
    → IsValid (written_wave address value s)
unfolding written_wave
written_wave-IsValid address value s b v =
    let w = s.apu.wave in
    let put = λ (q : Wave) (h : q.wave_frequency ≤ 2047). with_wave-IsValid s q h v in
    let controlled = put _ (frequency_high_bound value w.wave_frequency) in
    if-keeps IsValid (address == 0xFF1A) (put _ v.wave_bound) (
      if-keeps IsValid (address == 0xFF1B) (put _ v.wave_bound) (
        if-keeps IsValid (address == 0xFF1C) v (
          if-keeps IsValid (address == 0xFF1D)
            (put _ (frequency_low_bound value w.wave_frequency b))
            (if-keeps IsValid (test_bit 7 value) (trigger_apu_wave-IsValid _ controlled)
              controlled))))

written_noise-IsValid :
    (address value : ℕ) (s : Sound) → IsValid s → IsValid (written_noise address value s)
unfolding written_noise written_noise_envelope
written_noise-IsValid address value s v =
    let n = s.apu.noise in
    let put : (m : Noise)
        → m.noise_volume ≡ n.noise_volume
        → m.lfsr ≡ n.lfsr
        → IsValid (with_noise s m) =
      λ m e f.
        with_noise-IsValid s m (omega (arith, e, v.noise_valid.noise_volume_bound))
          (omega (arith, f, v.noise_valid.lfsr_bound)) v in
    let controlled = put _ refl refl in
    if-keeps IsValid (address == 0xFF20) (put _ refl refl) (
      if-keeps IsValid (address == 0xFF21) (put _ refl refl) (
        if-keeps IsValid (address == 0xFF22) (put _ refl refl) (
          if-keeps IsValid (test_bit 7 value) (trigger_apu_noise-IsValid _ controlled) controlled)))

written_register-IsValid :
    (address value : ℕ) (s : Sound)
    → value < 256
    → IsValid s
    → IsValid (written_register address value s)
unfolding written_register
written_register-IsValid a value s b v =
    if-keeps IsValid (between 0xFF10 0xFF15 a) (written_pulse1-IsValid a value s b v) (
      if-keeps IsValid (between 0xFF16 0xFF1A a) (written_pulse2-IsValid a value s b v) (
        if-keeps IsValid (between 0xFF1A 0xFF1F a) (written_wave-IsValid a value s b v)
          (if-keeps IsValid (between 0xFF20 0xFF24 a) (written_noise-IsValid a value s v) v)))

reset_apu-IsValid : (master : Bool) (s : Sound) → IsValid (record s { apu = reset_apu master })
unfolding reset_apu
reset_apu-IsValid master s = record {
  pulse1_valid = record {
    volume_bound = omega arith;
    frequency_bound = omega arith;
    shadow_bound = omega arith;
  };
  pulse2_valid = record {
    volume_bound = omega arith;
    frequency_bound = omega arith;
    shadow_bound = omega arith;
  };
  wave_bound = omega arith;
  noise_valid = record { noise_volume_bound = omega arith; lfsr_bound = omega arith };
}

clear_registers-IsValid :
    (address n : ℕ) (s : Sound) → IsValid s → IsValid (clear_registers address n s)
unfolding clear_registers
clear_registers-IsValid address zero s v = v
clear_registers-IsValid address (suc n) s v = clear_registers-IsValid (suc address) n _ (
    if-keeps IsValid ((address == 0xFF15) || (address == 0xFF1F)) v
      (write_io-IsValid address 0 s v))

write_nr52-IsValid : (value : ℕ) (s : Sound) → IsValid s → IsValid (write_nr52 value s)
unfolding write_nr52
write_nr52-IsValid value s v =
    if-keeps IsValid (not (test_bit 7 value))
      (clear_registers-IsValid 0xFF10 22 _ (reset_apu-IsValid false s))
      (if-keeps IsValid s.apu.master_enabled v (counters_kept s _ refl refl refl refl v))

handle_apu_register_write-IsValid :
    (address value : ℕ) (s : Sound)
    → value < 256
    → IsValid s
    → IsValid (handle_apu_register_write address value s)
unfolding handle_apu_register_write
handle_apu_register_write-IsValid address value s b v =
    if-keeps IsValid (between 0xFF30 0xFF40 address) (write_io-IsValid address value s v) (
      update_apu_status_register-IsValid _ (
        if-keeps IsValid (address == 0xFF26) (write_nr52-IsValid value s v)
          (written_register-IsValid address value _ b (write_io-IsValid address value s v))))

-- The events write bytes.
unfoldable pub WritesBytes : List Event → Type 0
WritesBytes [] = 0 ≤ 0
WritesBytes (cycle_passes ∷ es) = WritesBytes es
WritesBytes (register_written address value ∷ es) = (value < 256) × WritesBytes es

pub happen_all-IsValid :
    (events : List Event) (s : Sound)
    → WritesBytes events
    → IsValid s
    → IsValid (happen_all events s)
unfolding happen_all happen WritesBytes
happen_all-IsValid [] s w v = v
happen_all-IsValid (cycle_passes ∷ es) s w v =
    happen_all-IsValid es (step_apu_one_cycle s) w (step_apu_one_cycle-IsValid s v)
happen_all-IsValid (register_written a value ∷ es) s w v =
    happen_all-IsValid es (handle_apu_register_write a value s) w.1
      (handle_apu_register_write-IsValid a value s w.0 v)

-- After the unit is started, whatever cycles pass and whatever bytes are written to its registers:
-- the volumes have four bits, the frequencies and the sweep's shadow frequency eleven, and the
-- noise's shift register fifteen.
pub numbers_in_range :
    (events : List Event) (s : Sound)
    → WritesBytes events
    → IsValid (happen_all events (initialize_apu s))
unfolding initialize_apu
numbers_in_range events s w =
    happen_all-IsValid events _ w (update_apu_status_register-IsValid _ (reset_apu-IsValid _ s))
