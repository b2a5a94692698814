-- ===== src/GameBoy/Apu/Tests.antt =====
-- Runs of the sound unit.
use proto_time.Base.{
  ◌+◌, ◌%◌, ◌≤◌, true, false, List, [], ◌∷◌, ◌==◌, if◌then◌else◌, ◌≡◌, refl, arith,
}
use proto_time.GameBoy.Apu.Running.{
  Event, happen_all, status_is_current, cycle_passes, register_written,
}
use proto_time.GameBoy.Apu.Writes.{WritesBytes, numbers_in_range}
use proto_time.GameBoy.Apu.Mix.{mix_is_not_clipped}
use proto_time.GameBoy.Apu.Power.{LeavesPower, off_is_silent}
use proto_time.GameBoy.Apu.Valid.{IsValid}
use proto_time.GameBoy.Apu.State.{
  Sound, reset_apu, channel_bits, apu_status, write_io, update_apu_status_register, initialize_apu,
}
use proto_time.GameBoy.Apu.Trigger.{trigger_pulse1, triggered_pulse, triggered_sweep, started_sweep}
use proto_time.GameBoy.Apu.Sample.{nothing, mixed_sample, clamped}
use proto_time.GameBoy.Apu.Step.{next_lfsr}
use proto_time.GameBoy.Apu.Write.{
  written_envelope, frequency_high, written_control, written_pulse1, written_register,
  handle_apu_register_write,
}

abbrev fresh : Sound
fresh = initialize_apu (record { apu = reset_apu true; io = λ a. if a == 0xFF26 then 0xF1 else 0 })

-- Volume 15 at 1 KiHz, started by NR14, with both sides on.
abbrev playing : Sound
playing = handle_apu_register_write 0xFF14 0x87 (
    handle_apu_register_write 0xFF12 0xF3
      (handle_apu_register_write 0xFF24 0x77 (handle_apu_register_write 0xFF25 0x11 fresh)))

status_on : playing.io 0xFF26 ≡ 0xF1
unfolding handle_apu_register_write written_register written_pulse1 written_control written_envelope
    frequency_high write_io update_apu_status_register apu_status channel_bits initialize_apu
    reset_apu trigger_pulse1 triggered_pulse triggered_sweep started_sweep
status_on = refl

lfsr_bit : next_lfsr false 0x7FFF ≡ 0x3FFF
unfolding next_lfsr
lfsr_bit = refl

-- The first channel sounds for some cycles, and another write changes its volume.
abbrev events : List Event
events =
    register_written 0xFF25 0x11
    ∷ register_written 0xFF24 0x77
    ∷ register_written 0xFF12 0xF3
    ∷ register_written 0xFF14 0x87
    ∷ cycle_passes
    ∷ cycle_passes
    ∷ register_written 0xFF12 0x08
    ∷ []

abbrev start : Sound
start = record { apu = reset_apu true; io = λ a. if a == 0xFF26 then 0xF1 else 0 }

events-WritesBytes : WritesBytes events
unfolding WritesBytes
events-WritesBytes =
    (omega arith, (omega arith, (omega arith, (omega arith, (omega arith, omega arith)))))

events-LeavesPower : LeavesPower events
unfolding LeavesPower
events-LeavesPower = (
  (λ h. omega arith),
  (
    (λ h. omega arith),
    ((λ h. omega arith), ((λ h. omega arith), ((λ h. omega arith), omega arith))),
  ),
)

status_is_current_example :
    (happen_all events (initialize_apu start)).io 0xFF26
    ≡ apu_status (happen_all events (initialize_apu start)).apu
status_is_current_example = status_is_current events start

numbers_in_range_example : IsValid (happen_all events (initialize_apu start))
numbers_in_range_example = numbers_in_range events start events-WritesBytes

mix_is_not_clipped_example :
    let m = mixed_sample (happen_all events (initialize_apu start)) in
    (m.up ≤ m.down + 31232)
    × (m.down ≤ m.up + 31232)
    × ((clamped m + m.down) % 65536 ≡ m.up % 65536)
mix_is_not_clipped_example = mix_is_not_clipped events start events-WritesBytes

off_is_silent_example :
    mixed_sample (happen_all events (handle_apu_register_write 0xFF26 0x7F start)) ≡ nothing
off_is_silent_example = off_is_silent 0x7F events start refl events-LeavesPower
