-- ===== src/GameBoy/Apu.antt =====
-- cores/gameboy/gameboy.cpp: the sound unit, from `initializeApu` to `handleApuRegisterWrite`.
-- A channel's sample is a signed number, kept as what is added and what is taken away.
pub mod State
pub mod Units
pub mod Trigger
pub mod Sample
pub mod Step
pub mod Write
pub mod Status
pub mod Running
pub mod Valid
pub mod Bounds
pub mod Triggers
pub mod Writes
pub mod Mix
pub mod Power
mod Tests
