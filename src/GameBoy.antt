-- ===== src/GameBoy.antt =====
-- The Game Boy core: cores/gameboy.
pub mod Cartridge
pub mod Mapper
pub mod MemoryMap
pub mod Cpu
pub mod Clock
pub mod Apu
pub mod Ports
