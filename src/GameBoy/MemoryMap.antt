-- ===== src/GameBoy/MemoryMap.antt =====
-- cores/gameboy/GameBoyMemoryMap.cpp: the 64 KiB address space of the CPU.
pub mod State
pub mod Access
pub mod Regions
pub mod CodeView
pub mod Windows
pub mod RamLaws
pub mod Dma
pub mod Boot
pub mod Save
pub mod SaveRoundTrip
mod Tests
