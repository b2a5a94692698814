-- ===== src/GameGear.antt =====
-- cores/gamegear: the parts of the Game Gear that are modelled.
pub mod Cartridge
pub mod Codemasters
pub mod Rom
pub mod SaveState
pub mod Slots
mod Tests
