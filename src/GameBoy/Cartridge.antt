-- ===== src/GameBoy/Cartridge.antt =====
-- cores/gameboy/cartridge/GameBoyCartridge.hpp: the header, banking, external RAM and saved state.
pub mod Header
pub mod State
pub mod Banking
pub mod Control
pub mod Ram
pub mod Save
pub mod Valid
pub mod BankBounds
pub mod Notify
pub mod RamLaws
pub mod SaveRoundTrip
mod Tests
