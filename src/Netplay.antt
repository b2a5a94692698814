-- ===== src/Netplay.antt =====
-- machine/plugins/input/netplay: the lockstep protocol between two machines.
pub mod Types
pub mod Engine
pub mod Valid
pub mod Invariant
pub mod Agreement
pub mod Progress
pub mod Faults
pub mod Wire
pub mod RoundTrip
pub mod Layout
pub mod Entries
pub mod Arrivals
pub mod Sealed
mod Tests
