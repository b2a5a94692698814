-- ===== src/GameBoy/Cpu.antt =====
-- cores/gameboy/gameboy.cpp: the LR35902.
pub mod Registers
pub mod Cycles
pub mod Dispatch
pub mod Switch
pub mod Alu
pub mod Microcode
pub mod Execute
pub mod Fast
pub mod FastCases
mod Opcodes
mod Agreement
pub mod FastPath
pub mod Fetch
pub mod Decimal
pub mod Decoding
pub mod Valid
pub mod Invariant
pub mod Running
pub mod Stack
pub mod Interrupts
pub mod Fetched
mod Tests
