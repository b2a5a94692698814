-- ===== src/Lib.antt =====
-- Time, the emulator: a model of the parts of its cores that hold and route memory, of the processor
-- of the Game Boy with the hardware that runs beside it, and of the lockstep protocol by which two
-- machines play together.
--
-- The program. The CPU of a Game Boy sees 64 KiB through `GameBoyMemoryMap`. The map owns video RAM,
-- work RAM, OAM, the I/O registers, high RAM and the boot ROM, and shows two windows of 16 KiB of the
-- cartridge's ROM. Two objects model the cartridge. `GameBoyMapper` receives the writes below 0x8000
-- and chooses the banks of the two windows, which the map copies anew when the mapper reports a change.
-- `GameBoyCartridge` answers for external RAM and the clock, and keeps the battery save and the state.
-- The processor, `LR3592_DMG`, fetches the bytes of one instruction, unless it is stopped or enters an
-- interrupt, and runs them in one of two ways: `decodeInto` and `execute` go by a table of microcode,
-- `tryFastExecuteBytes` has a case for each group of opcodes. Either ends in `retireInstruction`, which
-- runs the DMA, the serial port, the timer and the LCD for the cycles of the instruction, and with
-- each of them a cycle of the processor's sound unit. The processor has a store of its own, which
-- first offers an access to `handleMemoryRead` or `handleMemoryWrite`: they answer for the registers,
-- those of the sound unit included, and keep back what a DMA or the LCD uses. `GameBoyMachine` attaches
-- the memory map in place of that store. There the accesses do not meet the two handlers, and the
-- processor's copies of the registers follow the map by a write observer.
-- A Game Gear cartridge is one object, `GameGearCartridge` or a class derived from it, which pages the
-- ROM, keeps save RAM and writes its state as bytes; the Codemasters boards move the registers and add
-- RAM. `LockstepEngine` collects the packets of both peers for a frame and lets the machine run it
-- once both are there and start from the same state.
--
-- The files, and the code that each translates:
--   Base             shared: tests, lists over the native numbers, bits, `Outcome` for exceptions
--   GameBoy/Cartridge    cores/gameboy/cartridge/GameBoyCartridge.hpp
--     Header         `parseCartridgeMetadata` and the tables that it reads
--     State          the members and `load`
--     Banking        `fixedBankIndex`, `switchableBankIndex`, `copyRomBankWindow`, the RAM bank
--     Control        `writeControl`, one function for each kind of mapper
--     Ram            `read`, `write`, `writeExternalArea`
--     Save           `exportState`, `importState`, `exportSaveData`, `importSaveData`
--   GameBoy/Mapper       cores/gameboy/GameBoyMapper.cpp and .hpp
--   GameBoy/MemoryMap    cores/gameboy/GameBoyMemoryMap.cpp and .hpp
--     State          the members, and what installs or removes a mapping
--     Access         `readRaw`, `writeRaw`, `handleSpecialWrite`, OAM DMA, `read`, `write`
--     Save           `exportState`, `importState`
--     CodeView       `peekExecutableByte`, `checkedCodeView`
--   GameBoy/Cpu          cores/gameboy/gameboy.cpp, the processor
--     Registers      the register file, accesses to memory, cores/gameboy/decode/gb_opcode_decode.hpp
--     Cycles         the two tables of cycles
--     Dispatch       which microcode `populateOpcodes` registers for an opcode, and its length
--     Switch         which case of `tryFastExecuteBytes` serves an opcode
--     Alu            what the arithmetic, rotate and shift instructions compute
--     Microcode      the steps of the table, `executeCbOpcode`
--     Execute        `decodeInto`, `execute`, the end of `retireInstruction`
--     Fast           the cached register accesses and the bodies of the cases
--     FastCases      `tryFastExecuteBytes`, `finalizeFast`
--     Fetch          `serviceInterruptIfPending`, `fetchInto`
--   GameBoy/Clock        the loop of `retireInstruction` in cores/gameboy/gameboy.cpp
--   GameBoy/Apu          cores/gameboy/gameboy.cpp, the sound unit
--     State          the structs, the timers' periods, the status register, `initializeApu`
--     Units          envelopes, length counters, the sweep, `stepApuFrameSequencer`
--     Trigger        `triggerApuPulse`, `triggerApuWave`, `triggerApuNoise`
--     Sample         the samples of the channels, `pushApuSample`
--     Step           `stepApuOneCycle`
--     Write          `handleApuRegisterWrite`
--   GameBoy/Ports        cores/gameboy/gameboy.cpp: `handleMemoryReadUntraced`,
--                  `handleMemoryWriteUntraced`, `setJoypadState`, `resetDivider`
--   Machine/Checksum     `crc32` of machine/SaveState.cpp
--   GameGear             cores/gamegear
--     Cartridge      GameGearCartridge.cpp and .hpp, mappers/Sega3155235Mapper.hpp
--     Codemasters    mappers/CodemastersMapper.hpp
--   Netplay              machine/plugins/input/netplay/LockstepEngine.cpp and .hpp
--     Types          bindings, packets, faults, `valid`
--     Engine         the class `LockstepEngine`: `accept`, `ready`, `completeFrame`, `fail`
--     Wire           `encode`, `decode`, `digestFromHex`, `stateDigest`
-- The other files of a directory prove what their names say; Tests holds runs and examples.
--
-- Conventions. A byte, an address and a size are native natural numbers; a w-bit register keeps its
-- width by `low_bits w`, which is the remainder by 2 ^ w, and `join` puts two bit fields together.
-- Bytes are not bounded in the types: a theorem asks for a bound where it needs one. A vector, a span
-- and an array are lists; a read behind the end of a list, which the code never does, gives the stated
-- default. A member function takes the object and returns it beside its result. An exception is
-- `throws` with a constructor for each message, in the order in which the code tests. A position in a
-- byte string that is read front to back is the list of the bytes behind it. All loops but two are
-- over a list or a count; the loop of `decodeInto` has as fuel the number of bytes, which is enough
-- since every instruction has a byte, and the loop that pushes sound samples has the number of those
-- that are due. The processor takes memory as the interface `Bus`: reads and writes of some bytes at
-- an address, and what the hardware does in some cycles. It is told at which cycle of the instruction
-- a write happens, for the divider. Exceptions of a bus access are left out.
-- The register pointers that the code tests for null are those of an initialised processor. SHA-256
-- is a parameter of the definitions that use it; of it only the length of a digest is assumed, and
-- only by the round trip.
--
-- Not modelled: the observers of the memory map. The debug engine, the capture and the execution
-- snapshots are told of an access and do not change the map. The write observer that `GameBoyMachine`
-- installs does: after a write it sets 0xFF00 to what the input shows and 0xFF26 to what the second
-- sound unit shows, and it hands writes for the cartridge to `GameBoyCartridge`; the model of the map
-- is the map without it. Also left out: the files of saved states; the block cache of the processor,
-- its IR sessions and its saved state; the PPU, the second sound unit of `GameBoyAPU.cpp`, the rest of
-- the Game Gear with its processor, the instruction framework, the host services and the other
-- plugins, the netplay transport included; threads, files and devices.
pub mod Base
pub mod GameBoy
pub mod GameGear
pub mod Machine
pub mod Netplay
