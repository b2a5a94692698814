-- ===== src/GameBoy/Cartridge/SaveRoundTrip.antt =====
-- What `importState` accepts and restores.
use proto_time.Base.{
  ℕ, ◌≤◌, ◌≡◌, ◌≢◌, ◌⊎◌, true, false, Option, none, some, arith, length, between, if◌then◌else◌,
  fit-length,
}
use proto_time.Base.Outcome.{done, throws}
use proto_time.GameBoy.Cartridge.Header.{mbc3}
use proto_time.GameBoy.Cartridge.State.{Cartridge, rom_bank_out_of_range}
use proto_time.GameBoy.Cartridge.Control.{write_control, write_mbc3}
use proto_time.GameBoy.Cartridge.Valid.{IsValid}
use proto_time.GameBoy.Cartridge.Save.{
  RtcSaveData, State, export_state, import_state, restore, export_save_data, import_save_data,
}

-- The cartridges were loaded with the same image.
pub record SameImage (c d : Cartridge) : Type 0 where
  pub same_metadata : d.metadata ≡ c.metadata
  pub same_rom : d.rom ≡ c.rom
  pub same_ram_size : length d.external_ram ≡ length c.external_ram

restore-export :
    {c d : Cartridge}
    → IsValid c
    → SameImage c d
    → (c.metadata.has_rtc ≡ false
        → (d.rtc_registers ≡ c.rtc_registers) × (d.rtc_latched ≡ c.rtc_latched))
    → restore d (export_state c) ≡ c
unfolding restore export_state
restore-export v s r = ground arith

-- A state that a valid cartridge exported is accepted by a cartridge with the same image, and makes it
-- equal to the one exported, if the image has another number of banks than one or the ROM bank register
-- is zero. A cartridge without a clock keeps its own clock registers, so those must agree before.
pub import-export :
    {c d : Cartridge}
    → IsValid c
    → SameImage c d
    → (c.metadata.has_rtc ≡ false
        → (d.rtc_registers ≡ c.rtc_registers) × (d.rtc_latched ≡ c.rtc_latched))
    → (c.metadata.rom_bank_count ≢ 1) ⊎ (c.current_rom_bank ≡ 0)
    → import_state d (export_state c) ≡ done c
unfolding import_state export_state
import-export {c} {d} v s r h = ground (arith, restore-export v s r)

abbrev pub FiveRegisters : Option RtcSaveData → Type 0
FiveRegisters none = Unit {0}
FiveRegisters (some rtc) = length rtc.registers ≡ 5

-- A state that is accepted leaves a valid cartridge valid, provided its two MBC1 upper bits are in
-- range and its clock has five registers, which the code does not check.
pub import-IsValid :
    {c d : Cartridge} (s : State)
    → IsValid c
    → import_state c s ≡ done d
    → s.mbc1_upper_bank_bits ≤ 3
    → FiveRegisters s.rtc
    → IsValid d
unfolding import_state
import-IsValid {c} {d} s v e u r = ground arith

-- With a single bank an MBC3 cartridge still takes a bank number, which its own exported state then
-- fails to import by: after any write to 0x2000-0x3FFF the exported state is refused.
pub one_bank_state_refused :
    (c d : Cartridge) (address value : ℕ)
    → IsValid c
    → SameImage c d
    → c.metadata.mapper ≡ mbc3
    → c.metadata.rom_bank_count ≡ 1
    → between 0x2000 0x4000 address ≡ true
    → import_state d (export_state (write_control c address value).0) ≡ throws rom_bank_out_of_range
unfolding import_state export_state write_control write_mbc3
one_bank_state_refused c d address value v s m n h = ground arith

-- A battery save of a cartridge, taken into one with the same image, brings back its RAM and, with a
-- clock, its clock registers; the cartridge is then clean and its banking is what it was.
pub import_save-export_save :
    {c d : Cartridge}
    → SameImage c d
    → import_save_data d (export_save_data c) ≡ record d {
      external_ram = c.external_ram;
      rtc_registers = if c.metadata.has_rtc then c.rtc_registers else d.rtc_registers;
      rtc_latched = if c.metadata.has_rtc then c.rtc_latched else d.rtc_latched;
      save_dirty = false;
    }
unfolding import_save_data export_save_data
import_save-export_save {c} {d} s = ground (arith, fit-length {A = ℕ} 0 c.external_ram)
