-- ===== src/GameBoy/Cartridge/Save.antt =====
-- Saved state and battery saves of the cartridge, with the checks of `importState`.
use proto_time.Base.{
  ℕ, ◌%◌, Bool, true, false, not, ◌&&◌, ◌||◌, List, Option, none, some, length, fit, ltb, leb, ◌==◌,
  if◌then◌else◌,
}
use proto_time.Base.Bits.{low_bits}
use proto_time.Base.Outcome.{Outcome, done, throws}
use proto_time.GameBoy.Cartridge.Header.{CartridgeMapper, mbc2, mbc3, mbc5}
use proto_time.GameBoy.Cartridge.State.{
  Cartridge, CartridgeError, rom_mismatch, external_ram_size_mismatch, rom_bank_out_of_range,
  ram_bank_out_of_range, rtc_selector_invalid, rtc_presence_mismatch,
}
use proto_time.GameBoy.Cartridge.Control.{never_zero}

pub record RtcSaveData : Type 0 where
  pub registers : List ℕ
  pub latched : Bool

pub record State : Type 0 where
  pub rom_size : ℕ
  pub rom_bank_count : ℕ
  pub current_rom_bank : ℕ
  pub current_ram_bank : ℕ
  pub ram_enabled : Bool
  pub selected_rtc_register : ℕ
  pub rtc : Option RtcSaveData
  pub mbc1_banking_mode_select : Bool
  pub mbc1_upper_bank_bits : ℕ
  pub mbc1_low_bank_bits : ℕ
  pub dirty : Bool
  pub external_ram : List ℕ

abbrev pub rtc_save : Cartridge → Option RtcSaveData
rtc_save c =
    if c.metadata.has_rtc
    then some (record { registers = c.rtc_registers; latched = c.rtc_latched })
    else none

unfoldable pub export_state : Cartridge → State
export_state c = record {
  rom_size = length c.rom;
  rom_bank_count = c.metadata.rom_bank_count;
  current_rom_bank = c.current_rom_bank;
  current_ram_bank = c.current_ram_bank;
  ram_enabled = c.ram_enabled;
  selected_rtc_register = c.selected_rtc_register;
  rtc = rtc_save c;
  mbc1_banking_mode_select = c.mbc1_banking_mode_select;
  mbc1_upper_bank_bits = c.mbc1_upper_bank_bits;
  mbc1_low_bank_bits = low_bits 5 c.mbc1_low_bank_bits;
  dirty = c.save_dirty;
  external_ram = c.external_ram;
}

-- Whether the ROM bank of a state passes the range check.
unfoldable pub rom_bank_ok : CartridgeMapper → ℕ → ℕ → Bool
rom_bank_ok mapper count bank = if count == 1 then bank == 0 else elim mapper [
  | mbc3 ↦ leb 1 bank && leb bank 0x7f
  | mbc5 ↦ leb bank 0x1ff
  | mbc2 ↦ leb 1 bank && leb bank 0x0f
  | _ ↦ not (bank == 0) && ltb bank 0x80
]

unfoldable pub ram_bank_ok : CartridgeMapper → ℕ → Bool
ram_bank_ok mapper bank = elim mapper [ mbc3 ↦ ltb bank 4 | mbc5 ↦ ltb bank 0x10 | _ ↦ bank == 0 ]

unfoldable pub rtc_selector_ok : Bool → ℕ → Bool
rtc_selector_ok has_rtc selected =
    (selected == 0xff) || (has_rtc && leb 0x08 selected && leb selected 0x0c)

-- `state.rtc.has_value() == metadata_.hasRtc`
unfoldable pub rtc_presence_ok : Bool → Option RtcSaveData → Bool
rtc_presence_ok true none = false
rtc_presence_ok true (some _) = true
rtc_presence_ok false none = true
rtc_presence_ok false (some _) = false

-- The assignments after the checks. `mbc1UpperBankBits_` is a byte.
unfoldable pub restore : Cartridge → State → Cartridge
restore c state = record c {
  current_rom_bank = state.current_rom_bank;
  current_ram_bank = state.current_ram_bank;
  ram_enabled = state.ram_enabled;
  selected_rtc_register = state.selected_rtc_register;
  mbc1_banking_mode_select = state.mbc1_banking_mode_select;
  mbc1_upper_bank_bits = state.mbc1_upper_bank_bits % 256;
  mbc1_low_bank_bits = never_zero (low_bits 5 state.mbc1_low_bank_bits);
  save_dirty = state.dirty;
  external_ram = state.external_ram;
  rtc_registers = elim state.rtc [ none ↦ c.rtc_registers | some rtc ↦ rtc.registers ];
  rtc_latched = elim state.rtc [ none ↦ c.rtc_latched | some rtc ↦ rtc.latched ];
}

unfoldable pub import_state : Cartridge → State → Outcome CartridgeError Cartridge
unfolding rom_bank_ok ram_bank_ok rtc_selector_ok rtc_presence_ok restore
import_state c state =
    if not (state.rom_size == length c.rom)
      || not (state.rom_bank_count == c.metadata.rom_bank_count)
    then throws rom_mismatch
    else if not (length state.external_ram == length c.external_ram)
    then throws external_ram_size_mismatch
    else if not (rom_bank_ok c.metadata.mapper c.metadata.rom_bank_count state.current_rom_bank)
    then throws rom_bank_out_of_range
    else if not (ram_bank_ok c.metadata.mapper state.current_ram_bank)
    then throws ram_bank_out_of_range
    else if not (rtc_selector_ok c.metadata.has_rtc state.selected_rtc_register)
    then throws rtc_selector_invalid
    else if not (rtc_presence_ok c.metadata.has_rtc state.rtc)
    then throws rtc_presence_mismatch
    else done (restore c state)

pub record CartridgeSaveData : Type 0 where
  pub external_ram : List ℕ
  pub rtc : Option RtcSaveData

unfoldable pub export_save_data : Cartridge → CartridgeSaveData
export_save_data c = record { external_ram = c.external_ram; rtc = rtc_save c }

-- A short save is padded with zeros, a long one is cut.
unfoldable pub import_save_data : Cartridge → CartridgeSaveData → Cartridge
import_save_data c save =
    let clock = if c.metadata.has_rtc then save.rtc else none in
    record c {
      external_ram = fit (length c.external_ram) 0x00 save.external_ram;
      rtc_registers = elim clock [ none ↦ c.rtc_registers | some rtc ↦ rtc.registers ];
      rtc_latched = elim clock [ none ↦ c.rtc_latched | some rtc ↦ rtc.latched ];
      save_dirty = false;
    }
