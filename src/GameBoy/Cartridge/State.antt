-- ===== src/GameBoy/Cartridge/State.antt =====
-- `GameBoyCartridge`: its members, and `load`, which sets every one of them.
use proto_time.Base.{
  ℕ, ◌+◌, ◌/◌, Bool, false, not, ◌&&◌, List, length, get_or, replicate, ltb, ◌==◌, if◌then◌else◌,
}
use proto_time.Base.Outcome.{Outcome, done, throws}
use proto_time.GameBoy.Cartridge.Header.{
  no_mapper, mbc1, CartridgeMetadata, parse_cartridge_metadata,
}

pub record Cartridge : Type 0 where
  pub metadata : CartridgeMetadata
  pub rom : List ℕ
  pub external_ram : List ℕ
  pub current_rom_bank : ℕ
  pub current_ram_bank : ℕ
  pub ram_enabled : Bool
  pub selected_rtc_register : ℕ
  pub rtc_latched : Bool
  pub rtc_registers : List ℕ
  pub mbc1_low_bank_bits : ℕ
  pub mbc1_upper_bank_bits : ℕ
  pub mbc1_banking_mode_select : Bool
  pub save_dirty : Bool

-- The messages of the exceptions that `load` and `importState` throw.
pub data CartridgeError : Type 0 where
  rom_empty : CartridgeError
  rom_mismatch : CartridgeError
  external_ram_size_mismatch : CartridgeError
  rom_bank_out_of_range : CartridgeError
  ram_bank_out_of_range : CartridgeError
  rtc_selector_invalid : CartridgeError
  rtc_presence_mismatch : CartridgeError

-- A mapper byte that is not known makes an image above 32 KiB an MBC1 one.
unfoldable pub force_mbc1 : CartridgeMetadata → List ℕ → CartridgeMetadata
force_mbc1 metadata bytes = elim metadata.mapper [
  | no_mapper ↦
      if ltb 0x8000 (length bytes)
        && ltb 0x147 (length bytes)
        && not (get_or bytes 0x147 0x00 == 0x00)
      then record metadata { mapper = mbc1; rom_bank_count = (length bytes + 0x3fff) / 0x4000 }
      else metadata
  | _ ↦ metadata
]

-- `if (metadata_.romBankCount == 0) metadata_.romBankCount = 1;`
unfoldable pub at_least_one_bank : CartridgeMetadata → CartridgeMetadata
at_least_one_bank metadata =
    if metadata.rom_bank_count == 0 then record metadata { rom_bank_count = 1 } else metadata

unfoldable pub power_on : CartridgeMetadata → List ℕ → Cartridge
power_on metadata bytes = record {
  metadata = metadata;
  rom = bytes;
  external_ram = replicate metadata.external_ram_size 0x00;
  current_rom_bank = if ltb 1 metadata.rom_bank_count then 1 else 0;
  current_ram_bank = 0;
  ram_enabled = false;
  selected_rtc_register = 0xff;
  rtc_latched = false;
  rtc_registers = replicate 5 0x00;
  mbc1_low_bank_bits = 1;
  mbc1_upper_bank_bits = 0;
  mbc1_banking_mode_select = false;
  save_dirty = false;
}

unfoldable pub load : List ℕ → Outcome CartridgeError Cartridge
load bytes =
    if length bytes == 0
    then throws rom_empty
    else done
        (power_on (at_least_one_bank (force_mbc1 (parse_cartridge_metadata bytes) bytes)) bytes)
