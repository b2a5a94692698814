-- ===== src/GameBoy/Cartridge/Tests.antt =====
-- Runs of the cartridge at small images, and each theorem at an input that meets its hypotheses.
use proto_time.Base.{ℕ, ◌≤◌, ◌<◌, ◌≡◌, ◌≢◌, refl, inl, Bool, true, false, [], ◌∷◌, arith}
use proto_time.Base.Outcome.{done, throws}
use proto_time.GameBoy.Cartridge.Header.{CartridgeMapper, mbc1, mbc2, mbc3, mbc5, CartridgeMetadata}
use proto_time.GameBoy.Cartridge.State.{Cartridge, rom_bank_out_of_range}
use proto_time.GameBoy.Cartridge.Banking.{
  fixed_bank_index, switchable_bank_index, mbc1_bank, selected_ram_bank_index, ram_bank_size,
}
use proto_time.GameBoy.Cartridge.Control.{write_control, write_mbc1}
use proto_time.GameBoy.Cartridge.Ram.{read, write, read_index}
use proto_time.GameBoy.Cartridge.Save.{export_state, import_state}
use proto_time.GameBoy.Cartridge.Valid.{IsValid, write-IsValid}
use proto_time.GameBoy.Cartridge.BankBounds.{bank_index_bounds}
use proto_time.GameBoy.Cartridge.Notify.{remap_reported}
use proto_time.GameBoy.Cartridge.RamLaws.{RamVisible, read-write}
use proto_time.GameBoy.Cartridge.SaveRoundTrip.{SameImage, import-export, one_bank_state_refused}

abbrev header : CartridgeMapper → ℕ → Bool → CartridgeMetadata
header mapper banks has_rtc = record {
  title = [];
  mapper = mapper;
  cartridge_type = 0x10;
  rom_size_code = 0;
  ram_size_code = 0;
  rom_bank_count = banks;
  external_ram_size = 4;
  has_battery = true;
  has_rtc = has_rtc;
}

abbrev cartridge : CartridgeMapper → ℕ → ℕ → Bool → Cartridge
cartridge mapper banks bank enabled = record {
  metadata = header mapper banks false;
  rom = 7 ∷ 8 ∷ 9 ∷ [];
  external_ram = 1 ∷ 2 ∷ 3 ∷ 4 ∷ [];
  current_rom_bank = bank;
  current_ram_bank = 0;
  ram_enabled = enabled;
  selected_rtc_register = 0xff;
  rtc_latched = false;
  rtc_registers = 0 ∷ 0 ∷ 0 ∷ 0 ∷ 0 ∷ [];
  mbc1_low_bank_bits = 5;
  mbc1_upper_bank_bits = 1;
  mbc1_banking_mode_select = false;
  save_dirty = false;
}

abbrev mbc1_cartridge : Cartridge
mbc1_cartridge = cartridge mbc1 64 1 true

abbrev mbc5_cartridge : Cartridge
mbc5_cartridge = cartridge mbc5 64 3 true

abbrev small_mbc3_cartridge : Cartridge
small_mbc3_cartridge = cartridge mbc3 1 0 false

mbc1_cartridge-IsValid : IsValid mbc1_cartridge
mbc1_cartridge-IsValid = ground arith

small_mbc3_cartridge-IsValid : IsValid small_mbc3_cartridge
small_mbc3_cartridge-IsValid = ground arith

mbc1_bank_run : switchable_bank_index mbc1_cartridge ≡ 37
unfolding switchable_bank_index mbc1_bank
mbc1_bank_run = refl

write-IsValid_example : IsValid (write mbc1_cartridge 0x2000 0).0
write-IsValid_example = write-IsValid 0x2000 0 (omega arith) mbc1_cartridge-IsValid

bank_index_bounds_example :
    (fixed_bank_index mbc1_cartridge < 64)
    × (switchable_bank_index mbc1_cartridge < 64)
    × (2 ≤ 64 → mbc1 ≢ mbc2 → mbc1 ≢ mbc5 → switchable_bank_index mbc1_cartridge ≢ 0)
bank_index_bounds_example = bank_index_bounds mbc1_cartridge mbc1_cartridge-IsValid

remap_reported_example :
    (fixed_bank_index (write mbc1_cartridge 0x0000 0x0a).0 ≡ fixed_bank_index mbc1_cartridge)
    × (switchable_bank_index (write mbc1_cartridge 0x0000 0x0a).0
        ≡ switchable_bank_index mbc1_cartridge)
unfolding write write_control write_mbc1
remap_reported_example = remap_reported mbc1_cartridge 0x0000 0x0a refl

mbc1_cartridge-RamVisible : RamVisible mbc1_cartridge
mbc1_cartridge-RamVisible = ground arith

read-write_example : read (write mbc1_cartridge 0xa001 99).0 0xa001 ≡ 99
unfolding read_index ram_bank_size selected_ram_bank_index
read-write_example = read-write mbc1_cartridge 0xa001 99 0xa001 mbc1_cartridge-RamVisible refl refl

SameImage-self : (c : Cartridge) → SameImage c c
SameImage-self c = record { same_metadata = refl; same_rom = refl; same_ram_size = refl }

import-export_example :
    import_state mbc1_cartridge (export_state mbc1_cartridge) ≡ done mbc1_cartridge
import-export_example =
    import-export mbc1_cartridge-IsValid (SameImage-self mbc1_cartridge) (λ _. (refl, refl))
      (inl (omega arith))

one_bank_state_refused_example :
    import_state small_mbc3_cartridge (export_state (write_control small_mbc3_cartridge 0x2000 5).0)
    ≡ throws rom_bank_out_of_range
one_bank_state_refused_example =
    one_bank_state_refused small_mbc3_cartridge small_mbc3_cartridge 0x2000 5
      small_mbc3_cartridge-IsValid (SameImage-self small_mbc3_cartridge) refl refl refl
