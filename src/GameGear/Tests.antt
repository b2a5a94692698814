-- ===== src/GameGear/Tests.antt =====
-- Runs of the Game Gear cartridges, and each theorem at an input that meets its hypotheses.
use proto_time.Base.{ℕ, ◌≡◌, refl, Bool, true, false, some, arith, length, filled, length-filled}
use proto_time.Base.Outcome.{done}
use proto_time.GameGear.Cartridge.{
  GameGearCartridge, num_banks, page_bank, rom_bank_for_address, export_state, import_state,
}
use proto_time.GameGear.Codemasters.{CodemastersMapper}
use proto_time.GameGear.Codemasters
use proto_time.GameGear.Rom.{ShowsSram}
use proto_time.GameGear.SaveState.{SameImage, gamegear_import-export, codemasters_import-export}

-- Five banks; `control` is the control register.
abbrev cartridge : ℕ → GameGearCartridge
cartridge control = record {
  rom = filled 0x14000 7;
  sram = filled 0x8000 1;
  bank_0 = 0;
  bank_1 = 9;
  bank_2 = 2;
  control_register = control;
  save_dirty = false;
}

abbrev mapper : Bool → CodemastersMapper
mapper mapped = record {
  base = cartridge 0;
  extra_ram = filled 0x2000 3;
  extra_ram_mapped = mapped;
  extra_ram_dirty = false;
}

rom_size : length (filled 0x14000 7) ≡ 0x14000
rom_size = length-filled 0x14000 7

sram_size : length (filled 0x8000 1) ≡ 0x8000
sram_size = length-filled 0x8000 1

bank_run : rom_bank_for_address (cartridge 0) 0x4000 ≡ some 4
unfolding rom_bank_for_address page_bank num_banks
bank_run = rw rom_size refl

sram_shown : ShowsSram (cartridge 8)
sram_shown = record { has_rom = rw rom_size refl; enabled = refl; sram_size = sram_size }

same_image : SameImage (cartridge 8) (cartridge 0)
same_image = record {
  same_rom = refl;
  same_sram = refl;
  rom_bound = omega (arith, rom_size);
  sram_bound = omega (arith, sram_size);
}

gamegear_import-export_example :
    import_state (cartridge 0) (export_state (cartridge 8)) ≡ done (cartridge 8)
gamegear_import-export_example = gamegear_import-export (cartridge 8) (cartridge 0) same_image

same_base : SameImage (cartridge 0) (cartridge 0)
same_base = record {
  same_rom = refl;
  same_sram = refl;
  rom_bound = omega (arith, rom_size);
  sram_bound = omega (arith, sram_size);
}

codemasters_import-export_example :
    Codemasters.import_state (mapper false) (Codemasters.export_state (mapper true))
    ≡ done (mapper true)
codemasters_import-export_example =
    codemasters_import-export (mapper true) (mapper false) same_base
      (omega (arith, length-filled 0x2000 3))
