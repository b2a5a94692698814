-- ===== src/GameBoy/MemoryMap/Tests.antt =====
-- Runs of the memory map, and each theorem at a map that meets its hypotheses.
use proto_time.Base.{
  ℕ, ◌+◌, ◌*◌, ◌≡◌, refl, true, false, [], ◌∷◌, none, some, arith, length, get_or, filled,
  length-filled, if◌then◌else◌, ◌==◌,
}
use proto_time.GameBoy.Cartridge.Header.{mbc1}
use proto_time.GameBoy.Mapper.{GameBoyMapper, current_fixed_rom_bank, copy_rom_bank_window}
use proto_time.GameBoy.MemoryMap.State.{MemoryMap, RomWindow, HasSizes, resolve_echo_address}
use proto_time.GameBoy.MemoryMap.Access.{read_raw, read, write}
use proto_time.GameBoy.MemoryMap.CodeView.{
  peek_executable_byte, boot_view, checked_code_view, checked_code_view_lem,
}
use proto_time.GameBoy.MemoryMap.Windows.{Shows, write-Shows}
use proto_time.GameBoy.MemoryMap.RamLaws.{bus_read-write}
use proto_time.GameBoy.MemoryMap.Dma.{oam_dma}
use proto_time.Base.Outcome.{done}
use proto_time.GameBoy.MemoryMap.State.{no_window}
use proto_time.GameBoy.MemoryMap.Save.{import_state, export_state}
use proto_time.GameBoy.MemoryMap.SaveRoundTrip.{IsSaved, memory_map_import-export}

abbrev mapper : GameBoyMapper
mapper = record {
  mapper_type = mbc1;
  rom_data = 5 ∷ 6 ∷ [];
  rom_size = 2;
  rom_bank_count = 64;
  external_ram_size = 0;
  external_ram = [];
  rom_bank_low = 3;
  effective_rom_bank = 3;
  ram_bank_select = 0;
  ram_bank_mode = 0;
  ram_enabled = false;
  dirty = false;
  has_battery = false;
}

abbrev window : ℕ → RomWindow
window bank = record { bytes = copy_rom_bank_window mapper bank 0x4000; active = true }

abbrev map : MemoryMap
map = record {
  vram = filled 0x2000 1;
  wram = filled 0x2000 2;
  oam = filled 0xa0 3;
  io_regs = filled 0x80 4;
  hram = filled 0x80 5;
  boot_rom = 49 ∷ 254 ∷ 255 ∷ [];
  boot_rom_active = true;
  rom_window_0000 = window 0;
  rom_window_4000 = window 3;
  mapper = some mapper;
  cartridge = none;
}

map-HasSizes : HasSizes map
map-HasSizes = record {
  vram_size = length-filled 0x2000 1;
  wram_size = length-filled 0x2000 2;
  oam_size = length-filled 0xa0 3;
  io_size = length-filled 0x80 4;
  hram_size = length-filled 0x80 5;
}

checked_code_view_lem_example :
    (length {A = ℕ} (254 ∷ 255 ∷ []) ≡ 2)
    × (peek_executable_byte map (1 + 1) ≡ some (get_or (254 ∷ 255 ∷ []) 1 0xff))
checked_code_view_lem_example =
    checked_code_view_lem map 1 2 1 (254 ∷ 255 ∷ []) map-HasSizes
      (unfold checked_code_view boot_view in refl) (omega arith)

fixed_bank_zero : current_fixed_rom_bank mapper ≡ 0
unfolding current_fixed_rom_bank
fixed_bank_zero = refl

map-Shows : Shows map mapper
map-Shows = record { attached = refl; fixed = rw fixed_bank_zero refl; switchable = refl }

write-Shows_example : (mapper' : GameBoyMapper) × Shows (write map 0x2000 7) mapper'
write-Shows_example = write-Shows mapper 0x2000 7 map-Shows

bus_read-write_example :
    read (write map 0xe005 77) 0xc005
    ≡ (if resolve_echo_address 0xc005 == resolve_echo_address 0xe005 then 77 else read map 0xc005)
bus_read-write_example =
    bus_read-write map 0xe005 77 0xc005 map-HasSizes (omega arith) refl (omega arith)

oam_dma_example : get_or (write map 0xff46 0xc1).oam 17 0xff ≡ read_raw map (0xc1 * 256 + 17)
oam_dma_example = oam_dma map 0xc1 17 map-HasSizes (omega arith) (omega arith)

-- The map without ROM windows.
abbrev plain_map : MemoryMap
plain_map = record map { rom_window_0000 = no_window; rom_window_4000 = no_window }

plain_map-IsSaved : IsSaved plain_map
plain_map-IsSaved = record {
  sizes = record {
    vram_size = length-filled 0x2000 1;
    wram_size = length-filled 0x2000 2;
    oam_size = length-filled 0xa0 3;
    io_size = length-filled 0x80 4;
    hram_size = length-filled 0x80 5;
  };
  boot_size = omega arith;
  boot_there = refl;
  window_0000 = record { size_shown = λ h. ground arith; empty_hidden = λ _. refl };
  window_4000 = record { size_shown = λ h. ground arith; empty_hidden = λ _. refl };
}

memory_map_import-export_example :
    import_state map (export_state plain_map)
    ≡ done (record plain_map { mapper = some mapper; cartridge = none })
memory_map_import-export_example =
    memory_map_import-export plain_map map plain_map-IsSaved map-HasSizes
