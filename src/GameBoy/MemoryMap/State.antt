-- ===== src/GameBoy/MemoryMap/State.antt =====
-- `GameBoyMemoryMap`: its members and the operations that install or remove what is mapped.
use proto_time.Base.{
  ℕ, ◌-◌, ◌≡◌, Bool, true, false, ◌&&◌, List, [], Option, length, set, take, replicate, leb, ◌==◌,
  between, if◌then◌else◌,
}
use proto_time.GameBoy.Cartridge.State.{Cartridge}
use proto_time.GameBoy.Mapper.{GameBoyMapper}

pub record RomWindow : Type 0 where
  pub bytes : List ℕ
  pub active : Bool

-- The mapper and the cartridge are the machine's; `none` is the null pointer.
pub record MemoryMap : Type 0 where
  pub vram : List ℕ
  pub wram : List ℕ
  pub oam : List ℕ
  pub io_regs : List ℕ
  pub hram : List ℕ
  pub boot_rom : List ℕ
  pub boot_rom_active : Bool
  pub rom_window_0000 : RomWindow
  pub rom_window_4000 : RomWindow
  pub mapper : Option GameBoyMapper
  pub cartridge : Option Cartridge

abbrev pub no_window : RomWindow
no_window = record { bytes = []; active = false }

-- The sizes of the `std::array` members.
pub record HasSizes (m : MemoryMap) : Type 0 where
  pub vram_size : length m.vram ≡ 0x2000
  pub wram_size : length m.wram ≡ 0x2000
  pub oam_size : length m.oam ≡ 0xa0
  pub io_size : length m.io_regs ≡ 0x80
  pub hram_size : length m.hram ≡ 0x80

unfoldable pub clear_boot_rom : MemoryMap → MemoryMap
clear_boot_rom m = record m { boot_rom = []; boot_rom_active = false }

unfoldable pub clear_rom_window : MemoryMap → ℕ → MemoryMap
clear_rom_window m base =
    if base == 0x0000
    then record m { rom_window_0000 = no_window }
    else if base == 0x4000
    then record m { rom_window_4000 = no_window }
    else m

unfoldable pub install_rom_window : MemoryMap → ℕ → List ℕ → MemoryMap
install_rom_window m base bytes =
    if base == 0x0000
    then record m { rom_window_0000 = record { bytes = bytes; active = true } }
    else if base == 0x4000
    then record m { rom_window_4000 = record { bytes = bytes; active = true } }
    else m

-- At most 256 bytes are mapped.
unfoldable pub map_boot_rom : MemoryMap → List ℕ → MemoryMap
map_boot_rom m image = record m { boot_rom = take 0x100 image; boot_rom_active = true }

unfoldable pub reset : MemoryMap → MemoryMap
unfolding clear_boot_rom clear_rom_window
reset m =
    let cleared = record m {
      vram = replicate 0x2000 0x00;
      wram = replicate 0x2000 0xff;
      oam = replicate 0xa0 0xff;
      io_regs = replicate 0x80 0xff;
      hram = replicate 0x80 0xff;
      boot_rom_active = false;
    } in
    clear_rom_window (clear_rom_window (clear_boot_rom cleared) 0x0000) 0x4000

unfoldable pub set_io_register_raw : MemoryMap → ℕ → ℕ → MemoryMap
set_io_register_raw m address value =
    if between 0xff00 0xff80 address
    then record m { io_regs = set m.io_regs (address - 0xff00) value }
    else if address == 0xffff
    then record m { hram = set m.hram 0x7f value }
    else m

unfoldable pub resolve_echo_address : ℕ → ℕ
resolve_echo_address address =
    if leb 0xe000 address && leb address 0xfdff then address - 0x2000 else address
