-- ===== src/GameBoy/MemoryMap/Regions.antt =====
-- What `readRaw` gives in each region of the address space, with the boot ROM out of the way.
use proto_time.Base.{ℕ, ◌-◌, ◌≤◌, ◌<◌, ◌≡◌, Bool, true, false, ◌&&◌, arith, length, get_or, ltb}
use proto_time.GameBoy.MemoryMap.State.{MemoryMap}
use proto_time.GameBoy.MemoryMap.Access.{read_raw, read_external}

-- The boot ROM overlay answers at an address.
abbrev pub boot_answers : MemoryMap → ℕ → Bool
boot_answers m address = m.boot_rom_active && ltb address (length m.boot_rom)

pub read_raw_boot :
    (m : MemoryMap) (a : ℕ) → boot_answers m a ≡ true → read_raw m a ≡ get_or m.boot_rom a 0xff
unfolding read_raw
read_raw_boot m a h = ground arith

module _ (m : MemoryMap) (a : ℕ) (n : boot_answers m a ≡ false) where
  pub read_raw_window_0000 :
      a < 0x4000
      → m.rom_window_0000.active ≡ true
      → read_raw m a ≡ get_or m.rom_window_0000.bytes a 0xff
  unfolding read_raw
  read_raw_window_0000 h k = ground arith

  pub read_raw_window_4000 :
      0x4000 ≤ a
      → a < 0x8000
      → m.rom_window_4000.active ≡ true
      → read_raw m a ≡ get_or m.rom_window_4000.bytes (a - 0x4000) 0xff
  unfolding read_raw
  read_raw_window_4000 h k l = ground arith

  pub read_raw_vram : 0x8000 ≤ a → a < 0xa000 → read_raw m a ≡ get_or m.vram (a - 0x8000) 0xff
  unfolding read_raw
  read_raw_vram h k = ground arith

  pub read_raw_external : 0xa000 ≤ a → a < 0xc000 → read_raw m a ≡ read_external m a
  unfolding read_raw
  read_raw_external h k = ground arith

  pub read_raw_wram : 0xc000 ≤ a → a < 0xe000 → read_raw m a ≡ get_or m.wram (a - 0xc000) 0xff
  unfolding read_raw
  read_raw_wram h k = ground arith

  pub read_raw_oam : 0xfe00 ≤ a → a < 0xfea0 → read_raw m a ≡ get_or m.oam (a - 0xfe00) 0xff
  unfolding read_raw
  read_raw_oam h k = ground arith

  pub read_raw_io : 0xff00 ≤ a → a < 0xff80 → read_raw m a ≡ get_or m.io_regs (a - 0xff00) 0xff
  unfolding read_raw
  read_raw_io h k = ground arith

  pub read_raw_hram : 0xff80 ≤ a → a ≤ 0xffff → read_raw m a ≡ get_or m.hram (a - 0xff80) 0xff
  unfolding read_raw
  read_raw_hram h k = ground arith
