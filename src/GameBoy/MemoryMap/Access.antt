-- ===== src/GameBoy/MemoryMap/Access.antt =====
-- Reads and writes: the decoding of an address into a region, bank switching, and OAM DMA.
use proto_time.Base.{
  ℕ, zero, suc, ◌+◌, ◌-◌, ◌*◌, ◌%◌, ◌^◌, Bool, true, false, not, ◌&&◌, List, [], ◌∷◌, none, some,
  length, get_or, set, ltb, ◌==◌, between, if◌then◌else◌,
}
use proto_time.Base.Bits.{low_bits, shr}
use proto_time.GameBoy.Cartridge.Ram
use proto_time.GameBoy.Mapper.{
  GameBoyMapper, WriteResult, ram_read, ram_write, copy_rom_bank_window, current_fixed_rom_bank,
}
use proto_time.GameBoy.Mapper
use proto_time.GameBoy.MemoryMap.State.{
  MemoryMap, RomWindow, install_rom_window, set_io_register_raw, resolve_echo_address,
}

-- A ROM window gives 0xFF behind its last byte.
abbrev pub read_window : RomWindow → ℕ → ℕ
read_window window offset = get_or window.bytes offset 0xff

-- External RAM: the cartridge if there is one, else the mapper, else 0xFF.
unfoldable pub read_external : MemoryMap → ℕ → ℕ
read_external m address = elim m.cartridge [
  | some c ↦ Ram.read c address
  | none ↦ elim m.mapper [ none ↦ 0xff | some mapper ↦ get_or (ram_read mapper address 1) 0 0xff ]
]

unfoldable pub read_raw : MemoryMap → ℕ → ℕ
read_raw m address =
    if m.boot_rom_active && ltb address (length m.boot_rom)
    then get_or m.boot_rom address 0xff
    else if ltb address 0x4000 && m.rom_window_0000.active
    then read_window m.rom_window_0000 address
    else if between 0x4000 0x8000 address && m.rom_window_4000.active
    then read_window m.rom_window_4000 (address - 0x4000)
    else if between 0x8000 0xa000 address
    then get_or m.vram (address - 0x8000) 0xff
    else if between 0xa000 0xc000 address
    then read_external m address
    else if between 0xc000 0xe000 address
    then get_or m.wram (address - 0xc000) 0xff
    else if between 0xe000 0xfe00 address
    then get_or m.wram (address - 0xe000) 0xff
    else if between 0xfe00 0xfea0 address
    then get_or m.oam (address - 0xfe00) 0xff
    else if between 0xfea0 0xff00 address
    then 0xff
    else if between 0xff00 0xff80 address
    then get_or m.io_regs (address - 0xff00) 0xff
    else if between 0xff80 0xffff address
    then get_or m.hram (address - 0xff80) 0xff
    else if address == 0xffff
    then get_or m.hram 0x7f 0xff
    else 0xff

-- `peek`, and `read` without its observers.
unfoldable pub read : MemoryMap → ℕ → ℕ
read m address = read_raw m (resolve_echo_address address)

-- `oam_[i] = readRaw(sourceBase + i)` for the `n` bytes from `i` on, each read after the stores before.
unfoldable pub dma_from : MemoryMap → ℕ → ℕ → ℕ → MemoryMap
dma_from m source_base i zero = m
dma_from m source_base i (suc n) =
    dma_from (record m { oam = set m.oam i (read_raw m ((source_base + i) % 2 ^ 16)) }) source_base
      (i + 1) n

unfoldable pub perform_oam_dma : MemoryMap → ℕ → MemoryMap
perform_oam_dma m source_high_byte = dma_from m (source_high_byte * 2 ^ 8) 0 (length m.oam)

-- The I/O registers: DMA, the writable bits of STAT, and LY, which a write clears.
unfoldable pub write_io : MemoryMap → ℕ → ℕ → MemoryMap
write_io m address value =
    let index = address - 0xff00 in
    if (address == 0xff46) && not (value == 0xff)
    then perform_oam_dma (record m { io_regs = set m.io_regs index value }) value
    else if address == 0xff41
    then record m {
      io_regs =
          set m.io_regs index
            (low_bits 3 (get_or m.io_regs index 0xff) + low_bits 4 (shr 3 value) * 2 ^ 3);
    }
    else if address == 0xff44
    then record m { io_regs = set m.io_regs index 0x00 }
    else record m { io_regs = set m.io_regs index value }

-- The part of `writeRaw` from 0xC000 on.
unfoldable pub write_high : MemoryMap → ℕ → ℕ → MemoryMap
write_high m address value =
    if between 0xc000 0xe000 address
    then record m { wram = set m.wram (address - 0xc000) value }
    else if between 0xe000 0xfe00 address
    then record m { wram = set m.wram (address - 0xe000) value }
    else if between 0xfe00 0xfea0 address
    then record m { oam = set m.oam (address - 0xfe00) value }
    else if between 0xfea0 0xff00 address
    then m
    else if address == 0xffff
    then record m { hram = set m.hram 0x7f value }
    else if between 0xff00 0xff80 address
    then write_io m address value
    else if between 0xff80 0xffff address
    then record m { hram = set m.hram (address - 0xff80) value }
    else m

unfoldable pub write_raw : MemoryMap → ℕ → ℕ → MemoryMap
write_raw m address value =
    if address == 0xff50
    then m
    else if ltb address 0x4000 && m.rom_window_0000.active
    then m
    else if between 0x4000 0x8000 address && m.rom_window_4000.active
    then m
    else if between 0x8000 0xa000 address
    then record m { vram = set m.vram (address - 0x8000) value }
    else if between 0xa000 0xc000 address
    then m
    else write_high m address value

-- `handleCartridgeRamWrite` for one byte.
unfoldable pub write_external : MemoryMap → ℕ → ℕ → MemoryMap × Bool
write_external m address value = elim m.cartridge [
  | some c ↦ (record m { cartridge = some (Ram.write c address value).0 }, true)
  | none ↦ elim m.mapper [
    | none ↦ (m, false)
    | some mapper ↦ (
      record m { mapper = some (ram_write mapper address (value ∷ [])).0 },
      (ram_write mapper address (value ∷ [])).1,
    )
  ]
]

-- The windows that a mapper write asks to be copied anew.
unfoldable pub refresh_windows : MemoryMap → GameBoyMapper → WriteResult → MemoryMap
refresh_windows m mapper result =
    let switched =
      if result.rom_bank_changed
      then install_rom_window m 0x4000
          (copy_rom_bank_window mapper mapper.effective_rom_bank 0x4000)
      else m in
    if result.fixed_rom_bank_changed
    then install_rom_window switched 0x0000
        (copy_rom_bank_window mapper (current_fixed_rom_bank mapper) 0x4000)
    else switched

unfoldable pub write_mapper : MemoryMap → GameBoyMapper → ℕ → ℕ → MemoryMap × Bool
write_mapper m mapper address value =
    let (mapper', result) = Mapper.write mapper address value in
    (refresh_windows (record m { mapper = some mapper' }) mapper' result, result.handled)

-- What `handleSpecialWrite` does for addresses that no mapper takes.
unfoldable pub write_other : MemoryMap → ℕ → ℕ → MemoryMap × Bool
write_other m address value =
    if (address == 0xff50) && not (value == 0)
    then (set_io_register_raw (record m { boot_rom_active = false }) 0xff50 value, true)
    else if between 0xa000 0xc000 address
    then write_external m address value
    else (m, false)

unfoldable pub handle_special_write : MemoryMap → ℕ → ℕ → MemoryMap × Bool
handle_special_write m address value =
    if ltb address 0x8000
    then elim m.mapper [
      | some mapper ↦ write_mapper m mapper address value
      | none ↦ write_other m address value
    ]
    else write_other m address value

-- `write`, without its observers: they are called with the resolved address and the value in the end.
unfoldable pub write : MemoryMap → ℕ → ℕ → MemoryMap
write m address value =
    let resolved = resolve_echo_address address in
    let (m', handled) = handle_special_write m resolved value in
    if handled then m' else write_raw m' resolved value

unfoldable pub debug_commit_ram : MemoryMap → ℕ → ℕ → MemoryMap
debug_commit_ram m address value =
    let resolved = resolve_echo_address address in
    if between 0xc000 0xe000 resolved
    then record m { wram = set m.wram (resolved - 0xc000) value }
    else if between 0xff80 0xffff resolved
    then record m { hram = set m.hram (resolved - 0xff80) value }
    else m

-- The span versions, byte by byte, the address wrapping at 64 KiB.
pub read_span : MemoryMap → ℕ → ℕ → List ℕ
read_span m address zero = []
read_span m address (suc n) = read m (address % 2 ^ 16) ∷ read_span m (address + 1) n

pub write_span : MemoryMap → ℕ → List ℕ → MemoryMap
write_span m address [] = m
write_span m address (value ∷ values) =
    write_span (write m (address % 2 ^ 16) value) (address + 1) values
