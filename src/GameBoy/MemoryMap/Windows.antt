-- ===== src/GameBoy/MemoryMap/Windows.antt =====
-- The ROM windows mirror the banks of the mapper, through every write.
use proto_time.Base.{
  ℕ, zero, suc, ◌+◌, ◌-◌, ◌*◌, ◌%◌, ◌^◌, ◌≡◌, refl, true, [], ◌∷◌, ◌≤◌, if◌then◌else◌, none, some,
  arith, set, length, if-keeps, between, ltb,
}
use proto_time.GameBoy.Mapper.{
  GameBoyMapper, ram_write, current_fixed_rom_bank, copy_rom_bank_window,
}
use proto_time.GameBoy.Mapper
use proto_time.GameBoy.Mapper.Notify.{
  write-SameRom, copy-SameRom, bank_change_reported, ram_write-banks,
}
use proto_time.GameBoy.MemoryMap.State.{
  MemoryMap, RomWindow, install_rom_window, set_io_register_raw, resolve_echo_address,
}
use proto_time.GameBoy.MemoryMap.Access.{
  read_raw, dma_from, perform_oam_dma, write_io, write_high, write_raw, write_external,
  refresh_windows, write_mapper, write_other, handle_special_write, write,
}

abbrev shown : GameBoyMapper → ℕ → RomWindow
shown mapper bank = record { bytes = copy_rom_bank_window mapper bank 0x4000; active = true }

-- The memory map shows the two banks of this mapper.
pub record Shows (m : MemoryMap) (mapper : GameBoyMapper) : Type 0 where
  pub attached : m.mapper ≡ some mapper
  pub fixed : m.rom_window_0000 ≡ record {
    bytes = copy_rom_bank_window mapper (current_fixed_rom_bank mapper) 0x4000;
    active = true;
  }
  pub switchable : m.rom_window_4000 ≡ record {
    bytes = copy_rom_bank_window mapper mapper.effective_rom_bank 0x4000;
    active = true;
  }

-- The mapping of ROM is the same.
abbrev pub SameMapping : MemoryMap → MemoryMap → Type 0
SameMapping m n =
    (n.mapper ≡ m.mapper)
    × (n.rom_window_0000 ≡ m.rom_window_0000)
    × (n.rom_window_4000 ≡ m.rom_window_4000)

dma_from-SameMapping : (m : MemoryMap) (source i n : ℕ) → SameMapping m (dma_from m source i n)
unfolding dma_from
dma_from-SameMapping m source i zero = (refl, refl, refl)
dma_from-SameMapping m source i (suc n) =
    dma_from-SameMapping (record m { oam = set m.oam i (read_raw m ((source + i) % 2 ^ 16)) })
      source (i + 1) n

write_io-SameMapping : (m : MemoryMap) (a v : ℕ) → SameMapping m (write_io m a v)
unfolding write_io perform_oam_dma
write_io-SameMapping m a v =
    let stored = record m { io_regs = set m.io_regs (a - 0xff00) v } in
    ground (arith, dma_from-SameMapping stored (v * 2 ^ 8) 0 (length stored.oam))

write_high-SameMapping : (m : MemoryMap) (a v : ℕ) → SameMapping m (write_high m a v)
unfolding write_high
write_high-SameMapping m a v = ground (arith, write_io-SameMapping m a v)

write_raw-SameMapping : (m : MemoryMap) (a v : ℕ) → SameMapping m (write_raw m a v)
unfolding write_raw
write_raw-SameMapping m a v = ground (arith, write_high-SameMapping m a v)

SameMapping-Shows :
    {m n : MemoryMap} {mapper : GameBoyMapper} → SameMapping m n → Shows m mapper → Shows n mapper
SameMapping-Shows s h = ground arith

write_mapper-Shows :
    {m : MemoryMap} (mapper : GameBoyMapper) (a v : ℕ)
    → Shows m mapper
    → Shows (write_mapper m mapper a v).0 (Mapper.write mapper a v).0
unfolding write_mapper refresh_windows install_rom_window
write_mapper-Shows {m} mapper a v h =
    let after = (Mapper.write mapper a v).0 in
    ground (
      arith,
      write-SameRom mapper a v,
      bank_change_reported mapper a v,
      copy-SameRom mapper after mapper.effective_rom_bank 0x4000,
      copy-SameRom mapper after (current_fixed_rom_bank mapper) 0x4000,
    )

ram_write-Shows :
    {m : MemoryMap} (mapper : GameBoyMapper) (a v : ℕ)
    → Shows m mapper
    → Shows
        (record m { mapper = some (ram_write mapper a (v ∷ [])).0 })
        (ram_write mapper a (v ∷ [])).0
ram_write-Shows {m} mapper a v h =
    let after = (ram_write mapper a (v ∷ [])).0 in
    ground (
      arith,
      ram_write-banks mapper a (v ∷ []),
      copy-SameRom mapper after mapper.effective_rom_bank 0x4000,
      copy-SameRom mapper after (current_fixed_rom_bank mapper) 0x4000,
    )

-- The mapper after a write to external RAM.
after_external : MemoryMap → GameBoyMapper → ℕ → ℕ → GameBoyMapper
after_external m mapper a v = elim m.cartridge [
  | none ↦ (ram_write mapper a (v ∷ [])).0
  | some c ↦ mapper
]

write_external-Shows :
    {m : MemoryMap} (mapper : GameBoyMapper) (a v : ℕ)
    → Shows m mapper
    → Shows (write_external m a v).0 (after_external m mapper a v)
unfolding write_external after_external
write_external-Shows {m} mapper a v h = ground (arith, ram_write-Shows mapper a v h)

-- The mapper after a write that the memory map takes at a resolved address.
after_special : MemoryMap → GameBoyMapper → ℕ → ℕ → GameBoyMapper
after_special m mapper a v =
    if ltb a 0x8000
    then (Mapper.write mapper a v).0
    else if between 0xa000 0xc000 a
    then after_external m mapper a v
    else mapper

write_other-Shows :
    {m : MemoryMap} (mapper : GameBoyMapper) (a v : ℕ)
    → 0x8000 ≤ a
    → Shows m mapper
    → Shows (write_other m a v).0 (after_special m mapper a v)
unfolding write_other after_special set_io_register_raw
write_other-Shows {m} mapper a v k h = ground (arith, write_external-Shows mapper a v h)

handle_special_write-Shows :
    {m : MemoryMap} (mapper : GameBoyMapper) (a v : ℕ)
    → Shows m mapper
    → Shows (handle_special_write m a v).0 (after_special m mapper a v)
unfolding handle_special_write after_special
handle_special_write-Shows {m} mapper a v h =
    ground (arith, write_other-Shows {m = m} mapper a v, write_mapper-Shows mapper a v h)

-- Whatever byte a program writes, and wherever: if the two ROM windows show the banks that the mapper
-- selects, they do so afterwards, for the mapper as the write leaves it.
pub write-Shows :
    {m : MemoryMap} (mapper : GameBoyMapper) (address value : ℕ)
    → Shows m mapper
    → (mapper' : GameBoyMapper) × Shows (write m address value) mapper'
unfolding write
write-Shows {m} mapper address value h =
    let a = resolve_echo_address address in
    let special = handle_special_write-Shows mapper a value h in
    let (n, handled) = handle_special_write m a value in
    (
      after_special m mapper a value,
      if-keeps (λ n. Shows n (after_special m mapper a value)) handled special
          (SameMapping-Shows (write_raw-SameMapping n a value) special),
    )
