-- ===== src/GameBoy/MemoryMap/Boot.antt =====
-- The boot ROM overlay: one register switches it off, and no write brings it back.
use proto_time.Base.{
  ℕ, zero, suc, ◌+◌, ◌-◌, ◌*◌, ◌%◌, ◌^◌, ◌≡◌, refl, not, ◌&&◌, some, arith, length, set, ◌==◌,
  Option-cases, inl, inr,
}
use proto_time.GameBoy.Mapper
use proto_time.GameBoy.Mapper.{GameBoyMapper, WriteResult}
use proto_time.GameBoy.MemoryMap.State.{
  MemoryMap, install_rom_window, set_io_register_raw, resolve_echo_address,
}
use proto_time.GameBoy.MemoryMap.Access.{
  read_raw, dma_from, perform_oam_dma, write_io, write_high, write_raw, write_external,
  refresh_windows, write_mapper, write_other, handle_special_write, write,
}

abbrev SameBoot : MemoryMap → MemoryMap → Type 0
SameBoot m n = (n.boot_rom_active ≡ m.boot_rom_active) × (n.boot_rom ≡ m.boot_rom)

dma_from-SameBoot : (m : MemoryMap) (source i n : ℕ) → SameBoot m (dma_from m source i n)
unfolding dma_from
dma_from-SameBoot m source i zero = (refl, refl)
dma_from-SameBoot m source i (suc n) =
    dma_from-SameBoot (record m { oam = set m.oam i (read_raw m ((source + i) % 2 ^ 16)) }) source
      (i + 1) n

write_io-SameBoot : (m : MemoryMap) (a v : ℕ) → SameBoot m (write_io m a v)
unfolding write_io perform_oam_dma
write_io-SameBoot m a v =
    let stored = record m { io_regs = set m.io_regs (a - 0xff00) v } in
    ground (arith, dma_from-SameBoot stored (v * 2 ^ 8) 0 (length stored.oam))

write_high-SameBoot : (m : MemoryMap) (a v : ℕ) → SameBoot m (write_high m a v)
unfolding write_high
write_high-SameBoot m a v = ground (arith, write_io-SameBoot m a v)

write_raw-SameBoot : (m : MemoryMap) (a v : ℕ) → SameBoot m (write_raw m a v)
unfolding write_raw
write_raw-SameBoot m a v = ground (arith, write_high-SameBoot m a v)

refresh_windows-SameBoot :
    (m : MemoryMap) (mapper : GameBoyMapper) (r : WriteResult)
    → SameBoot m (refresh_windows m mapper r)
unfolding refresh_windows install_rom_window
refresh_windows-SameBoot m mapper r = ground arith

-- The overlay of a map after a special write.
abbrev AfterWrite : MemoryMap → ℕ → ℕ → MemoryMap → Type 0
AfterWrite m a v n =
    (n.boot_rom_active ≡ m.boot_rom_active && not ((a == 0xff50) && not (v == 0)))
    × (n.boot_rom ≡ m.boot_rom)

write_other-AfterWrite : (m : MemoryMap) (a v : ℕ) → AfterWrite m a v (write_other m a v).0
unfolding write_other write_external set_io_register_raw
write_other-AfterWrite m a v = ground arith

handle_special_write-AfterWrite :
    (m : MemoryMap) (a v : ℕ) → AfterWrite m a v (handle_special_write m a v).0
unfolding handle_special_write write_mapper
handle_special_write-AfterWrite m a v = elim (Option-cases m.mapper) [
  | inl e ↦ ground (arith, write_other-AfterWrite m a v)
  | inr (mapper, e) ↦
      let (mapper', result) = Mapper.write mapper a v in
      ground (
        arith,
        write_other-AfterWrite m a v,
        refresh_windows-SameBoot (record m { mapper = some mapper' }) mapper' result,
      )
]

-- After a write of a byte the boot ROM is mapped exactly if it was mapped before and the write was not
-- one of a byte other than zero to 0xFF50. The boot ROM's bytes stay as they are.
boot_latch :
    (m : MemoryMap) (address value : ℕ)
    → ((write m address value).boot_rom_active
        ≡ m.boot_rom_active && not ((address == 0xff50) && not (value == 0)))
      × ((write m address value).boot_rom ≡ m.boot_rom)
unfolding write resolve_echo_address
boot_latch m address value =
    let a = resolve_echo_address address in
    let (n, handled) = handle_special_write m a value in
    ground (arith, handle_special_write-AfterWrite m a value, write_raw-SameBoot n a value)
