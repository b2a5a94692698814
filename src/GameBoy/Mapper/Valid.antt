-- ===== src/GameBoy/Mapper/Valid.antt =====
-- The invariant of `GameBoyMapper` after `load`: the bank shown is one of the image.
use proto_time.Base.{ℕ, ◌%◌, ◌≤◌, ◌<◌, ◌≡◌, List, arith, length, length-replicate}
use proto_time.GameBoy.Cartridge.Header.{parse_cartridge_metadata}
use proto_time.GameBoy.Mapper.{
  GameBoyMapper, load, write, write_mbc1, write_mbc2, write_mbc3, write_mbc5, never_zero,
  mbc1_effective_bank, current_fixed_rom_bank,
}

pub record IsValid (m : GameBoyMapper) : Type 0 where
  pub banks : 2 ≤ m.rom_bank_count
  pub bank : m.effective_rom_bank < m.rom_bank_count
  pub mode : m.ram_bank_mode ≤ 1
  pub ram : 0 < m.external_ram_size → length m.external_ram ≡ m.external_ram_size

-- A mapper is valid once an image is loaded, whatever it held before.
pub mapper_load-IsValid : (m : GameBoyMapper) (rom : List ℕ) → IsValid (load m rom)
unfolding load
mapper_load-IsValid m rom =
    ground (arith, length-replicate {A = ℕ} (parse_cartridge_metadata rom).external_ram_size 255)

mbc1_effective_bank-lt :
    (select low count : ℕ) → 2 ≤ count → mbc1_effective_bank select low count < count
unfolding mbc1_effective_bank
mbc1_effective_bank-lt select low count h = ground arith

current_fixed_rom_bank-lt :
    (m : GameBoyMapper) → 2 ≤ m.rom_bank_count → current_fixed_rom_bank m < m.rom_bank_count
unfolding current_fixed_rom_bank
current_fixed_rom_bank-lt m h = ground arith

module _ (m : GameBoyMapper) (address value : ℕ) (v : IsValid m) where
  write_mbc1-IsValid : IsValid (write_mbc1 m address value).0
  unfolding write_mbc1
  write_mbc1-IsValid = ground (
    arith,
    mbc1_effective_bank-lt m.ram_bank_select (never_zero (value % 32)) m.rom_bank_count,
    mbc1_effective_bank-lt (value % 4) m.rom_bank_low m.rom_bank_count,
    mbc1_effective_bank-lt m.ram_bank_select m.rom_bank_low m.rom_bank_count,
  )

  write_mbc2-IsValid : IsValid (write_mbc2 m address value).0
  unfolding write_mbc2
  write_mbc2-IsValid = ground arith

  write_mbc3-IsValid : IsValid (write_mbc3 m address value).0
  unfolding write_mbc3
  write_mbc3-IsValid = ground arith

  write_mbc5-IsValid : IsValid (write_mbc5 m address value).0
  unfolding write_mbc5
  write_mbc5-IsValid = ground arith

  write-count : (write m address value).0.rom_bank_count ≡ m.rom_bank_count
  unfolding write write_mbc1 write_mbc2 write_mbc3 write_mbc5
  write-count = ground arith

  -- Every write keeps a valid mapper valid: neither the bank of the switchable window nor that of the
  -- fixed one leaves the image.
  mapper_write-IsValid :
      IsValid (write m address value).0
      × (current_fixed_rom_bank (write m address value).0 < m.rom_bank_count)
  unfolding write
  mapper_write-IsValid = ground (
    arith,
    write_mbc1-IsValid,
    write_mbc2-IsValid,
    write_mbc3-IsValid,
    write_mbc5-IsValid,
    current_fixed_rom_bank-lt (write m address value).0,
    write-count,
  )
