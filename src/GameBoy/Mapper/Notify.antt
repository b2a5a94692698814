-- ===== src/GameBoy/Mapper/Notify.antt =====
-- What the result of a mapper write says of the banks, and what no write touches.
use proto_time.Base.{ℕ, ◌≡◌, false, List, arith}
use proto_time.GameBoy.Mapper.{
  GameBoyMapper, write, write_mbc1, write_mbc2, write_mbc3, write_mbc5, update_mbc1_banking,
  update_mbc5_banking, current_fixed_rom_bank, ram_write, copy_rom_bank_window,
}

-- The bytes that a ROM window is copied from are the same.
abbrev pub SameRom : GameBoyMapper → GameBoyMapper → Type 0
SameRom m n =
    (n.rom_data ≡ m.rom_data)
    × (n.rom_bank_count ≡ m.rom_bank_count)
    × (n.mapper_type ≡ m.mapper_type)

pub write-SameRom : (m : GameBoyMapper) (address value : ℕ) → SameRom m (write m address value).0
unfolding write write_mbc1 write_mbc2 write_mbc3 write_mbc5 update_mbc1_banking update_mbc5_banking
write-SameRom m address value = ground arith

pub copy-SameRom :
    (m n : GameBoyMapper) (bank size : ℕ)
    → SameRom m n
    → copy_rom_bank_window n bank size ≡ copy_rom_bank_window m bank size
unfolding copy_rom_bank_window
copy-SameRom m n bank size s = ground arith

-- A write of the mapper whose result reports no change of the switchable bank, or of the fixed one,
-- has left that bank as it was.
pub bank_change_reported :
    (m : GameBoyMapper) (address value : ℕ)
    → ((write m address value).1.rom_bank_changed ≡ false
        → (write m address value).0.effective_rom_bank ≡ m.effective_rom_bank)
      × ((write m address value).1.fixed_rom_bank_changed ≡ false
          → current_fixed_rom_bank (write m address value).0 ≡ current_fixed_rom_bank m)
unfolding write write_mbc1 write_mbc2 write_mbc3 write_mbc5 update_mbc1_banking update_mbc5_banking
    current_fixed_rom_bank
bank_change_reported m address value = (ground arith, ground arith)

pub ram_write-banks :
    (m : GameBoyMapper) (address : ℕ) (value : List ℕ)
    → SameRom m (ram_write m address value).0
      × ((ram_write m address value).0.effective_rom_bank ≡ m.effective_rom_bank)
      × (current_fixed_rom_bank (ram_write m address value).0 ≡ current_fixed_rom_bank m)
unfolding ram_write current_fixed_rom_bank
ram_write-banks m address value = ground arith
