-- ===== src/GameBoy/Cartridge/BankBounds.antt =====
-- The bank numbers that the ROM windows are given lie in the image.
use proto_time.Base.{
  ℕ, ◌+◌, ◌*◌, ◌≤◌, ◌<◌, ◌≡◌, ◌≢◌, [], arith, get_or, drop, get_or-fit, get_or-drop, get_or_past,
}
use native.Mathlib.Nat.{mod-eq_of_lt}
use proto_time.GameBoy.Cartridge.Header.{mbc2, mbc5}
use proto_time.GameBoy.Cartridge.State.{Cartridge}
use proto_time.GameBoy.Cartridge.Banking.{
  mbc1_bank, fixed_bank_index, switchable_bank_index, copy_rom_bank_window,
}
use proto_time.GameBoy.Cartridge.Valid.{IsValid}

mbc1_bank-lt : (upper low count : ℕ) → 2 ≤ count → mbc1_bank upper low count < count
unfolding mbc1_bank
mbc1_bank-lt upper low count h = ground arith

mbc1_bank-ne-zero : (upper low count : ℕ) → 2 ≤ count → mbc1_bank upper low count ≢ 0
unfolding mbc1_bank
mbc1_bank-ne-zero upper low count h = ground (arith, mod-eq_of_lt {n = 1} {m = count})

-- In a valid cartridge both ROM windows show a bank that the image has. With two banks or more the
-- switchable window of an MBC1, of an MBC3 and of a cartridge without a mapper never shows bank zero.
pub bank_index_bounds :
    (c : Cartridge)
    → IsValid c
    → (fixed_bank_index c < c.metadata.rom_bank_count)
      × (switchable_bank_index c < c.metadata.rom_bank_count)
      × (2 ≤ c.metadata.rom_bank_count
          → c.metadata.mapper ≢ mbc2
          → c.metadata.mapper ≢ mbc5
          → switchable_bank_index c ≢ 0)
unfolding fixed_bank_index switchable_bank_index
bank_index_bounds c v =
    let count = c.metadata.rom_bank_count in
    let upper = c.mbc1_upper_bank_bits in
    let low = c.mbc1_low_bank_bits in
    (
      ground arith,
      ground (arith, mbc1_bank-lt upper low count),
      λ h n2 n5.
          ground (arith, mbc1_bank-ne-zero upper low count, mod-eq_of_lt {n = 1} {m = count}),
    )

-- Where the number that the two MBC1 registers hold is a bank of the image, that bank is shown.
pub mbc1_bank_lem :
    (upper low count : ℕ)
    → upper ≤ 3
    → 1 ≤ low
    → low ≤ 31
    → upper * 32 + low < count
    → mbc1_bank upper low count ≡ upper * 32 + low
unfolding mbc1_bank
mbc1_bank_lem upper low count u l1 l2 h =
    ground (arith, mod-eq_of_lt {n = upper * 32 + low} {m = count})

-- The window holds the bytes of the bank, and 0xFF where the image ends.
pub get_or-copy_rom_bank_window :
    (c : Cartridge) (bank size i : ℕ)
    → i < size
    → get_or (copy_rom_bank_window c bank size) i 0xff ≡ get_or c.rom (bank * 0x4000 + i) 0xff
unfolding copy_rom_bank_window
get_or-copy_rom_bank_window c bank size i h = ground (
  arith,
  get_or-fit {A = ℕ} size 255 (drop (bank * 0x4000) c.rom) i,
  get_or-fit {A = ℕ} size 255 [] i,
  get_or-drop {A = ℕ} (bank * 0x4000) c.rom i 255,
  get_or_past {A = ℕ} c.rom (bank * 0x4000 + i) 255,
)
