-- ===== src/GameBoy/Cartridge/Notify.antt =====
-- The caller of `write` installs the ROM windows anew only where the result says that a bank changed.
use proto_time.Base.{ℕ, ◌+◌, ◌≡◌, refl, false, List, [], ◌∷◌, arith}
use proto_time.GameBoy.Cartridge.State.{Cartridge}
use proto_time.GameBoy.Cartridge.Banking.{fixed_bank_index, switchable_bank_index}
use proto_time.GameBoy.Cartridge.Control.{
  write_mbc1, write_mbc2, write_mbc3, write_mbc5, select_mbc3_ram, latch_rtc, write_control,
}
use proto_time.GameBoy.Cartridge.Ram.{
  store_ram_byte, store_ram, store_rtc, write_index, write_external_area, write,
}

-- All that the bank numbers are computed from is the same.
abbrev pub SameMapping : Cartridge → Cartridge → Type 0
SameMapping c d =
    (d.metadata ≡ c.metadata)
    × (d.current_rom_bank ≡ c.current_rom_bank)
    × (d.mbc1_low_bank_bits ≡ c.mbc1_low_bank_bits)
    × (d.mbc1_upper_bank_bits ≡ c.mbc1_upper_bank_bits)
    × (d.mbc1_banking_mode_select ≡ c.mbc1_banking_mode_select)

pub store_ram_byte-SameMapping :
    (c : Cartridge) (index value : ℕ) → SameMapping c (store_ram_byte c index value)
unfolding store_ram_byte
store_ram_byte-SameMapping c index value = ground arith

pub store_ram-SameMapping :
    (c : Cartridge) (address i : ℕ) (values : List ℕ) → SameMapping c (store_ram c address i values)
unfolding store_ram
store_ram-SameMapping c address i [] = (refl, refl, refl, refl, refl)
store_ram-SameMapping c address i (value ∷ values) =
    let stored = store_ram_byte c (write_index c address i) value in
    ground (
      arith,
      store_ram_byte-SameMapping c (write_index c address i) value,
      store_ram-SameMapping stored address (i + 1) values,
    )

write_external_area-SameMapping :
    (c : Cartridge) (address : ℕ) (values : List ℕ)
    → SameMapping c (write_external_area c address values).0
unfolding write_external_area store_rtc
write_external_area-SameMapping c address [] = ground (arith, store_ram-SameMapping c address 0 [])
write_external_area-SameMapping c address (value ∷ values) =
    ground (arith, store_ram-SameMapping c address 0 (value ∷ values))

write_control-SameMapping :
    (c : Cartridge) (address value : ℕ)
    → (write_control c address value).1.rom_bank_changed ≡ false
    → SameMapping c (write_control c address value).0
unfolding write_control write_mbc1 write_mbc2 write_mbc3 write_mbc5 select_mbc3_ram latch_rtc
write_control-SameMapping c address value h = ground arith

write-SameMapping :
    (c : Cartridge) (address value : ℕ)
    → (write c address value).1.rom_bank_changed ≡ false
    → SameMapping c (write c address value).0
unfolding write
write-SameMapping c address value h = ground (
  arith,
  write_external_area-SameMapping c address (value ∷ []),
  write_control-SameMapping c address value,
)

SameMapping-banks :
    (c d : Cartridge)
    → SameMapping c d
    → (fixed_bank_index d ≡ fixed_bank_index c)
      × (switchable_bank_index d ≡ switchable_bank_index c)
unfolding fixed_bank_index switchable_bank_index
SameMapping-banks c d s = ground arith

-- Whenever a write of a byte changes the bank of a ROM window, at any address and under any mapper,
-- its result reports a changed bank: without the report both windows show the banks that they did.
pub remap_reported :
    (c : Cartridge) (address value : ℕ)
    → (write c address value).1.rom_bank_changed ≡ false
    → (fixed_bank_index (write c address value).0 ≡ fixed_bank_index c)
      × (switchable_bank_index (write c address value).0 ≡ switchable_bank_index c)
remap_reported c address value h = SameMapping-banks c _ (write-SameMapping c address value h)
