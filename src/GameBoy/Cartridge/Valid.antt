-- ===== src/GameBoy/Cartridge/Valid.antt =====
-- The invariant of `GameBoyCartridge`: what its registers can hold, for each kind of mapper.
use proto_time.Base.{
  ℕ, ◌+◌, ◌-◌, ◌%◌, ◌≤◌, ◌<◌, ◌≡◌, ◌≢◌, ◌⊎◌, refl, inl, inr, true, List, [], ◌∷◌, arith, length,
  length-replicate, length-set,
}
use proto_time.Base.Outcome.{done, throws}
use proto_time.GameBoy.Cartridge.Header.{
  CartridgeMapper, mbc1, mbc2, mbc3, mbc5, CartridgeMetadata, parse_cartridge_metadata,
}
use proto_time.GameBoy.Cartridge.State.{
  Cartridge, rom_empty, force_mbc1, at_least_one_bank, power_on, load,
}
use proto_time.GameBoy.Cartridge.Control.{
  write_mbc1, write_mbc2, write_mbc3, write_mbc5, select_mbc3_ram, latch_rtc, write_control,
}
use proto_time.GameBoy.Cartridge.Ram.{
  store_ram_byte, store_ram, store_rtc, write_index, write_external_area, write,
}

-- What `currentRomBank_` can hold under a mapper where the image has two banks or more.
abbrev pub RomBankFits : CartridgeMapper → ℕ → Type 0
RomBankFits mbc2 bank = (1 ≤ bank) × (bank ≤ 15)
RomBankFits mbc3 bank = (1 ≤ bank) × (bank ≤ 127)
RomBankFits mbc5 bank = bank ≤ 511
RomBankFits _ bank = (1 ≤ bank) × (bank ≤ 127)

abbrev pub RamBankFits : CartridgeMapper → ℕ → Type 0
RamBankFits mbc3 bank = bank ≤ 3
RamBankFits mbc5 bank = bank ≤ 15
RamBankFits _ bank = bank ≡ 0

pub record IsValid (c : Cartridge) : Type 0 where
  pub banks : 1 ≤ c.metadata.rom_bank_count
  pub rom_bank : c.metadata.rom_bank_count ≢ 1 → RomBankFits c.metadata.mapper c.current_rom_bank
  pub ram_bank : RamBankFits c.metadata.mapper c.current_ram_bank
  pub low_bits_set : 1 ≤ c.mbc1_low_bank_bits
  pub low_bits_small : c.mbc1_low_bank_bits ≤ 31
  pub upper_bits_small : c.mbc1_upper_bank_bits ≤ 3
  pub clock : length c.rtc_registers ≡ 5
  pub selector :
      (c.selected_rtc_register ≡ 0xff)
      ⊎ ((c.metadata.has_rtc ≡ true)
          × (8 ≤ c.selected_rtc_register)
          × (c.selected_rtc_register ≤ 12))
  pub ram_size : length c.external_ram ≡ c.metadata.external_ram_size

module _ {c : Cartridge} (address value : ℕ) (v : IsValid c) where
  write_mbc1-IsValid : c.metadata.mapper ≡ mbc1 → IsValid (write_mbc1 c address value).0
  unfolding write_mbc1
  write_mbc1-IsValid m = ground arith

  write_mbc2-IsValid : c.metadata.mapper ≡ mbc2 → IsValid (write_mbc2 c address value).0
  unfolding write_mbc2
  write_mbc2-IsValid m = ground arith

  write_mbc3-IsValid : c.metadata.mapper ≡ mbc3 → IsValid (write_mbc3 c address value).0
  unfolding write_mbc3 select_mbc3_ram latch_rtc
  write_mbc3-IsValid m = ground arith

  write_mbc5-IsValid :
      c.metadata.mapper ≡ mbc5 → value < 256 → IsValid (write_mbc5 c address value).0
  unfolding write_mbc5
  write_mbc5-IsValid m h = ground arith

  write_control-IsValid : value < 256 → IsValid (write_control c address value).0
  unfolding write_control
  write_control-IsValid h = ground (
    arith,
    write_mbc1-IsValid,
    write_mbc2-IsValid,
    write_mbc3-IsValid,
    (λ (m : c.metadata.mapper ≡ mbc5). write_mbc5-IsValid m h),
  )

store_ram_byte-IsValid :
    {c : Cartridge} (index value : ℕ) → IsValid c → IsValid (store_ram_byte c index value)
unfolding store_ram_byte
store_ram_byte-IsValid {c} index value v =
    ground
      (arith, length-set c.external_ram index value, length-set c.external_ram index (value % 16))

store_ram-IsValid :
    (c : Cartridge) (address i : ℕ) (values : List ℕ)
    → IsValid c
    → IsValid (store_ram c address i values)
unfolding store_ram
store_ram-IsValid c address i [] v = v
store_ram-IsValid c address i (value ∷ values) v =
    store_ram-IsValid (store_ram_byte c (write_index c address i) value) address (i + 1) values
      (store_ram_byte-IsValid (write_index c address i) value v)

store_rtc-IsValid : {c : Cartridge} (value : ℕ) → IsValid c → IsValid (store_rtc c value)
unfolding store_rtc
store_rtc-IsValid {c} value v =
    ground (arith, length-set c.rtc_registers (c.selected_rtc_register - 8) value)

pub write_external_area-IsValid :
    {c : Cartridge} (address : ℕ) (values : List ℕ)
    → IsValid c
    → IsValid (write_external_area c address values).0
unfolding write_external_area
write_external_area-IsValid {c} address [] v = ground (arith, store_ram-IsValid c address 0 [] v)
write_external_area-IsValid {c} address (value ∷ values) v =
    ground (arith, store_rtc-IsValid value v, store_ram-IsValid c address 0 (value ∷ values) v)

-- Every write of a byte keeps the invariant, whatever the address.
pub write-IsValid :
    {c : Cartridge} (address value : ℕ)
    → value < 256
    → IsValid c
    → IsValid (write c address value).0
unfolding write
write-IsValid address value h v = ground (
  arith,
  write_external_area-IsValid address (value ∷ []) v,
  write_control-IsValid address value v h,
)

power_on-IsValid :
    (m : CartridgeMetadata) (bytes : List ℕ) → 1 ≤ m.rom_bank_count → IsValid (power_on m bytes)
unfolding power_on
power_on-IsValid m bytes h = ground (arith, length-replicate {A = ℕ} m.external_ram_size 0)

-- A cartridge that `load` accepts is valid; it refuses the empty image only.
load-IsValid :
    (bytes : List ℕ)
    → (((bytes ≡ []) × (load bytes ≡ throws rom_empty))
        ⊎ ((c : Cartridge) × (load bytes ≡ done c) × IsValid c × (c.rom ≡ bytes)))
unfolding load at_least_one_bank power_on
load-IsValid [] = inl (refl, refl)
load-IsValid (b ∷ bytes) =
    inr (power_on m image, ground arith, power_on-IsValid m image (ground arith), refl)
  where
    image : List ℕ
    image = b ∷ bytes

    m : CartridgeMetadata
    m = at_least_one_bank (force_mbc1 (parse_cartridge_metadata image) image)
