-- ===== src/GameBoy/Cartridge/Banking.antt =====
-- Which ROM bank is seen in each window, and which bank of external RAM.
use proto_time.Base.{
  ℕ, ◌+◌, ◌*◌, ◌/◌, ◌%◌, ◌^◌, List, [], length, drop, leb, ltb, ◌==◌, if◌then◌else◌, max, fit,
}
use proto_time.Base.Bits.{low_bits, join}
use proto_time.GameBoy.Cartridge.Header.{no_mapper, mbc1, mbc2, mbc3, mbc5}
use proto_time.GameBoy.Cartridge.State.{Cartridge}

unfoldable pub fixed_bank_index : Cartridge → ℕ
fixed_bank_index c = elim c.metadata.mapper [
  | mbc1 ↦
      if c.mbc1_banking_mode_select
      then (c.mbc1_upper_bank_bits * 2 ^ 5) % c.metadata.rom_bank_count
      else 0
  | _ ↦ 0
]

-- The MBC1 bank number: the number that the two registers hold, in range, and never a bank whose low
-- five bits are zero while there is another.
unfoldable pub mbc1_bank : ℕ → ℕ → ℕ → ℕ
mbc1_bank upper low count =
    let wrapped = low_bits 7 (join 5 upper (low_bits 5 low)) % count in
    let bank = if low_bits 5 wrapped == 0 then (wrapped + 1) % count else wrapped in
    if bank == 0 then 1 % count else bank

unfoldable pub switchable_bank_index : Cartridge → ℕ
switchable_bank_index c =
    let count = c.metadata.rom_bank_count in
    let bank = c.current_rom_bank in
    if leb count 1 then 0 else elim c.metadata.mapper [
      | no_mapper ↦ 1
      | mbc1 ↦ mbc1_bank c.mbc1_upper_bank_bits c.mbc1_low_bank_bits count
      | mbc2 ↦ bank % count
      | mbc3 ↦ if bank % count == 0 then 1 % count else bank % count
      | mbc5 ↦ bank % count
    ]

-- The window is filled with 0xFF, and the bank copied over it.
unfoldable pub copy_rom_bank_window : Cartridge → ℕ → ℕ → List ℕ
copy_rom_bank_window c bank_index window_size =
    let offset = bank_index * 0x4000 in
    fit window_size 0xff (if ltb offset (length c.rom) then drop offset c.rom else [])

unfoldable pub ram_bank_size : Cartridge → ℕ
ram_bank_size c = elim c.metadata.mapper [ mbc2 ↦ 0x0200 | _ ↦ 0x2000 ]

unfoldable pub selected_ram_bank_index : Cartridge → ℕ
selected_ram_bank_index c =
    let bank_count = max 1 (length c.external_ram / ram_bank_size c) in
    if length c.external_ram == 0 then 0 else elim c.metadata.mapper [
      | mbc1 ↦ if c.mbc1_banking_mode_select then c.mbc1_upper_bank_bits % bank_count else 0
      | mbc2 ↦ 0
      | no_mapper ↦ 0
      | _ ↦ c.current_ram_bank % bank_count
    ]
