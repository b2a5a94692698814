-- ===== src/GameBoy/Cartridge/Header.antt =====
-- The cartridge header: what the bytes from 0x134 on say of the mapper, the RAM and the battery.
use proto_time.Base.{
  ℕ, ◌+◌, ◌-◌, ◌/◌, Bool, false, ◌||◌, List, [], ◌∷◌, length, get_or, take, drop, ◌==◌, between,
  if◌then◌else◌,
}

pub data CartridgeMapper : Type 0 where
  no_mapper mbc1 mbc2 mbc3 mbc5 : CartridgeMapper

pub record CartridgeMetadata : Type 0 where
  pub title : List ℕ
  pub mapper : CartridgeMapper
  pub cartridge_type : ℕ
  pub rom_size_code : ℕ
  pub ram_size_code : ℕ
  pub rom_bank_count : ℕ
  pub external_ram_size : ℕ
  pub has_battery : Bool
  pub has_rtc : Bool

-- The cases of a `switch` that share a branch.
abbrev pub one_of : List ℕ → ℕ → Bool
one_of [] x = false
one_of (k ∷ ks) x = (x == k) || one_of ks x

ram_size_for_code : ℕ → ℕ
ram_size_for_code code =
    if code == 0x00
    then 0
    else if code == 0x01
    then 0x0800
    else if code == 0x02
    then 0x2000
    else if code == 0x03
    then 0x8000
    else if code == 0x04
    then 0x20000
    else if code == 0x05
    then 0x10000
    else 0

unfoldable pub ram_size_for_header : ℕ → CartridgeMapper → ℕ
unfolding ram_size_for_code
ram_size_for_header code mapper = elim mapper [ mbc2 ↦ 0x0200 | _ ↦ ram_size_for_code code ]

unfoldable pub mapper_for_type : ℕ → CartridgeMapper
mapper_for_type type =
    if type == 0x00
    then no_mapper
    else if one_of (0x01 ∷ 0x02 ∷ 0x03 ∷ []) type
    then mbc1
    else if one_of (0x05 ∷ 0x06 ∷ []) type
    then mbc2
    else if one_of (0x0f ∷ 0x10 ∷ 0x11 ∷ 0x12 ∷ 0x13 ∷ []) type
    then mbc3
    else if one_of (0x19 ∷ 0x1a ∷ 0x1b ∷ 0x1c ∷ 0x1d ∷ 0x1e ∷ []) type
    then mbc5
    else no_mapper

unfoldable pub type_has_battery : ℕ → Bool
type_has_battery = one_of (0x03 ∷ 0x06 ∷ 0x09 ∷ 0x0f ∷ 0x10 ∷ 0x13 ∷ 0x1b ∷ 0x1e ∷ [])

unfoldable pub type_has_rtc : ℕ → Bool
type_has_rtc type = (type == 0x0f) || (type == 0x10)

-- `std::toupper` of the C locale.
abbrev pub to_upper : ℕ → ℕ
to_upper ch = if between 0x61 0x7b ch then ch - 0x20 else ch

-- The title's loop stops at the first zero byte.
unfoldable pub title_of : List ℕ → List ℕ
title_of [] = []
title_of (ch ∷ rest) = if ch == 0 then [] else to_upper ch ∷ title_of rest

-- A byte of the header, or zero where the image is too short to hold it.
abbrev pub header_byte : List ℕ → ℕ → ℕ
header_byte bytes at = get_or bytes at 0x00

unfoldable pub parse_cartridge_metadata : List ℕ → CartridgeMetadata
parse_cartridge_metadata bytes =
    let type = header_byte bytes 0x147 in
    let ram_code = header_byte bytes 0x149 in
    let mapper = mapper_for_type type in
    record {
      title = title_of (take (0x144 - 0x134) (drop 0x134 bytes));
      mapper = mapper;
      cartridge_type = type;
      rom_size_code = header_byte bytes 0x148;
      ram_size_code = ram_code;
      rom_bank_count = (length bytes + 0x3fff) / 0x4000;
      external_ram_size = ram_size_for_header ram_code mapper;
      has_battery = type_has_battery type;
      has_rtc = type_has_rtc type;
    }
