-- ===== src/GameBoy/Mapper.antt =====
-- cores/gameboy/GameBoyMapper.cpp: the mapper that the memory map asks for its ROM windows.
pub mod Valid
pub mod Agreement
pub mod SaveRoundTrip
pub mod RamBounds
pub mod Notify
mod Tests
use proto_time.Base.{
  ℕ, ◌+◌, ◌-◌, ◌*◌, ◌/◌, ◌%◌, ◌^◌, Bool, true, false, not, ◌&&◌, ◌||◌, List, [], ◌∷◌, ◌++◌, Option,
  none, some, length, take, drop, replicate, fit, ltb, leb, ◌==◌, between, if◌then◌else◌, min,
}
use proto_time.Base.Bits.{low_bits, test_bit, join, shr}
use proto_time.Base.Outcome.{Outcome, done, throws}
use proto_time.GameBoy.Cartridge.Header.{
  CartridgeMapper, no_mapper, mbc1, mbc2, mbc3, mbc5, parse_cartridge_metadata,
}

pub record GameBoyMapper : Type 0 where
  pub mapper_type : CartridgeMapper
  pub rom_data : List ℕ
  pub rom_size : ℕ
  pub rom_bank_count : ℕ
  pub external_ram_size : ℕ
  pub external_ram : List ℕ
  pub rom_bank_low : ℕ
  pub effective_rom_bank : ℕ
  pub ram_bank_select : ℕ
  pub ram_bank_mode : ℕ
  pub ram_enabled : Bool
  pub dirty : Bool
  pub has_battery : Bool

pub record WriteResult : Type 0 where
  pub handled : Bool
  pub rom_bank_changed : Bool
  pub fixed_rom_bank_changed : Bool

abbrev pub ignored : WriteResult
ignored = record { handled = false; rom_bank_changed = false; fixed_rom_bank_changed = false }

abbrev pub taken : WriteResult
taken = record { handled = true; rom_bank_changed = false; fixed_rom_bank_changed = false }

abbrev pub switched : WriteResult
switched = record { handled = true; rom_bank_changed = true; fixed_rom_bank_changed = false }

-- The default member initialisers.
unfoldable pub new : GameBoyMapper
new = record {
  mapper_type = no_mapper;
  rom_data = [];
  rom_size = 0;
  rom_bank_count = 0;
  external_ram_size = 0;
  external_ram = [];
  rom_bank_low = 1;
  effective_rom_bank = 1;
  ram_bank_select = 0;
  ram_bank_mode = 0;
  ram_enabled = false;
  dirty = false;
  has_battery = false;
}

unfoldable pub reset : GameBoyMapper → GameBoyMapper
reset m = record m {
  rom_bank_low = 1;
  effective_rom_bank = 1;
  ram_bank_select = 0;
  ram_bank_mode = 0;
  ram_enabled = false;
  dirty = false;
}

-- External RAM is assigned only where the header asks for some.
unfoldable pub load : GameBoyMapper → List ℕ → GameBoyMapper
unfolding reset
load m rom =
    let meta = parse_cartridge_metadata rom in
    let banks = length rom / 0x4000 in
    reset (record m {
      mapper_type = meta.mapper;
      rom_data = rom;
      rom_size = length rom;
      rom_bank_count = if ltb banks 2 then 2 else banks;
      external_ram_size = meta.external_ram_size;
      external_ram =
          if ltb 0 meta.external_ram_size
          then replicate meta.external_ram_size 0xff
          else m.external_ram;
      has_battery = meta.has_battery;
    })

unfoldable pub current_fixed_rom_bank : GameBoyMapper → ℕ
current_fixed_rom_bank m = elim m.mapper_type [
  | mbc1 ↦
      if (m.ram_bank_mode == 0) || (m.rom_bank_count == 0)
      then 0
      else (low_bits 2 m.ram_bank_select * 2 ^ 5) % m.rom_bank_count
  | _ ↦ 0
]

-- The bank that `updateMbc1Banking` computes from the upper bits, the low bits and the bank count.
unfoldable pub mbc1_effective_bank : ℕ → ℕ → ℕ → ℕ
mbc1_effective_bank select low count =
    let wrapped = low_bits 7 (join 5 (low_bits 2 select) (low_bits 5 low)) % count in
    let bank = if low_bits 5 wrapped == 0 then (wrapped + 1) % count else wrapped in
    if bank == 0 then 1 % count else bank

unfoldable pub update_mbc1_banking : GameBoyMapper → GameBoyMapper
update_mbc1_banking m = record m {
  effective_rom_bank = mbc1_effective_bank m.ram_bank_select m.rom_bank_low m.rom_bank_count;
}

-- A bank that the image lacks becomes the last bank.
unfoldable pub clamp_bank : ℕ → ℕ → ℕ
clamp_bank bank count = if leb count bank then count - 1 else bank

unfoldable pub update_mbc5_banking : GameBoyMapper → GameBoyMapper
unfolding clamp_bank
update_mbc5_banking m = record m {
  effective_rom_bank = clamp_bank (low_bits 9 m.rom_bank_low) m.rom_bank_count;
}

abbrev pub ram_gate : GameBoyMapper → ℕ → GameBoyMapper
ram_gate m value = record m { ram_enabled = low_bits 4 value == 0x0a }

abbrev pub never_zero : ℕ → ℕ
never_zero bank = if bank == 0 then 1 else bank

-- The result of a write that may also move the fixed window, against the bank shown before.
abbrev pub switched_from : GameBoyMapper → GameBoyMapper → GameBoyMapper × WriteResult
switched_from m m' = (
  m',
  record {
    handled = true;
    rom_bank_changed = true;
    fixed_rom_bank_changed = not (current_fixed_rom_bank m' == current_fixed_rom_bank m);
  },
)

unfoldable pub write_mbc1 : GameBoyMapper → ℕ → ℕ → GameBoyMapper × WriteResult
unfolding update_mbc1_banking
write_mbc1 m address value =
    if ltb address 0x2000
    then (ram_gate m value, taken)
    else if ltb address 0x4000
    then (update_mbc1_banking (record m { rom_bank_low = never_zero (low_bits 5 value) }), switched)
    else if ltb address 0x6000
    then switched_from m (update_mbc1_banking (record m { ram_bank_select = low_bits 2 value }))
    else if ltb address 0x8000
    then switched_from m (update_mbc1_banking (record m { ram_bank_mode = low_bits 1 value }))
    else (m, ignored)

unfoldable pub write_mbc2 : GameBoyMapper → ℕ → ℕ → GameBoyMapper × WriteResult
write_mbc2 m address value =
    let low = never_zero (low_bits 4 value) in
    if ltb address 0x4000
    then (if test_bit 8 address
        then (
          record m { rom_bank_low = low; effective_rom_bank = low % m.rom_bank_count },
          switched,
        )
        else (ram_gate m value, taken))
    else (m, ignored)

unfoldable pub write_mbc3 : GameBoyMapper → ℕ → ℕ → GameBoyMapper × WriteResult
unfolding clamp_bank
write_mbc3 m address value =
    let low = never_zero (low_bits 7 value) in
    if ltb address 0x2000
    then (ram_gate m value, taken)
    else if ltb address 0x4000
    then (
      record m { rom_bank_low = low; effective_rom_bank = clamp_bank low m.rom_bank_count },
      switched,
    )
    else if ltb address 0x6000
    then (record m { ram_bank_select = value }, taken)
    else if ltb address 0x8000
    then (m, taken)
    else (m, ignored)

unfoldable pub write_mbc5 : GameBoyMapper → ℕ → ℕ → GameBoyMapper × WriteResult
unfolding update_mbc5_banking
write_mbc5 m address value =
    if ltb address 0x2000
    then (ram_gate m value, taken)
    else if ltb address 0x3000
    then (
      update_mbc5_banking
          (record m { rom_bank_low = join 8 (low_bits 1 (shr 8 m.rom_bank_low)) value }),
      switched,
    )
    else if ltb address 0x4000
    then (
      update_mbc5_banking
          (record m { rom_bank_low = join 8 (low_bits 1 value) (low_bits 8 m.rom_bank_low) }),
      switched,
    )
    else if ltb address 0x6000
    then (record m { ram_bank_select = low_bits 4 value }, taken)
    else if ltb address 0x8000
    then (m, taken)
    else (m, ignored)

unfoldable pub write : GameBoyMapper → ℕ → ℕ → GameBoyMapper × WriteResult
write m address value = elim m.mapper_type [
  | no_mapper ↦ (m, if between 0xa000 0xc000 address then taken else ignored)
  | mbc1 ↦ write_mbc1 m address value
  | mbc2 ↦ write_mbc2 m address value
  | mbc3 ↦ write_mbc3 m address value
  | mbc5 ↦ write_mbc5 m address value
]

abbrev pub has_mapper : CartridgeMapper → Bool
has_mapper no_mapper = false
has_mapper _ = true

abbrev pub is_ram_address : GameBoyMapper → ℕ → Bool
is_ram_address m address =
    has_mapper m.mapper_type && m.ram_enabled && between 0xa000 0xc000 address

-- How many bytes an access of `n` bytes at `address` moves: none where the code returns false.
unfoldable pub ram_count : GameBoyMapper → ℕ → ℕ → ℕ
ram_count m address n =
    let offset = address - 0xa000 in
    if not (is_ram_address m address)
    then 0
    else if length m.external_ram == 0
    then 0
    else if leb m.external_ram_size offset
    then 0
    else min n (m.external_ram_size - offset)

-- `ramRead` into a span of `n` bytes: the bytes that it copies, none where it returns false.
unfoldable pub ram_read : GameBoyMapper → ℕ → ℕ → List ℕ
ram_read m address n = take (ram_count m address n) (drop (address - 0xa000) m.external_ram)

-- `memcpy` over the array from `start` on.
abbrev pub copy_in : List ℕ → ℕ → List ℕ → List ℕ
copy_in array start bytes = take start array ++ (bytes ++ drop (start + length bytes) array)

unfoldable pub ram_write : GameBoyMapper → ℕ → List ℕ → GameBoyMapper × Bool
ram_write m address value =
    let count = ram_count m address (length value) in
    if count == 0 then (m, false) else (
      record m {
        external_ram = copy_in m.external_ram (address - 0xa000) (take count value);
        dirty = true;
      },
      true,
    )

unfoldable pub copy_rom_bank_window : GameBoyMapper → ℕ → ℕ → List ℕ
copy_rom_bank_window m bank_index window_size =
    let start = bank_index * 0x4000 in
    if leb m.rom_bank_count bank_index
    then replicate window_size 0xff
    else if leb (length m.rom_data) start
    then replicate window_size 0xff
    else fit window_size 0xff (drop start m.rom_data)

pub record SaveState : Type 0 where
  pub rom_size : ℕ
  pub rom_bank_count : ℕ
  pub rom_bank_low : ℕ
  pub effective_rom_bank : ℕ
  pub ram_bank_select : ℕ
  pub ram_bank_mode : ℕ
  pub ram_enabled : Bool
  pub dirty : Bool
  pub has_battery : Bool
  pub external_ram_valid : Bool
  pub external_ram : List ℕ

unfoldable pub export_state : GameBoyMapper → SaveState
export_state m = record {
  rom_size = m.rom_size;
  rom_bank_count = m.rom_bank_count;
  rom_bank_low = m.rom_bank_low;
  effective_rom_bank = m.effective_rom_bank;
  ram_bank_select = m.ram_bank_select;
  ram_bank_mode = m.ram_bank_mode;
  ram_enabled = m.ram_enabled;
  dirty = m.dirty;
  has_battery = m.has_battery;
  external_ram_valid = m.dirty && not (length m.external_ram == 0);
  external_ram = m.external_ram;
}

pub data MapperError : Type 0 where
  rom_mismatch : MapperError
  rom_bank_out_of_range : MapperError
  banking_mode_invalid : MapperError
  external_ram_size_mismatch : MapperError
  unexpected_external_ram : MapperError

unfoldable pub import_state : GameBoyMapper → SaveState → Outcome MapperError GameBoyMapper
import_state m s =
    let has_ram = not (length m.external_ram == 0) in
    if not (s.rom_size == m.rom_size) || not (s.rom_bank_count == m.rom_bank_count)
    then throws rom_mismatch
    else if leb m.rom_bank_count s.effective_rom_bank
    then throws rom_bank_out_of_range
    else if ltb 1 s.ram_bank_mode
    then throws banking_mode_invalid
    else if has_ram && not (length s.external_ram == length m.external_ram)
    then throws external_ram_size_mismatch
    else if not has_ram && not (length s.external_ram == 0)
    then throws unexpected_external_ram
    else done (record m {
      rom_bank_low = never_zero s.rom_bank_low;
      effective_rom_bank = s.effective_rom_bank;
      ram_bank_select = s.ram_bank_select;
      ram_bank_mode = s.ram_bank_mode;
      ram_enabled = s.ram_enabled;
      dirty = s.dirty;
      has_battery = s.has_battery;
      external_ram = if length s.external_ram == 0 then m.external_ram else s.external_ram;
    })
