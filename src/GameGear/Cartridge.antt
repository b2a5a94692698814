-- ===== src/GameGear/Cartridge.antt =====
-- cores/gamegear/GameGearCartridge.cpp and .hpp, and the three Sega mappers that derive from it.
use proto_time.Base.{
  ℕ, ◌+◌, ◌-◌, ◌*◌, ◌/◌, ◌%◌, ◌^◌, Bool, true, false, not, ◌&&◌, ◌||◌, List, [], ◌∷◌, ◌++◌, Option,
  none, some, length, get_or, set, take, drop, replicate, fit, ltb, leb, ◌==◌, between,
  if◌then◌else◌,
}
use proto_time.Base.Bits.{low_bits, test_bit}
use proto_time.Base.Outcome.{Outcome, done, throws, ◌>>=◌}

-- `bankRegisters_` has three elements.
pub record GameGearCartridge : Type 0 where
  pub rom : List ℕ
  pub sram : List ℕ
  pub bank_0 : ℕ
  pub bank_1 : ℕ
  pub bank_2 : ℕ
  pub control_register : ℕ
  pub save_dirty : Bool

unfoldable pub num_banks : GameGearCartridge → ℕ
num_banks c = if length c.rom == 0 then 1 else (length c.rom + 0x3fff) / 0x4000

abbrev pub bank_register : GameGearCartridge → ℕ → ℕ
bank_register c i = if i == 0 then c.bank_0 else if i == 1 then c.bank_1 else c.bank_2

unfoldable pub page_bank : GameGearCartridge → ℕ → ℕ
page_bank c page_index =
    if leb 3 page_index
    then 0
    else (bank_register c page_index + low_bits 2 c.control_register * 8) % num_banks c

abbrev pub sram_enabled : GameGearCartridge → Bool
sram_enabled c = test_bit 3 c.control_register

unfoldable pub sram_offset : GameGearCartridge → ℕ → ℕ
sram_offset c address = (if test_bit 2 c.control_register then 0x4000 else 0) + (address - 0x8000)

unfoldable pub reset : GameGearCartridge → GameGearCartridge
reset c =
    let banks = num_banks c in
    record c {
      bank_0 = 0 % banks % 2 ^ 8;
      bank_1 = 1 % banks % 2 ^ 8;
      bank_2 = 2 % banks % 2 ^ 8;
      control_register = 0;
      save_dirty = false;
    }

-- `none` is a null pointer with a size above zero.
unfoldable pub load : GameGearCartridge → Option (List ℕ) → GameGearCartridge × Bool
load c none = (c, false)
load c (some bytes) =
    if length bytes == 0
    then (reset (record c { rom = []; sram = [] }), true)
    else (reset (record c { rom = bytes; sram = replicate 0x8000 0 }), true)

abbrev pub loaded : GameGearCartridge → Bool
loaded c = not (length c.rom == 0)

unfoldable pub handles_control_write : GameGearCartridge → ℕ → Bool
handles_control_write c address = leb 0xfffc address

unfoldable pub handles_mapped_write : GameGearCartridge → ℕ → Bool
handles_mapped_write c address = between 0x8000 0xc000 address && sram_enabled c

unfoldable pub read : GameGearCartridge → ℕ → ℕ
read c address =
    let page_index = address / 0x4000 in
    if not (loaded c) || leb 0xc000 address
    then 0xff
    else if leb 0x8000 address && sram_enabled c
    then get_or c.sram (sram_offset c address) 0xff
    else if ltb address 0x0400
    then get_or c.rom (address % length c.rom) 0xff
    else get_or c.rom (page_bank c page_index * 0x4000 + address % 0x4000) 0xff

unfoldable pub rom_bank_for_address : GameGearCartridge → ℕ → Option ℕ
rom_bank_for_address c address =
    if not (loaded c) || leb 0xc000 address || (leb 0x8000 address && sram_enabled c)
    then none
    else if ltb address 0x0400
    then some 0
    else some (page_bank c (address / 0x4000))

-- A store in save RAM, which marks it dirty only where the byte changes.
unfoldable pub store_sram : GameGearCartridge → ℕ → ℕ → GameGearCartridge
store_sram c offset value =
    if ltb offset (length c.sram) && not (get_or c.sram offset 0 == value)
    then record c { sram = set c.sram offset value; save_dirty = true }
    else c

unfoldable pub write_register : GameGearCartridge → ℕ → ℕ → GameGearCartridge
write_register c address value =
    if address == 0xfffc
    then record c { control_register = value }
    else if address == 0xfffd
    then record c { bank_0 = value }
    else if address == 0xfffe
    then record c { bank_1 = value }
    else record c { bank_2 = value }

unfoldable pub write : GameGearCartridge → ℕ → ℕ → GameGearCartridge
write c address value =
    if leb 0xfffc address
    then write_register c address value
    else if between 0x8000 0xc000 address && sram_enabled c
    then store_sram c (sram_offset c address) value
    else c

unfoldable pub mark_save_clean : GameGearCartridge → GameGearCartridge
mark_save_clean c = record c { save_dirty = false }

unfoldable pub import_save_data : GameGearCartridge → List ℕ → GameGearCartridge
import_save_data c save_data =
    if length c.sram == 0
    then record c { save_dirty = false }
    else record c { sram = fit (length c.sram) 0 save_data; save_dirty = false }

-- `Sega3155235Mapper::reset`; the other two Sega mappers keep the reset of the base class.
unfoldable pub reset_5235 : GameGearCartridge → GameGearCartridge
reset_5235 c = write (write (write (write (reset c) 0xfffc 0) 0xfffd 0) 0xfffe 1) 0xffff 2

pub data StateError : Type 0 where
  truncated : StateError
  vector_invalid : StateError
  rom_mismatch : StateError
  dirty_flag_invalid : StateError
  sram_size_mismatch : StateError
  extra_ram_invalid : StateError
  flag_invalid : StateError

-- `appendU32`, the low byte first.
abbrev pub u32_bytes : ℕ → List ℕ
u32_bytes value =
    value % 256 ∷ value / 256 % 256 ∷ value / 65536 % 256 ∷ value / 16777216 % 256 ∷ []

-- The readers take the bytes from `pos` on, and give back those behind what they read.
unfoldable pub read_u32 : List ℕ → Outcome StateError (ℕ × List ℕ)
read_u32 (a ∷ b ∷ c ∷ d ∷ rest) = done (a + b * 256 + c * 65536 + d * 16777216, rest)
read_u32 _ = throws truncated

unfoldable pub read_bytes : List ℕ → ℕ → Outcome StateError (List ℕ × List ℕ)
read_bytes bytes max_size = read_u32 bytes >>= λ r.
    if ltb max_size r.0 || ltb (length r.1) r.0
    then throws vector_invalid
    else done (take r.0 r.1, drop r.0 r.1)

abbrev pub flag_byte : Bool → ℕ
flag_byte true = 1
flag_byte false = 0

unfoldable pub export_state : GameGearCartridge → List ℕ
export_state c =
    u32_bytes (length c.rom)
    ++ (u32_bytes (num_banks c)
        ++ (c.control_register
            ∷ c.bank_0
            ∷ c.bank_1
            ∷ c.bank_2
            ∷ flag_byte c.save_dirty
            ∷ (u32_bytes (length c.sram) ++ c.sram)))

-- What is read behind the two sizes.
unfoldable pub import_registers : GameGearCartridge → List ℕ → Outcome StateError GameGearCartridge
import_registers c (control ∷ bank_0 ∷ bank_1 ∷ bank_2 ∷ dirty ∷ rest) =
    if ltb 1 dirty
    then throws dirty_flag_invalid
    else (read_bytes rest 0x8000 >>= λ r.
        if not (length r.0 == length c.sram) || not (length r.1 == 0)
        then throws sram_size_mismatch
        else done (record c {
          control_register = control;
          bank_0 = bank_0;
          bank_1 = bank_1;
          bank_2 = bank_2;
          save_dirty = not (dirty == 0);
          sram = r.0;
        }))
import_registers c _ = throws truncated

unfoldable pub import_state : GameGearCartridge → List ℕ → Outcome StateError GameGearCartridge
import_state c state = read_u32 state >>= λ r. read_u32 r.1 >>= λ s.
    if not (r.0 == length c.rom) || not (s.0 == num_banks c)
    then throws rom_mismatch
    else import_registers c s.1
