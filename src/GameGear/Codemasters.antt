-- ===== src/GameGear/Codemasters.antt =====
-- cores/gamegear/mappers/CodemastersMapper.hpp: bank registers under the ROM, and RAM on the cartridge.
use proto_time.Base.{
  ℕ, ◌+◌, ◌-◌, ◌/◌, Bool, true, false, not, ◌&&◌, ◌||◌, List, [], ◌∷◌, ◌++◌, Option, none, some,
  length, get_or, set, take, drop, replicate, ltb, leb, ◌==◌, between, if◌then◌else◌,
}
use proto_time.Base.Bits.{low_bits, test_bit}
use proto_time.Base.Outcome.{Outcome, done, throws, ◌>>=◌}
use proto_time.GameGear.Cartridge.{
  GameGearCartridge, StateError, truncated, extra_ram_invalid, flag_invalid, u32_bytes, read_u32,
  flag_byte,
}
use proto_time.GameGear.Cartridge

pub record CodemastersMapper : Type 0 where
  pub base : GameGearCartridge
  pub extra_ram : List ℕ
  pub extra_ram_mapped : Bool
  pub extra_ram_dirty : Bool

-- The base class calls this `reset` from `load`.
unfoldable pub reset : CodemastersMapper → CodemastersMapper
reset m = record {
  base =
      Cartridge.write (Cartridge.write (Cartridge.write (Cartridge.reset m.base) 0xfffd 0) 0xfffe 1)
        0xffff 0;
  extra_ram = [];
  extra_ram_mapped = false;
  extra_ram_dirty = false;
}

-- `load` of the base class, whose call of `reset` runs the one above; `none` is a null pointer with a
-- size above zero.
unfoldable pub load : CodemastersMapper → Option (List ℕ) → CodemastersMapper × Bool
load m none = (m, false)
load m (some bytes) =
    let sram = if length bytes == 0 then [] else replicate 0x8000 0 in
    (reset (record m { base = record m.base { rom = bytes; sram = sram } }), true)

unfoldable pub mark_save_clean : CodemastersMapper → CodemastersMapper
mark_save_clean m = record m { base = Cartridge.mark_save_clean m.base; extra_ram_dirty = false }

-- The RAM on the cartridge answers at the address.
abbrev pub in_extra_ram : CodemastersMapper → ℕ → Bool
in_extra_ram m address = m.extra_ram_mapped && between 0xa000 0xc000 address

unfoldable pub handles_control_write : CodemastersMapper → ℕ → Bool
handles_control_write m address =
    ltb address 0xc000 && not (m.extra_ram_mapped && leb 0xa000 address)

unfoldable pub handles_mapped_write : CodemastersMapper → ℕ → Bool
handles_mapped_write m address =
    if in_extra_ram m address then true else Cartridge.handles_mapped_write m.base address

unfoldable pub read : CodemastersMapper → ℕ → ℕ
read m address =
    if in_extra_ram m address
    then get_or m.extra_ram (address - 0xa000) 0xff
    else Cartridge.read m.base address

unfoldable pub rom_bank_for_address : CodemastersMapper → ℕ → Option ℕ
rom_bank_for_address m address =
    if in_extra_ram m address then none else Cartridge.rom_bank_for_address m.base address

-- The second slot's register maps the RAM by its high bit, and makes it on the first use.
unfoldable pub map_extra_ram : CodemastersMapper → ℕ → CodemastersMapper
map_extra_ram m value =
    if test_bit 7 value
    then record m {
      extra_ram = if length m.extra_ram == 0 then replicate 0x2000 0 else m.extra_ram;
      extra_ram_mapped = true;
    }
    else record m { extra_ram_mapped = false }

unfoldable pub write_slot : CodemastersMapper → ℕ → ℕ → CodemastersMapper
write_slot m slot value =
    let banked = record m { base = Cartridge.write m.base (0xfffd + slot) (low_bits 7 value) } in
    if slot == 1 then map_extra_ram banked value else banked

unfoldable pub write_extra_ram : CodemastersMapper → ℕ → ℕ → CodemastersMapper
write_extra_ram m index value =
    if ltb index (length m.extra_ram)
    then record m { extra_ram = set m.extra_ram index value; extra_ram_dirty = true }
    else m

unfoldable pub write : CodemastersMapper → ℕ → ℕ → CodemastersMapper
write m address value =
    if handles_control_write m address
    then write_slot m (address / 0x4000) value
    else if in_extra_ram m address
    then write_extra_ram m (address - 0xa000) value
    else record m { base = Cartridge.write m.base address value }

unfoldable pub export_save_data : CodemastersMapper → List ℕ
export_save_data m = if length m.extra_ram == 0 then m.base.sram else m.extra_ram

unfoldable pub import_save_data : CodemastersMapper → List ℕ → CodemastersMapper
import_save_data m save_data =
    if length save_data == 0x2000
    then record m { extra_ram = save_data; extra_ram_dirty = false }
    else record m { base = Cartridge.import_save_data m.base save_data }

unfoldable pub export_state : CodemastersMapper → List ℕ
export_state m =
    Cartridge.export_state m.base
    ++ (u32_bytes (length m.extra_ram)
        ++ (m.extra_ram ++ (flag_byte m.extra_ram_mapped ∷ flag_byte m.extra_ram_dirty ∷ [])))

-- The two flags behind the RAM, and then the state of the base class.
unfoldable pub import_flags :
    CodemastersMapper → List ℕ → List ℕ → List ℕ → Outcome StateError CodemastersMapper
import_flags m base_state extra (mapped ∷ dirty ∷ []) =
    if ltb 1 mapped || ltb 1 dirty
    then throws flag_invalid
    else (Cartridge.import_state m.base base_state >>= λ base. done (record {
      base = base;
      extra_ram = extra;
      extra_ram_mapped = not (mapped == 0);
      extra_ram_dirty = not (dirty == 0);
    }))
import_flags m base_state extra _ = throws extra_ram_invalid

unfoldable pub import_state : CodemastersMapper → List ℕ → Outcome StateError CodemastersMapper
import_state m state =
    let base_size = length (Cartridge.export_state m.base) in
    if ltb (length state) (base_size + 6)
    then throws truncated
    else (read_u32 (drop base_size state) >>= λ r.
        if ltb 0x2000 r.0 || not (length r.1 == r.0 + 2)
        then throws extra_ram_invalid
        else import_flags m (take base_size state) (take r.0 r.1) (drop r.0 r.1))
