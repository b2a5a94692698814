-- ===== src/GameGear/Slots.antt =====
-- The bank registers and the RAM of a Codemasters cartridge.
use proto_time.Base.{
  ℕ, zero, suc, ◌+◌, ◌-◌, ◌*◌, ◌/◌, ◌%◌, ◌≤◌, ◌<◌, ◌≡◌, refl, ap, ◌∙◌, true, false, not, some,
  arith, length, get_or-set_self, get_or-set_ne, ◌==◌, if◌then◌else◌, if_of_false,
}
use proto_time.Base.Bits.{low_bits, test_bit}
use proto_time.GameGear.Cartridge.{
  GameGearCartridge, num_banks, page_bank, sram_enabled, loaded, write_register,
}
use proto_time.GameGear.Cartridge
use proto_time.GameGear.Codemasters.{
  CodemastersMapper, in_extra_ram, read, write, write_slot, map_extra_ram, write_extra_ram,
  handles_control_write, rom_bank_for_address,
}

-- What writing the register of a slot leaves and changes.
register_lem :
    (c : GameGearCartridge) (slot value : ℕ)
    → slot < 3
    → (page_bank (Cartridge.write c (0xfffd + slot) value) slot
        ≡ (value + low_bits 2 c.control_register * 8) % num_banks c)
      × ((Cartridge.write c (0xfffd + slot) value).rom ≡ c.rom)
      × ((Cartridge.write c (0xfffd + slot) value).control_register ≡ c.control_register)
unfolding Cartridge.write write_register page_bank num_banks
register_lem c zero value h = (refl, refl, refl)
register_lem c (suc zero) value h = (refl, refl, refl)
register_lem c (suc (suc zero)) value h = (refl, refl, refl)
register_lem c (suc (suc (suc k))) value h = absurd (omega arith)

write-base :
    (m : CodemastersMapper) (address value : ℕ)
    → handles_control_write m address ≡ true
    → (write m address value).base
      ≡ Cartridge.write m.base (0xfffd + address / 0x4000) (low_bits 7 value)
unfolding write write_slot map_extra_ram
write-base m address value h = ground arith

bank_shown :
    (c : GameGearCartridge) (address : ℕ)
    → loaded c ≡ true
    → sram_enabled c ≡ false
    → 0x0400 ≤ address
    → address < 0xc000
    → Cartridge.rom_bank_for_address c address ≡ some (page_bank c (address / 0x4000))
unfolding Cartridge.rom_bank_for_address
bank_shown c address l e k h = ground arith

-- A write to a ROM slot, other than where the RAM on the cartridge is mapped, selects the bank that the
-- addresses of the slot show from then on: the low seven bits of the byte, plus the shift of the control
-- register, modulo the number of banks. A ROM is loaded, save RAM is not shown, and the address asked
-- for is above the first 1024 bytes and not in the RAM on the cartridge.
slot_bank :
    (m : CodemastersMapper) (address other value : ℕ)
    → handles_control_write m address ≡ true
    → loaded m.base ≡ true
    → sram_enabled m.base ≡ false
    → other / 0x4000 ≡ address / 0x4000
    → 0x0400 ≤ other
    → in_extra_ram (write m address value) other ≡ false
    → rom_bank_for_address (write m address value) other
      ≡ some ((low_bits 7 value + low_bits 2 m.base.control_register * 8) % num_banks m.base)
unfolding rom_bank_for_address handles_control_write
slot_bank m address other value h l e o k x =
    let slot = address / 0x4000 in
    let bound : slot < 3 = ground arith in
    let c = Cartridge.write m.base (0xfffd + slot) (low_bits 7 value) in
    let (bank, rom, control) = register_lem m.base slot (low_bits 7 value) bound in
    if_of_false {b = in_extra_ram (write m address value) other} _ x
    ∙ ap (λ d. Cartridge.rom_bank_for_address d other) (write-base m address value h)
    ∙ bank_shown c other (ap (λ r. not (length r == 0)) rom ∙ l) (ap (test_bit 3) control ∙ e) k
        (omega arith)
    ∙ ap (λ p. some (page_bank c p)) o
    ∙ ap some bank

-- The RAM on a Codemasters cartridge, while it is mapped, is a memory of 8 KiB at 0xA000: a read after a
-- write there gives the byte written at the address of the write, and what it gave before elsewhere; and
-- the write changes no bank register.
pub extra_ram_read-write :
    (m : CodemastersMapper) (address other value : ℕ)
    → m.extra_ram_mapped ≡ true
    → length m.extra_ram ≡ 0x2000
    → 0xa000 ≤ address
    → address < 0xc000
    → 0xa000 ≤ other
    → other < 0xc000
    → (read (write m address value) other ≡ (if other == address then value else read m other))
      × ((write m address value).base ≡ m.base)
unfolding read write write_extra_ram handles_control_write
extra_ram_read-write m a b v h s ha ka hb kb = ground (
  arith,
  get_or-set_self {A = ℕ} m.extra_ram (a - 0xa000) v 255,
  get_or-set_ne {A = ℕ} m.extra_ram (a - 0xa000) (b - 0xa000) v 255,
)
