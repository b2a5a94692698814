-- ===== src/GameBoy/Cartridge/Control.antt =====
-- `writeControl`: the mapper's registers, written at addresses below 0x8000.
use proto_time.Base.{ℕ, Bool, true, false, ◌&&◌, ltb, leb, ◌==◌, if◌then◌else◌}
use proto_time.Base.Bits.{low_bits, test_bit, join, shr}
use proto_time.GameBoy.Cartridge.Header.{no_mapper, mbc1, mbc2, mbc3, mbc5}
use proto_time.GameBoy.Cartridge.State.{Cartridge}

pub record CartridgeWriteResult : Type 0 where
  pub handled : Bool
  pub rom_bank_changed : Bool

abbrev pub unhandled : CartridgeWriteResult
unhandled = record { handled = false; rom_bank_changed = false }

abbrev pub accepted : CartridgeWriteResult
accepted = record { handled = true; rom_bank_changed = false }

abbrev pub remapped : CartridgeWriteResult
remapped = record { handled = true; rom_bank_changed = true }

-- Bank zero cannot be selected by registers of this kind: it stands for bank one.
abbrev pub never_zero : ℕ → ℕ
never_zero bank = if bank == 0 then 1 else bank

abbrev pub with_ram_gate : Cartridge → ℕ → Cartridge
with_ram_gate c data_byte = record c { ram_enabled = low_bits 4 data_byte == 0x0a }

unfoldable pub mark_save_clean : Cartridge → Cartridge
mark_save_clean c = record c { save_dirty = false }

abbrev pub mark_dirty_if_persistent : Cartridge → Cartridge
mark_dirty_if_persistent c = record c {
  save_dirty = if c.metadata.has_battery then true else c.save_dirty;
}

unfoldable pub write_mbc1 : Cartridge → ℕ → ℕ → Cartridge × CartridgeWriteResult
write_mbc1 c address data_byte =
    if ltb address 0x2000
    then (with_ram_gate c data_byte, accepted)
    else if ltb address 0x4000
    then (record c { mbc1_low_bank_bits = never_zero (low_bits 5 data_byte) }, remapped)
    else if ltb address 0x6000
    then (record c { mbc1_upper_bank_bits = low_bits 2 data_byte }, remapped)
    else (record c { mbc1_banking_mode_select = test_bit 0 data_byte }, remapped)

unfoldable pub write_mbc2 : Cartridge → ℕ → ℕ → Cartridge × CartridgeWriteResult
write_mbc2 c address data_byte =
    if ltb address 0x4000
    then (if test_bit 8 address
        then (record c { current_rom_bank = never_zero (low_bits 4 data_byte) }, remapped)
        else (with_ram_gate c data_byte, accepted))
    else (c, accepted)

-- The RAM bank or the clock register that 0x4000-0x5FFF selects.
unfoldable pub select_mbc3_ram : Cartridge → ℕ → Cartridge
select_mbc3_ram c data_byte =
    if leb data_byte 0x03
    then record c { current_ram_bank = low_bits 2 data_byte; selected_rtc_register = 0xff }
    else if c.metadata.has_rtc && leb 0x08 data_byte && leb data_byte 0x0c
    then record c { selected_rtc_register = data_byte }
    else c

unfoldable pub latch_rtc : Cartridge → Bool → Cartridge
latch_rtc c false =
    if c.rtc_latched
    then (let c' = record c { rtc_latched = false } in
        if c.metadata.has_rtc then mark_dirty_if_persistent c' else c')
    else c
latch_rtc c true =
    if c.rtc_latched
    then c
    else (let c' = record c { rtc_latched = true } in
        if c.metadata.has_rtc then mark_dirty_if_persistent c' else c')

unfoldable pub write_mbc3 : Cartridge → ℕ → ℕ → Cartridge × CartridgeWriteResult
write_mbc3 c address data_byte =
    if ltb address 0x2000
    then (with_ram_gate c data_byte, accepted)
    else if ltb address 0x4000
    then (record c { current_rom_bank = never_zero (low_bits 7 data_byte) }, remapped)
    else if ltb address 0x6000
    then (select_mbc3_ram c data_byte, accepted)
    else (latch_rtc c (test_bit 0 data_byte), accepted)

-- `(bank & 0x100) | data` and `((data & 1) << 8) | (bank & 0xFF)`
unfoldable pub write_mbc5 : Cartridge → ℕ → ℕ → Cartridge × CartridgeWriteResult
write_mbc5 c address data_byte =
    if ltb address 0x2000
    then (with_ram_gate c data_byte, accepted)
    else if ltb address 0x3000
    then (
      record c { current_rom_bank = join 8 (low_bits 1 (shr 8 c.current_rom_bank)) data_byte },
      remapped,
    )
    else if ltb address 0x4000
    then (
      record c { current_rom_bank = join 8 (low_bits 1 data_byte) (low_bits 8 c.current_rom_bank) },
      remapped,
    )
    else if ltb address 0x6000
    then (record c { current_ram_bank = low_bits 4 data_byte }, accepted)
    else (c, accepted)

unfoldable pub write_control : Cartridge → ℕ → ℕ → Cartridge × CartridgeWriteResult
write_control c address data_byte =
    if leb 0x8000 address then (c, unhandled) else elim c.metadata.mapper [
      | no_mapper ↦ (c, unhandled)
      | mbc1 ↦ write_mbc1 c address data_byte
      | mbc2 ↦ write_mbc2 c address data_byte
      | mbc3 ↦ write_mbc3 c address data_byte
      | mbc5 ↦ write_mbc5 c address data_byte
    ]
