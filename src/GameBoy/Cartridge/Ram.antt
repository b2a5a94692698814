-- ===== src/GameBoy/Cartridge/Ram.antt =====
-- External RAM and clock registers at 0xA000-0xBFFF, and the write entry points of the bus.
use proto_time.Base.{
  ℕ, zero, suc, ◌+◌, ◌-◌, ◌*◌, ◌%◌, Bool, true, false, not, ◌&&◌, List, [], ◌∷◌, Option, none, some,
  length, get_or, set, replicate, ltb, leb, ◌==◌, between, if◌then◌else◌,
}
use proto_time.Base.Bits.{low_bits}
use proto_time.GameBoy.Cartridge.Header.{CartridgeMapper, no_mapper, mbc2}
use proto_time.GameBoy.Cartridge.State.{Cartridge}
use proto_time.GameBoy.Cartridge.Banking.{ram_bank_size, selected_ram_bank_index}
use proto_time.GameBoy.Cartridge.Control.{
  CartridgeWriteResult, unhandled, mark_dirty_if_persistent, write_control,
}

abbrev pub has_mapper : CartridgeMapper → Bool
has_mapper no_mapper = false
has_mapper _ = true

abbrev pub is_mbc2 : CartridgeMapper → Bool
is_mbc2 mbc2 = true
is_mbc2 _ = false

-- `address < 0xA000u || address >= 0xC000u || metadata_.mapper == CartridgeMapper::None`, negated
abbrev pub in_external_area : Cartridge → ℕ → Bool
in_external_area c address = between 0xa000 0xc000 address && has_mapper c.metadata.mapper

abbrev pub rtc_register_selected : Cartridge → Bool
rtc_register_selected c =
    c.metadata.has_rtc && leb 0x08 c.selected_rtc_register && leb c.selected_rtc_register 0x0c

-- The index that byte `i` of an access at `address` reads.
unfoldable pub read_index : Cartridge → ℕ → ℕ → ℕ
read_index c address i =
    let local = address - 0xa000 + i in
    selected_ram_bank_index c * ram_bank_size c
    + (if is_mbc2 c.metadata.mapper then low_bits 9 local else local % ram_bank_size c)

-- The index that byte `i` of a write at `address` stores to: no wrap but for MBC2.
unfoldable pub write_index : Cartridge → ℕ → ℕ → ℕ
write_index c address i =
    let local = address - 0xa000 + i in
    selected_ram_bank_index c * ram_bank_size c
    + (if is_mbc2 c.metadata.mapper then low_bits 9 local else local)

unfoldable pub read_ram_byte : Cartridge → ℕ → ℕ
read_ram_byte c index =
    if leb (length c.external_ram) index
    then 0xff
    else if is_mbc2 c.metadata.mapper
    then 0xf0 + low_bits 4 (get_or c.external_ram index 0xff)
    else get_or c.external_ram index 0xff

unfoldable pub read_ram : Cartridge → ℕ → ℕ → ℕ → List ℕ
read_ram c address i zero = []
read_ram c address i (suc n) =
    read_ram_byte c (read_index c address i) ∷ read_ram c address (i + 1) n

-- `read(address, span)` with a span of `n` bytes: `none` where it returns false.
unfoldable pub read_span : Cartridge → ℕ → ℕ → Option (List ℕ)
read_span c address n =
    if not (in_external_area c address)
    then none
    else if not c.ram_enabled
    then some (replicate n 0xff)
    else if rtc_register_selected c
    then some (replicate n (get_or c.rtc_registers (c.selected_rtc_register - 0x08) 0xff))
    else if length c.external_ram == 0
    then some (replicate n 0xff)
    else some (read_ram c address 0 n)

-- `read(address)`: one byte, 0xFF where nothing answers.
unfoldable pub read : Cartridge → ℕ → ℕ
read c address = elim (read_span c address 1) [ none ↦ 0xff | some bytes ↦ get_or bytes 0 0xff ]

-- One round of the loop of `writeExternalArea`.
unfoldable pub store_ram_byte : Cartridge → ℕ → ℕ → Cartridge
store_ram_byte c index value =
    let stored = if is_mbc2 c.metadata.mapper then low_bits 4 value else value in
    if leb (length c.external_ram) index
    then c
    else if get_or c.external_ram index 0xff == stored
    then c
    else mark_dirty_if_persistent (record c { external_ram = set c.external_ram index stored })

unfoldable pub store_ram : Cartridge → ℕ → ℕ → List ℕ → Cartridge
store_ram c address i [] = c
store_ram c address i (value ∷ values) =
    store_ram (store_ram_byte c (write_index c address i) value) address (i + 1) values

unfoldable pub store_rtc : Cartridge → ℕ → Cartridge
store_rtc c value =
    let index = c.selected_rtc_register - 0x08 in
    if get_or c.rtc_registers index 0xff == value
    then c
    else mark_dirty_if_persistent (record c { rtc_registers = set c.rtc_registers index value })

-- The Boolean is what the source returns.
unfoldable pub write_external_area : Cartridge → ℕ → List ℕ → Cartridge × Bool
write_external_area c address values =
    if not (in_external_area c address)
    then (c, false)
    else if not c.ram_enabled
    then (c, true)
    else if rtc_register_selected c
    then elim values [ [] ↦ (c, false) | value ∷ _ ↦ (store_rtc c value, true) ]
    else if length c.external_ram == 0
    then (c, true)
    else (store_ram c address 0 values, true)

-- `write(address, data)`, the single byte entry point.
unfoldable pub write : Cartridge → ℕ → ℕ → Cartridge × CartridgeWriteResult
write c address data_byte =
    if between 0xa000 0xc000 address
    then (let (c', handled) = write_external_area c address (data_byte ∷ []) in
        (c', record { handled = handled; rom_bank_changed = false }))
    else if ltb address 0x8000
    then write_control c address data_byte
    else (c, unhandled)

-- `write(address, span)`
unfoldable pub write_span : Cartridge → ℕ → List ℕ → Cartridge × Bool
write_span c address values =
    if between 0xa000 0xc000 address
    then write_external_area c address values
    else if (length values == 1) && ltb address 0x8000
    then (let (c', result) = write_control c address (get_or values 0 0) in (c', result.handled))
    else (c, false)
