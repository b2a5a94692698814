-- ===== src/GameBoy/Cartridge/RamLaws.antt =====
-- External RAM as a memory: what a read gives after a write, the RAM gate, and the dirty flag.
use proto_time.Base.{
  ℕ, ◌+◌, ◌%◌, ◌≡◌, refl, true, false, ◌&&◌, List, [], ◌∷◌, arith, length, length-set,
  get_or-set_self, get_or-set_ne, ltb, ◌==◌, between, if◌then◌else◌,
}
use proto_time.GameBoy.Cartridge.State.{Cartridge}
use proto_time.GameBoy.Cartridge.Banking.{ram_bank_size, selected_ram_bank_index}
use proto_time.GameBoy.Cartridge.Ram.{
  has_mapper, is_mbc2, rtc_register_selected, read_index, write_index, read_ram_byte, read_ram,
  read_span, read, store_ram_byte, store_ram, store_rtc, write_external_area, write,
}

-- A program sees external RAM: there is a mapper, the gate is open and no clock register is selected.
pub record RamVisible (c : Cartridge) : Type 0 where
  pub mapped : has_mapper c.metadata.mapper ≡ true
  pub enabled : c.ram_enabled ≡ true
  pub no_clock : rtc_register_selected c ≡ false

-- The byte that RAM gives back for a stored one: MBC2 keeps the low four bits.
abbrev pub stored_view : Cartridge → ℕ → ℕ
stored_view c value = if is_mbc2 c.metadata.mapper then 0xf0 + value % 16 else value

-- Reads and writes of one byte agree on the index.
read_index-eq-write_index :
    (c : Cartridge) (address : ℕ)
    → between 0xa000 0xc000 address ≡ true
    → read_index c address 0 ≡ write_index c address 0
unfolding read_index write_index ram_bank_size
read_index-eq-write_index c address h = ground arith

read_lem :
    (c : Cartridge) (address : ℕ)
    → RamVisible c
    → between 0xa000 0xc000 address ≡ true
    → read c address ≡ read_ram_byte c (read_index c address 0)
unfolding read read_span read_ram read_ram_byte
read_lem c address v h = ground arith

write_lem :
    (c : Cartridge) (address value : ℕ)
    → RamVisible c
    → between 0xa000 0xc000 address ≡ true
    → (write c address value).0 ≡ store_ram_byte c (write_index c address 0) value
unfolding write write_external_area store_ram store_ram_byte
write_lem c address value v h = ground arith

-- A store changes neither what RAM is visible nor how addresses map to it.
store-index :
    (c : Cartridge) (index value address : ℕ)
    → read_index (store_ram_byte c index value) address 0 ≡ read_index c address 0
unfolding store_ram_byte read_index ram_bank_size selected_ram_bank_index
store-index c index value address =
    ground
      (arith, length-set c.external_ram index value, length-set c.external_ram index (value % 16))

store-RamVisible :
    (c : Cartridge) (index value : ℕ) → RamVisible c → RamVisible (store_ram_byte c index value)
unfolding store_ram_byte
store-RamVisible c index value v = ground arith

read_ram_byte-store :
    (c : Cartridge) (i j value : ℕ)
    → read_ram_byte (store_ram_byte c i value) j ≡ (
        if ltb j (length c.external_ram) && (j == i)
        then stored_view c value
        else read_ram_byte c j)
unfolding store_ram_byte read_ram_byte
read_ram_byte-store c i j value = ground (
  arith,
  length-set c.external_ram i value,
  length-set c.external_ram i (value % 16),
  get_or-set_self {A = ℕ} c.external_ram i value 255,
  get_or-set_self {A = ℕ} c.external_ram i (value % 16) 255,
  get_or-set_ne {A = ℕ} c.external_ram i j value 255,
  get_or-set_ne {A = ℕ} c.external_ram i j (value % 16) 255,
)

-- While a program sees external RAM, a read after a write gives the stored byte (its low four bits
-- under 0xF0 for MBC2) where both addresses fall on one index of the RAM, and what was read before
-- anywhere else in 0xA000-0xBFFF.
pub read-write :
    (c : Cartridge) (address value other : ℕ)
    → RamVisible c
    → between 0xa000 0xc000 address ≡ true
    → between 0xa000 0xc000 other ≡ true
    → read (write c address value).0 other ≡ (
        if ltb (read_index c other 0) (length c.external_ram)
          && (read_index c other 0 == read_index c address 0)
        then stored_view c value
        else read c other)
read-write c address value other v h k =
    let index = write_index c address 0 in
    rw
      (
        write_lem c address value v h,
        read_lem c other v k,
        read_lem (store_ram_byte c index value) other (store-RamVisible c index value v) k,
        store-index c index value other,
        read_index-eq-write_index c address h,
      )
      (read_ram_byte-store c (write_index c address 0) (read_index c other 0) value)

-- With the RAM gate shut every read of 0xA000-0xBFFF gives 0xFF, and a write there leaves the whole
-- cartridge as it is.
pub gate_shut :
    (c : Cartridge) (address value : ℕ)
    → c.ram_enabled ≡ false
    → between 0xa000 0xc000 address ≡ true
    → (read c address ≡ 0xff) × ((write c address value).0 ≡ c)
unfolding read read_span write write_external_area
gate_shut c address value h k = ground arith

store_ram_byte-dirty :
    (c : Cartridge) (index value : ℕ)
    → c.metadata.has_battery ≡ true
    → (store_ram_byte c index value).save_dirty ≡ false
    → store_ram_byte c index value ≡ c
unfolding store_ram_byte
store_ram_byte-dirty c index value b h = ground arith

store_ram-stays_dirty :
    (c : Cartridge) (address i : ℕ) (values : List ℕ)
    → c.save_dirty ≡ true
    → (store_ram c address i values).save_dirty ≡ true
unfolding store_ram store_ram_byte
store_ram-stays_dirty c address i [] h = h
store_ram-stays_dirty c address i (value ∷ values) h =
    store_ram-stays_dirty (store_ram_byte c (write_index c address i) value) address (i + 1) values
      (ground arith)

store_ram-dirty :
    (c : Cartridge) (address i : ℕ) (values : List ℕ)
    → c.metadata.has_battery ≡ true
    → (store_ram c address i values).save_dirty ≡ false
    → store_ram c address i values ≡ c
unfolding store_ram
store_ram-dirty c address i [] b h = refl
store_ram-dirty c address i (value ∷ values) b h =
    let index = write_index c address i in
    let stored = store_ram_byte c index value in
    ground (
      arith,
      store_ram_byte-dirty c index value,
      store_ram-stays_dirty stored address (i + 1) values,
      store_ram-dirty stored address (i + 1) values,
    )

-- With a battery, a write to 0xA000-0xBFFF that leaves the save clean has changed nothing: every
-- change of external RAM or of a clock register marks the save dirty.
pub change_marks_dirty :
    (c : Cartridge) (address : ℕ) (values : List ℕ)
    → c.metadata.has_battery ≡ true
    → (write_external_area c address values).0.save_dirty ≡ false
    → (write_external_area c address values).0 ≡ c
unfolding write_external_area store_rtc
change_marks_dirty c address [] b h = ground (arith, store_ram-dirty c address 0 [])
change_marks_dirty c address (value ∷ values) b h =
    ground (arith, store_ram-dirty c address 0 (value ∷ values))
