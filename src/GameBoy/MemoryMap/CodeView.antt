-- ===== src/GameBoy/MemoryMap/CodeView.antt =====
-- What the executors may look at without running the bus: single bytes, and borrowed views of code.
use proto_time.Base.{
  ℕ, ◌+◌, ◌-◌, ◌≤◌, ◌<◌, ◌≡◌, true, false, not, ◌&&◌, ◌||◌, List, Option, none, some, arith, length,
  get_or, take, drop, ltb, leb, ◌==◌, between, if◌then◌else◌, get_or-drop, get_or-take, length-take,
  length-drop,
}
use proto_time.GameBoy.MemoryMap.State.{MemoryMap, HasSizes}
use proto_time.GameBoy.MemoryMap.Access.{read_raw}
use proto_time.GameBoy.MemoryMap.Regions.{
  boot_answers, read_raw_boot, read_raw_window_0000, read_raw_window_4000, read_raw_wram,
  read_raw_hram,
}

unfoldable pub peek_executable_byte : MemoryMap → ℕ → Option ℕ
peek_executable_byte m address =
    let stable_rom = ltb address 0x8000 in
    let stable_wram = between 0xc000 0xe000 address in
    let stable_hram = between 0xff80 0xffff address in
    if not stable_rom && not stable_wram && not stable_hram then none else some (read_raw m address)

-- `span.subspan(offset, size)`
abbrev pub subspan : List ℕ → ℕ → ℕ → List ℕ
subspan bytes offset size = take size (drop offset bytes)

-- The three sources of a view. `none` is the empty span: fall back to single bytes.
unfoldable pub boot_view : MemoryMap → ℕ → ℕ → Option (List ℕ)
boot_view m address size =
    let end = address + size in
    if ltb (length m.boot_rom) end || ltb 0x4000 end
    then none
    else some (subspan m.boot_rom address size)

unfoldable pub rom_view : MemoryMap → ℕ → ℕ → Option (List ℕ)
rom_view m address size =
    let base = if ltb address 0x4000 then 0x0000 else 0x4000 in
    let window = if ltb address 0x4000 then m.rom_window_0000 else m.rom_window_4000 in
    let offset = address - base in
    if ltb (base + 0x4000) (address + size)
      || not window.active
      || ltb (length window.bytes) offset
      || ltb (length window.bytes - offset) size
    then none
    else some (subspan window.bytes offset size)

unfoldable pub ram_view : MemoryMap → ℕ → ℕ → Option (List ℕ)
ram_view m address size =
    let end = address + size in
    if leb 0xc000 address && leb end 0xe000
    then some (subspan m.wram (address - 0xc000) size)
    else if leb 0xff80 address && leb end 0xffff
    then some (subspan m.hram (address - 0xff80) size)
    else none

unfoldable pub checked_code_view : MemoryMap → ℕ → ℕ → Option (List ℕ)
checked_code_view m address size =
    if (size == 0) || ltb (0x10000 - address) size
    then none
    else if m.boot_rom_active && ltb address (length m.boot_rom)
    then boot_view m address size
    else if ltb address 0x8000
    then rom_view m address size
    else ram_view m address size

subspan_lem :
    (bytes : List ℕ) (offset size i : ℕ)
    → offset + size ≤ length bytes
    → i < size
    → (length (subspan bytes offset size) ≡ size)
      × (get_or (subspan bytes offset size) i 0xff ≡ get_or bytes (offset + i) 0xff)
subspan_lem bytes offset size i h k = ground (
  arith,
  length-take size (drop offset bytes),
  length-drop offset bytes,
  get_or-take {A = ℕ} size (drop offset bytes) i 255,
  get_or-drop {A = ℕ} offset bytes i 255,
)

-- The view holds what the bus reads at the address and at those behind it.
abbrev IsView : MemoryMap → ℕ → ℕ → ℕ → List ℕ → Type 0
IsView m address size i view =
    (length view ≡ size) × (peek_executable_byte m (address + i) ≡ some (get_or view i 0xff))

module _ (m : MemoryMap) (address size i : ℕ) (view : List ℕ) (h : i < size) where
  boot_view_lem :
      boot_answers m address ≡ true
      → boot_view m address size ≡ some view
      → IsView m address size i view
  unfolding boot_view peek_executable_byte
  boot_view_lem b e =
      ground (arith, subspan_lem m.boot_rom address size i, read_raw_boot m (address + i))

  rom_view_lem :
      boot_answers m address ≡ false
      → address < 0x8000
      → rom_view m address size ≡ some view
      → IsView m address size i view
  unfolding rom_view peek_executable_byte
  rom_view_lem b k e = ground (
    arith,
    subspan_lem m.rom_window_0000.bytes address size i,
    subspan_lem m.rom_window_4000.bytes (address - 0x4000) size i,
    read_raw_window_0000 m (address + i),
    read_raw_window_4000 m (address + i),
  )

  ram_view_lem :
      HasSizes m
      → boot_answers m address ≡ false
      → ram_view m address size ≡ some view
      → IsView m address size i view
  unfolding ram_view peek_executable_byte
  ram_view_lem s b e = ground (
    arith,
    subspan_lem m.wram (address - 0xc000) size i,
    subspan_lem m.hram (address - 0xff80) size i,
    read_raw_wram m (address + i),
    read_raw_hram m (address + i),
  )

-- A view that is given holds exactly the bytes that the bus would read one by one, as many as were
-- asked for, and all of them may be peeked.
pub checked_code_view_lem :
    (m : MemoryMap) (address size i : ℕ) (view : List ℕ)
    → HasSizes m
    → checked_code_view m address size ≡ some view
    → i < size
    → (length view ≡ size) × (peek_executable_byte m (address + i) ≡ some (get_or view i 0xff))
unfolding checked_code_view
checked_code_view_lem m address size i view s e h = ground (
  arith,
  boot_view_lem m address size i view h,
  rom_view_lem m address size i view h,
  ram_view_lem m address size i view h s,
)
