-- ===== src/GameBoy/MemoryMap/RamLaws.antt =====
-- The RAM of the address space behaves as a memory, echo included.
use proto_time.Base.{
  ℕ, ◌-◌, ◌≤◌, ◌<◌, ◌≡◌, ◌⊎◌, refl, Bool, true, false, ◌||◌, arith, length, set, get_or-set_self,
  get_or-set_ne, between, ◌==◌, if◌then◌else◌,
}
use proto_time.GameBoy.MemoryMap.State.{MemoryMap, HasSizes, resolve_echo_address}
use proto_time.GameBoy.MemoryMap.Regions.{boot_answers, read_raw_hram}
use proto_time.GameBoy.MemoryMap.Access.{
  read_raw, read, read_external, write_raw, write_high, write_other, handle_special_write, write,
}

-- Video RAM, work RAM and its echo, OAM, high RAM and IE.
abbrev pub is_ram : ℕ → Bool
is_ram a = between 0x8000 0xa000 a || between 0xc000 0xfea0 a || between 0xff80 0x10000 a

module _ (m : MemoryMap) (s : HasSizes m) (boot : length m.boot_rom ≤ 0x100) (p q v : ℕ) where
  abbrev Stores : MemoryMap → Type 0
  Stores n = read_raw n q ≡ (if q == p then v else read_raw m q)

  store_vram : 0x8000 ≤ p → p < 0xa000 → Stores (record m { vram = set m.vram (p - 0x8000) v })
  unfolding read_raw read_external
  store_vram h k = ground (
    arith,
    get_or-set_self {A = ℕ} m.vram (p - 0x8000) v 255,
    get_or-set_ne {A = ℕ} m.vram (p - 0x8000) (q - 0x8000) v 255,
  )

  store_wram :
      0xc000 ≤ p
      → p < 0xe000
      → q < 0xe000 ⊎ 0xfe00 ≤ q
      → Stores (record m { wram = set m.wram (p - 0xc000) v })
  unfolding read_raw read_external
  store_wram h k l = ground (
    arith,
    get_or-set_self {A = ℕ} m.wram (p - 0xc000) v 255,
    get_or-set_ne {A = ℕ} m.wram (p - 0xc000) (q - 0xc000) v 255,
  )

  store_oam : 0xfe00 ≤ p → p < 0xfea0 → Stores (record m { oam = set m.oam (p - 0xfe00) v })
  unfolding read_raw read_external
  store_oam h k = ground (
    arith,
    get_or-set_self {A = ℕ} m.oam (p - 0xfe00) v 255,
    get_or-set_ne {A = ℕ} m.oam (p - 0xfe00) (q - 0xfe00) v 255,
  )

  no_boot : (n : MemoryMap) → n.boot_rom ≡ m.boot_rom → 0x100 ≤ q → boot_answers n q ≡ false
  no_boot n e h = ground arith

  store_hram_above :
      0xff80 ≤ p
      → p ≤ 0xffff
      → 0xff80 ≤ q
      → q ≤ 0xffff
      → Stores (record m { hram = set m.hram (p - 0xff80) v })
  store_hram_above h k l o =
      let n : MemoryMap = record m { hram = set m.hram (p - 0xff80) v } in
      rw
        (
          read_raw_hram n q (no_boot n refl (omega arith)) l o,
          read_raw_hram m q (no_boot m refl (omega arith)) l o,
        )
        (ground (
          arith,
          get_or-set_self {A = ℕ} m.hram (p - 0xff80) v 255,
          get_or-set_ne {A = ℕ} m.hram (p - 0xff80) (q - 0xff80) v 255,
        ))

  store_hram_below :
      0xff80 ≤ p → p ≤ 0xffff → q < 0xff80 → Stores (record m { hram = set m.hram (p - 0xff80) v })
  unfolding read_raw read_external
  store_hram_below h k l = ground arith

  write_raw-Stores :
      is_ram p ≡ true
      → p < 0xe000 ⊎ 0xfe00 ≤ p
      → q ≤ 0xffff
      → q < 0xe000 ⊎ 0xfe00 ≤ q
      → Stores (write_raw m p v)
  unfolding write_raw write_high
  write_raw-Stores r np qs nq = ground (
    arith,
    store_vram,
    (λ (h : 0xc000 ≤ p) (k : p < 0xe000). store_wram h k nq),
    store_oam,
    (λ (h : 0xff80 ≤ p) (k : p ≤ 0xffff) (l : 0xff80 ≤ q). store_hram_above h k l qs),
    store_hram_below,
  )

-- An address of RAM is no special one.
write-ram :
    (m : MemoryMap) (p v : ℕ)
    → is_ram p ≡ true
    → write m p v ≡ write_raw m (resolve_echo_address p) v
unfolding write handle_special_write write_other resolve_echo_address
write-ram m p v r = ground arith

resolve-lem :
    (p : ℕ)
    → (resolve_echo_address p < 0xe000 ⊎ 0xfe00 ≤ resolve_echo_address p)
      × (is_ram p ≡ true → is_ram (resolve_echo_address p) ≡ true)
      × (p ≤ 0xffff → resolve_echo_address p ≤ 0xffff)
unfolding resolve_echo_address
resolve-lem p = ground arith

-- After a write to RAM (video RAM, work RAM or its echo, OAM, high RAM or IE) the bus reads the byte at
-- every address that stands for the same cell, the echo of work RAM included, and at every other
-- address of the 64 KiB what it read before.
pub bus_read-write :
    (m : MemoryMap) (address value other : ℕ)
    → HasSizes m
    → length m.boot_rom ≤ 0x100
    → is_ram address ≡ true
    → other ≤ 0xffff
    → read (write m address value) other
      ≡ (if resolve_echo_address other == resolve_echo_address address then value else read m other)
unfolding read
bus_read-write m address value other s boot r o =
    let p = resolve_echo_address address in
    let q = resolve_echo_address other in
    rw (write-ram m address value r) (
      write_raw-Stores m s boot p q value ((resolve-lem address).1 r) (resolve-lem address).0
        ((resolve-lem other).2 o) (resolve-lem other).0)
