-- ===== src/GameBoy/Mapper/Agreement.antt =====
-- The machine keeps two models of one cartridge and sends every write to both: `GameBoyMapper` chooses
-- the ROM banks that the memory map shows, `GameBoyCartridge` the external RAM. Here: when they agree.
use proto_time.Base.{
  ℕ, ◌+◌, ◌-◌, ◌*◌, ◌/◌, ◌%◌, ◌≤◌, ◌<◌, ◌≡◌, ◌⊎◌, ◌↔◌, ◌∙◌, min, sym, refl, List, [], ◌∷◌, arith,
  length, zero, suc, ap, fit, replicate, if◌then◌else◌,
}
use native.Mathlib.Nat.{mod-eq_of_lt, mod_self, mod-lt, mod-add-mod}
use proto_time.Base.Outcome.{done}
use proto_time.GameBoy.Cartridge.Header.{
  CartridgeMapper, mbc1, mbc2, mbc5, parse_cartridge_metadata,
}
use proto_time.GameBoy.Cartridge.State.{Cartridge, at_least_one_bank, force_mbc1, power_on}
use proto_time.GameBoy.Cartridge.State
use proto_time.GameBoy.Cartridge.Banking.{mbc1_bank, fixed_bank_index, switchable_bank_index}
use proto_time.GameBoy.Cartridge.Control
use proto_time.GameBoy.Cartridge.Banking
use proto_time.GameBoy.Cartridge.Control.{write_control}
use proto_time.GameBoy.Cartridge.BankBounds.{mbc1_bank_lem}
use proto_time.GameBoy.Mapper
use proto_time.GameBoy.Mapper.{
  GameBoyMapper, mbc1_effective_bank, never_zero, current_fixed_rom_bank,
}

mbc1_effective_bank-eq-mbc1_bank :
    (upper low count : ℕ)
    → upper ≤ 3
    → mbc1_effective_bank upper low count ≡ mbc1_bank upper low count
unfolding mbc1_effective_bank mbc1_bank
mbc1_effective_bank-eq-mbc1_bank upper low count h =
    ground (arith, mod-eq_of_lt {n = upper} {m = 4})

-- The registers of an MBC1 or an MBC2 as both models hold them.
abbrev pub SameRegisters : CartridgeMapper → GameBoyMapper → Cartridge → Type 0
SameRegisters mbc1 m c =
    (m.rom_bank_low ≡ c.mbc1_low_bank_bits)
    × (m.ram_bank_select ≡ c.mbc1_upper_bank_bits)
    × (c.mbc1_upper_bank_bits ≤ 3)
    × (m.ram_bank_mode ≡ (if c.mbc1_banking_mode_select then 1 else 0))
    × (m.effective_rom_bank
        ≡ mbc1_bank c.mbc1_upper_bank_bits c.mbc1_low_bank_bits c.metadata.rom_bank_count)
SameRegisters mbc2 m c = m.effective_rom_bank ≡ c.current_rom_bank % c.metadata.rom_bank_count
SameRegisters _ m c = ⊥

pub record Agree (m : GameBoyMapper) (c : Cartridge) : Type 0 where
  pub same_mapper : m.mapper_type ≡ c.metadata.mapper
  pub same_count : m.rom_bank_count ≡ c.metadata.rom_bank_count
  pub many : 2 ≤ c.metadata.rom_bank_count
  pub same_gate : m.ram_enabled ≡ c.ram_enabled
  pub registers : SameRegisters c.metadata.mapper m c

-- In agreement both models show the same ROM banks.
Agree-banks :
    {m : GameBoyMapper} {c : Cartridge}
    → Agree m c
    → (m.effective_rom_bank ≡ switchable_bank_index c)
      × (current_fixed_rom_bank m ≡ fixed_bank_index c)
unfolding switchable_bank_index current_fixed_rom_bank fixed_bank_index
Agree-banks {m} {c} a = ground (arith, mod-eq_of_lt {n = c.mbc1_upper_bank_bits} {m = 4})

write_mbc1-Agree :
    {m : GameBoyMapper} {c : Cartridge} (address value : ℕ)
    → address < 0x8000
    → c.metadata.mapper ≡ mbc1
    → Agree m c
    → Agree (Mapper.write_mbc1 m address value).0 (Control.write_mbc1 c address value).0
unfolding Mapper.write_mbc1 Control.write_mbc1
write_mbc1-Agree {m} {c} address value h k a =
    let count = c.metadata.rom_bank_count in
    ground (
      arith,
      mbc1_effective_bank-eq-mbc1_bank c.mbc1_upper_bank_bits (never_zero (value % 32)) count,
      mbc1_effective_bank-eq-mbc1_bank (value % 4) c.mbc1_low_bank_bits count,
      mbc1_effective_bank-eq-mbc1_bank c.mbc1_upper_bank_bits c.mbc1_low_bank_bits count,
    )

write_mbc2-Agree :
    {m : GameBoyMapper} {c : Cartridge} (address value : ℕ)
    → c.metadata.mapper ≡ mbc2
    → Agree m c
    → Agree (Mapper.write_mbc2 m address value).0 (Control.write_mbc2 c address value).0
unfolding Mapper.write_mbc2 Control.write_mbc2
write_mbc2-Agree address value k a = ground arith

write-Agree :
    {m : GameBoyMapper} {c : Cartridge} (address value : ℕ)
    → address < 0x8000
    → Agree m c
    → Agree (Mapper.write m address value).0 (write_control c address value).0
unfolding Mapper.write write_control
write-Agree {m} {c} address value h a = ground (
  arith,
  (λ (k : c.metadata.mapper ≡ mbc1). write_mbc1-Agree address value h k a),
  (λ (k : c.metadata.mapper ≡ mbc2). write_mbc2-Agree address value k a),
)

-- The writes of a program to the ROM area, each an address and a byte.
abbrev pub RomWrites : List (ℕ × ℕ) → Type 0
RomWrites [] = Unit {0}
RomWrites ((address, value) ∷ writes) = (address < 0x8000) × RomWrites writes

pub run_mapper : GameBoyMapper → List (ℕ × ℕ) → GameBoyMapper
run_mapper m [] = m
run_mapper m ((address, value) ∷ writes) = run_mapper (Mapper.write m address value).0 writes

pub run_cartridge : Cartridge → List (ℕ × ℕ) → Cartridge
run_cartridge c [] = c
run_cartridge c ((address, value) ∷ writes) = run_cartridge (write_control c address value).0 writes

run-Agree :
    (m : GameBoyMapper) (c : Cartridge) (writes : List (ℕ × ℕ))
    → RomWrites writes
    → Agree m c
    → Agree (run_mapper m writes) (run_cartridge c writes)
unfolding run_mapper run_cartridge
run-Agree m c [] w a = a
run-Agree m c ((address, value) ∷ writes) w a =
    run-Agree (Mapper.write m address value).0 (write_control c address value).0 writes w.1
      (write-Agree address value w.0 a)

header_banks :
    (rom : List ℕ) → (parse_cartridge_metadata rom).rom_bank_count ≡ (length rom + 0x3fff) / 0x4000
unfolding parse_cartridge_metadata
header_banks rom = refl

-- The cartridge that `load` makes of an image whose header names its mapper.
load-named :
    (rom : List ℕ)
    → 0 < length rom
    → ((parse_cartridge_metadata rom).mapper ≡ mbc1)
      ⊎ ((parse_cartridge_metadata rom).mapper ≡ mbc2)
    → State.load rom ≡ done (power_on (parse_cartridge_metadata rom) rom)
unfolding State.load at_least_one_bank force_mbc1
load-named rom h t = ground (arith, header_banks rom)

power_on-Agree :
    (m : GameBoyMapper) (rom : List ℕ) (k : ℕ)
    → length rom ≡ k * 0x4000
    → 2 ≤ k
    → ((parse_cartridge_metadata rom).mapper ≡ mbc1)
      ⊎ ((parse_cartridge_metadata rom).mapper ≡ mbc2)
    → Agree (Mapper.load m rom) (power_on (parse_cartridge_metadata rom) rom)
unfolding Mapper.load power_on
power_on-Agree m rom k e h t =
    ground (arith, header_banks rom, mbc1_bank_lem 0 1 k, mod-eq_of_lt {n = 1} {m = k})

-- Take an image of two ROM banks or more, of whole banks, whose header names an MBC1 or an MBC2. Load
-- it into the mapper and into the cartridge, and send both the same writes to the ROM area. Then the
-- cartridge loads, and the two show the same bank in the switchable and in the fixed ROM window, and
-- agree on whether external RAM is enabled.
pub models_agree :
    (m : GameBoyMapper) (rom : List ℕ) (k : ℕ) (writes : List (ℕ × ℕ))
    → length rom ≡ k * 0x4000
    → 2 ≤ k
    → ((parse_cartridge_metadata rom).mapper ≡ mbc1)
      ⊎ ((parse_cartridge_metadata rom).mapper ≡ mbc2)
    → RomWrites writes
    → (c : Cartridge) × (State.load rom ≡ done c)
      × ((run_mapper (Mapper.load m rom) writes).effective_rom_bank
          ≡ switchable_bank_index (run_cartridge c writes))
      × (current_fixed_rom_bank (run_mapper (Mapper.load m rom) writes)
          ≡ fixed_bank_index (run_cartridge c writes))
      × ((run_mapper (Mapper.load m rom) writes).ram_enabled ≡ (run_cartridge c writes).ram_enabled)
models_agree m rom k writes e h t w =
    let c = power_on (parse_cartridge_metadata rom) rom in
    let a = run-Agree (Mapper.load m rom) c writes w (power_on-Agree m rom k e h t) in
    (c, load-named rom (omega arith) t, (Agree-banks a).0, (Agree-banks a).1, a.same_gate)

-- The two writes by which a program asks an MBC5 for a bank.
abbrev pub mapper_asked : ℕ → GameBoyMapper → GameBoyMapper
mapper_asked bank m = (Mapper.write (Mapper.write m 0x2000 (bank % 256)).0 0x3000 (bank / 256)).0

abbrev pub cartridge_asked : ℕ → Cartridge → Cartridge
cartridge_asked bank c =
    (write_control (write_control c 0x2000 (bank % 256)).0 0x3000 (bank / 256)).0

mapper_asked_bank :
    (m : GameBoyMapper) (bank : ℕ)
    → m.mapper_type ≡ mbc5
    → 2 ≤ m.rom_bank_count
    → bank ≤ 511
    → (mapper_asked bank m).effective_rom_bank ≡ min bank (m.rom_bank_count - 1)
unfolding Mapper.write Mapper.write_mbc5 Mapper.update_mbc5_banking Mapper.clamp_bank
mapper_asked_bank m bank k h s = ground arith

cartridge_asked_bank :
    (c : Cartridge) (bank : ℕ)
    → c.metadata.mapper ≡ mbc5
    → 2 ≤ c.metadata.rom_bank_count
    → bank ≤ 511
    → switchable_bank_index (cartridge_asked bank c) ≡ bank % c.metadata.rom_bank_count
unfolding switchable_bank_index write_control Control.write_mbc5
cartridge_asked_bank c bank k h s = ground arith

next_is_zero_iff : (r n : ℕ) → 2 ≤ n → r < n → ((r + 1) % n ≡ 0) ↔ (r ≡ n - 1)
next_is_zero_iff r n h b = ground (arith, mod-eq_of_lt {n = r + 1} {m = n}, mod_self n)

last_bank_iff :
    (bank n : ℕ) → 2 ≤ n → (min bank (n - 1) ≡ bank % n) ↔ ((bank < n) ⊎ ((bank + 1) % n ≡ 0))
last_bank_iff bank n h = ground (
  arith,
  mod-lt bank {m = n},
  mod-eq_of_lt {n = bank} {m = n},
  mod-add-mod bank n 1,
  next_is_zero_iff (bank % n) n,
)

-- A program writes both bank registers of an MBC5 whose image has `n` banks, at least two, and so asks
-- for a bank of nine bits. The mapper then shows that bank, but no bank beyond the last; the cartridge
-- shows the remainder of the bank by `n`. The two models show the same bank exactly if the image has
-- the bank asked for, or the bank after it is a multiple of `n`; for every other bank they differ.
pub mbc5_models_differ :
    (m : GameBoyMapper) (c : Cartridge) (bank : ℕ)
    → m.mapper_type ≡ mbc5
    → c.metadata.mapper ≡ mbc5
    → m.rom_bank_count ≡ c.metadata.rom_bank_count
    → 2 ≤ c.metadata.rom_bank_count
    → bank ≤ 511
    → (let n = c.metadata.rom_bank_count in
        let shown = (mapper_asked bank m).effective_rom_bank in
        let routed = switchable_bank_index (cartridge_asked bank c) in
        (shown ≡ min bank (n - 1))
        × (routed ≡ bank % n)
        × ((shown ≡ routed) ↔ ((bank < n) ⊎ ((bank + 1) % n ≡ 0))))
mbc5_models_differ m c bank k1 k2 e h s =
    let shown = mapper_asked_bank m bank k1 (omega arith) s ∙ ap (λ n. min bank (n - 1)) e in
    let routed = cartridge_asked_bank c bank k2 h s in
    let iff = last_bank_iff bank c.metadata.rom_bank_count h in
    (
      shown,
      routed,
      (λ same. iff.0 (sym shown ∙ same ∙ routed), λ has. shown ∙ iff.1 has ∙ sym routed),
    )

fit-nil : (n pad : ℕ) → fit n pad [] ≡ replicate n pad
fit-nil zero pad = refl
fit-nil (suc n) pad = ap (◌∷◌ pad) (fit-nil n pad)

-- For a bank of the image, both models copy the same bytes into a ROM window.
pub windows_agree :
    (m : GameBoyMapper) (c : Cartridge) (bank size : ℕ)
    → m.rom_data ≡ c.rom
    → bank < m.rom_bank_count
    → Mapper.copy_rom_bank_window m bank size ≡ Banking.copy_rom_bank_window c bank size
unfolding Mapper.copy_rom_bank_window Banking.copy_rom_bank_window
windows_agree m c bank size e h = ground (arith, fit-nil size 255)
