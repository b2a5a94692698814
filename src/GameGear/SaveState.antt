-- ===== src/GameGear/SaveState.antt =====
-- The states that the Game Gear cartridges write are read back by themselves.
use proto_time.Base.{
  ℕ, ◌+◌, ◌^◌, ◌≤◌, ◌<◌, ◌≡◌, refl, sym, ap, ap₂, ◌∙◌, Bool, true, false, not, ◌||◌, List, [], ◌∷◌,
  ◌++◌, arith, length, take, drop, length-append, take-append, drop-append, ltb, ◌==◌,
  if◌then◌else◌, if_of_false,
}
use mathlib.Core.List.{append-nil}
use proto_time.Base.Outcome.{Outcome, done, throws, ◌>>=◌}
use proto_time.GameGear.Cartridge.{
  GameGearCartridge, StateError, num_banks, u32_bytes, read_u32, read_bytes, flag_byte,
  export_state, import_registers, import_state,
}
use proto_time.GameGear.Cartridge
use proto_time.GameGear.Codemasters.{CodemastersMapper, import_flags}
use proto_time.GameGear.Codemasters

pub read_u32-u32_bytes :
    (n : ℕ) (rest : List ℕ) → n < 2 ^ 32 → read_u32 (u32_bytes n ++ rest) ≡ done (n, rest)
unfolding read_u32
read_u32-u32_bytes n rest h = ap (λ k. done (k, rest)) (omega arith)

read_bytes-append :
    (xs rest : List ℕ) (max : ℕ)
    → length xs ≤ max
    → max < 2 ^ 32
    → read_bytes (u32_bytes (length xs) ++ (xs ++ rest)) max ≡ done (xs, rest)
unfolding read_bytes
read_bytes-append xs rest max h k =
    ap
      (λ r. r >>= (λ s.
        if ltb max s.0 || ltb (length s.1) s.0
        then throws Cartridge.vector_invalid
        else done (take s.0 s.1, drop s.0 s.1)))
      (read_u32-u32_bytes (length xs) (xs ++ rest) (omega arith))
    ∙ if_of_false {b = ltb max (length xs) || ltb (length (xs ++ rest)) (length xs)} _
        (ground (arith, length-append xs rest))
    ∙ ap₂ (λ a b. done (a, b)) (take-append xs rest) (drop-append xs rest)

-- The same image is loaded, and so save RAM has the same size.
pub record SameImage (c d : GameGearCartridge) : Type 0 where
  pub same_rom : c.rom ≡ d.rom
  pub same_sram : length c.sram ≡ length d.sram
  pub rom_bound : length c.rom < 2 ^ 32
  pub sram_bound : length c.sram ≤ 0x8000

num_banks-same : (c d : GameGearCartridge) → c.rom ≡ d.rom → num_banks c ≡ num_banks d
unfolding num_banks
num_banks-same c d e = ground arith

num_banks_bound : (c : GameGearCartridge) → length c.rom < 2 ^ 32 → num_banks c < 2 ^ 32
unfolding num_banks
num_banks_bound c h = ground arith

flag_byte_small : (b : Bool) → ltb 1 (flag_byte b) ≡ false
flag_byte_small true = refl
flag_byte_small false = refl

flag_byte_lem : (b : Bool) → not (flag_byte b == 0) ≡ b
flag_byte_lem true = refl
flag_byte_lem false = refl

import_registers_lem :
    (c d : GameGearCartridge)
    → SameImage c d
    → import_registers d (
        c.control_register
        ∷ c.bank_0
        ∷ c.bank_1
        ∷ c.bank_2
        ∷ flag_byte c.save_dirty
        ∷ (u32_bytes (length c.sram) ++ c.sram))
      ≡ done c
unfolding import_registers
import_registers_lem c d s =
    let sram : read_bytes (u32_bytes (length c.sram) ++ c.sram) 0x8000 ≡ done (c.sram, []) =
      ap (λ xs. read_bytes (u32_bytes (length c.sram) ++ xs) 0x8000) (sym (append-nil c.sram))
      ∙ read_bytes-append c.sram [] 0x8000 s.sram_bound (omega arith) in
    let restored : Bool → GameGearCartridge = λ b. record d {
      control_register = c.control_register;
      bank_0 = c.bank_0;
      bank_1 = c.bank_1;
      bank_2 = c.bank_2;
      save_dirty = b;
      sram = c.sram;
    } in
    if_of_false {b = ltb 1 (flag_byte c.save_dirty)} _ (flag_byte_small c.save_dirty)
    ∙ ap
        (λ r. r >>= (λ x.
          if not (length x.0 == length d.sram) || not (length x.1 == 0)
          then throws Cartridge.sram_size_mismatch
          else done (record (restored (not (flag_byte c.save_dirty == 0))) { sram = x.0 })))
        sram
    ∙ if_of_false {b = not (length c.sram == length d.sram) || not (length {A = ℕ} [] == 0)} _
        (ground (arith, s.same_sram))
    ∙ ap₂ (λ b r. done (record (restored b) { rom = r })) (flag_byte_lem c.save_dirty)
        (sym s.same_rom)

-- The state that a cartridge writes is read by a cartridge that holds the same image, which then equals
-- the one that wrote it.
pub gamegear_import-export :
    (c d : GameGearCartridge) → SameImage c d → import_state d (export_state c) ≡ done c
unfolding import_state export_state
gamegear_import-export c d s =
    let registers =
      c.control_register
      ∷ c.bank_0
      ∷ c.bank_1
      ∷ c.bank_2
      ∷ flag_byte c.save_dirty
      ∷ (u32_bytes (length c.sram) ++ c.sram) in
    let test : ℕ → ℕ → List ℕ → Outcome StateError GameGearCartridge = λ a b xs.
      if not (a == length d.rom) || not (b == num_banks d)
      then throws Cartridge.rom_mismatch
      else import_registers d xs in
    ap (λ r. r >>= (λ x. read_u32 x.1 >>= (λ y. test x.0 y.0 y.1)))
      (read_u32-u32_bytes (length c.rom) (u32_bytes (num_banks c) ++ registers) s.rom_bound)
    ∙ ap (λ r. r >>= (λ y. test (length c.rom) y.0 y.1))
        (read_u32-u32_bytes (num_banks c) registers (num_banks_bound c s.rom_bound))
    ∙ if_of_false {b = not (length c.rom == length d.rom) || not (num_banks c == num_banks d)} _
        (ground (arith, ap length s.same_rom, num_banks-same c d s.same_rom))
    ∙ import_registers_lem c d s

length-export_state : (c : GameGearCartridge) → length (export_state c) ≡ 17 + length c.sram
unfolding export_state
length-export_state c = omega arith

import_flags_lem :
    (m n : CodemastersMapper)
    → SameImage m.base n.base
    → import_flags n
        (export_state m.base)
        m.extra_ram
        (flag_byte m.extra_ram_mapped ∷ flag_byte m.extra_ram_dirty ∷ [])
      ≡ done m
unfolding import_flags
import_flags_lem m n s =
    let made : GameGearCartridge → Bool → Bool → CodemastersMapper = λ base mapped dirty. record {
      base = base;
      extra_ram = m.extra_ram;
      extra_ram_mapped = mapped;
      extra_ram_dirty = dirty;
    } in
    let mapped = not (flag_byte m.extra_ram_mapped == 0) in
    let dirty = not (flag_byte m.extra_ram_dirty == 0) in
    if_of_false {b = ltb 1 (flag_byte m.extra_ram_mapped) || ltb 1 (flag_byte m.extra_ram_dirty)} _
      (ground (arith, flag_byte_small m.extra_ram_mapped, flag_byte_small m.extra_ram_dirty))
    ∙ ap (λ r. r >>= (λ base. done (made base mapped dirty)))
        (gamegear_import-export m.base n.base s)
    ∙ ap₂ (λ a b. done (made m.base a b)) (flag_byte_lem m.extra_ram_mapped)
        (flag_byte_lem m.extra_ram_dirty)

-- The state that a Codemasters cartridge writes is read by one that holds the same image, which then
-- equals the one that wrote it: bank registers, save RAM, the RAM on the cartridge and whether it is
-- mapped. The RAM on the cartridge has at most 8 KiB.
pub codemasters_import-export :
    (m n : CodemastersMapper)
    → SameImage m.base n.base
    → length m.extra_ram ≤ 0x2000
    → Codemasters.import_state n (Codemasters.export_state m) ≡ done m
unfolding Codemasters.import_state Codemasters.export_state
codemasters_import-export m n s h =
    let head = export_state m.base in
    let flags = flag_byte m.extra_ram_mapped ∷ flag_byte m.extra_ram_dirty ∷ [] in
    let tail = u32_bytes (length m.extra_ram) ++ (m.extra_ram ++ flags) in
    let size : length (export_state n.base) ≡ length head =
      omega (arith, length-export_state m.base, length-export_state n.base, s.same_sram) in
    let body : List ℕ → ℕ → List ℕ → Outcome StateError CodemastersMapper = λ base k xs.
      if ltb 0x2000 k || not (length xs == k + 2)
      then throws Cartridge.extra_ram_invalid
      else import_flags n base (take k xs) (drop k xs) in
    if_of_false {b = ltb (length (head ++ tail)) (length (export_state n.base) + 6)} _
      (ground (arith, size, length-append head tail, length-append m.extra_ram flags))
    ∙ ap₂ (λ base xs. read_u32 xs >>= (λ r. body base r.0 r.1))
        (ap (λ k. take k (head ++ tail)) size ∙ take-append head tail)
        (ap (λ k. drop k (head ++ tail)) size ∙ drop-append head tail)
    ∙ ap (λ r. r >>= (λ r. body head r.0 r.1))
        (read_u32-u32_bytes (length m.extra_ram) (m.extra_ram ++ flags) (omega arith))
    ∙ if_of_false
        {b = ltb 0x2000 (length m.extra_ram)
          || not (length (m.extra_ram ++ flags) == length m.extra_ram + 2)}
        _ (ground (arith, length-append m.extra_ram flags))
    ∙ ap₂ (import_flags n head) (take-append m.extra_ram flags) (drop-append m.extra_ram flags)
    ∙ import_flags_lem m n s
