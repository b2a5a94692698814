-- ===== src/GameBoy/MemoryMap/SaveRoundTrip.antt =====
-- The state that the memory map writes is read back by itself.
use mathlib.Core.List.{append-nil}
use proto_time.Base.{
  ℕ, ◌+◌, ◌-◌, ◌^◌, ◌≤◌, ◌<◌, ◌≡◌, refl, sym, ap, ap₂, ◌∙◌, Bool, true, false, not, ◌&&◌, ◌||◌,
  List, [], ◌∷◌, ◌++◌, arith, length, take, drop, length-append, take-append, drop-append, ltb,
  ◌==◌, if◌then◌else◌, if_of_false, Bool-cases, inl, inr,
}
use proto_time.Base.Outcome.{Outcome, done, throws, ◌>>=◌, bind_done}
use proto_time.Machine.Checksum.{crc32, crc32_bound}
use proto_time.GameBoy.MemoryMap.State.{MemoryMap, RomWindow, HasSizes}
use proto_time.GameBoy.MemoryMap.Save.{
  StateError, u32_bytes, flag_byte, section_bytes, export_payload, export_state, read_flag,
  read_u32, read_array, read_vector, read_section, window_of, window_wrong, import_arrays,
  import_windows, import_payload, import_state, section_too_large, trailing_data, window_size_wrong,
  boot_rom_missing, checksum_mismatch,
}

read_flag-flag_byte : (b : Bool) (rest : List ℕ) → read_flag (flag_byte b ∷ rest) ≡ done (b, rest)
unfolding read_flag
read_flag-flag_byte true rest = refl
read_flag-flag_byte false rest = refl

read_u32-u32_bytes :
    (n : ℕ) (rest : List ℕ) → n < 2 ^ 32 → read_u32 (u32_bytes n ++ rest) ≡ done (n, rest)
unfolding read_u32
read_u32-u32_bytes n rest h = ap (λ k. done (k, rest)) (omega arith)

read_array-append :
    (xs rest : List ℕ) (n : ℕ) → length xs ≡ n → read_array (xs ++ rest) n ≡ done (xs, rest)
unfolding read_array
read_array-append xs rest n e =
    ap (read_array (xs ++ rest)) (sym e)
    ∙ if_of_false {b = ltb (length (xs ++ rest)) (length xs)} _
        (ground (arith, length-append xs rest))
    ∙ ap₂ (λ a b. done (a, b)) (take-append xs rest) (drop-append xs rest)

read_vector-append :
    (xs rest : List ℕ) (max : ℕ)
    → length xs ≤ max
    → max < 2 ^ 32
    → read_vector (u32_bytes (length xs) ++ (xs ++ rest)) max ≡ done (xs, rest)
unfolding read_vector
read_vector-append xs rest max h k =
    bind_done (λ r. if ltb max r.0 then throws section_too_large else read_array r.1 r.0)
      (read_u32-u32_bytes (length xs) (xs ++ rest) (omega arith))
    ∙ if_of_false {b = ltb max (length xs)} _ (ground arith)
    ∙ read_array-append xs rest (length xs) refl

read_section-section_bytes :
    (b : Bool) (xs rest : List ℕ) (max : ℕ)
    → length xs ≤ max
    → max < 2 ^ 32
    → read_section (section_bytes b xs rest) max ≡ done (b, xs, rest)
unfolding read_section
read_section-section_bytes b xs rest max h k =
    bind_done (λ f. read_vector f.1 max >>= (λ v. done (f.0, v.0, v.1)))
      (read_flag-flag_byte b (u32_bytes (length xs) ++ (xs ++ rest)))
    ∙ bind_done (λ v. done (b, v.0, v.1)) (read_vector-append xs rest max h k)

-- A map whose state can be read back: the boot ROM fits and is not empty while it is mapped, and either
-- window has its full size while it is shown and is empty otherwise.
pub record WindowOk (w : RomWindow) : Type 0 where
  pub size_shown : w.active ≡ true → length w.bytes ≡ 0x4000
  pub empty_hidden : w.active ≡ false → w.bytes ≡ []

pub record IsSaved (m : MemoryMap) : Type 0 where
  pub sizes : HasSizes m
  pub boot_size : length m.boot_rom ≤ 0x100
  pub boot_there : m.boot_rom_active && (length m.boot_rom == 0) ≡ false
  pub window_0000 : WindowOk m.rom_window_0000
  pub window_4000 : WindowOk m.rom_window_4000

window_bound : (w : RomWindow) → WindowOk w → length w.bytes ≤ 0x4000
window_bound w o = elim (Bool-cases w.active) [
  | inl a ↦ omega (arith, o.size_shown a)
  | inr a ↦ omega (arith, ap length (o.empty_hidden a))
]

window_of_lem : (w : RomWindow) → WindowOk w → window_of w.active w.bytes ≡ w
window_of_lem w o = elim (Bool-cases w.active) [
  | inl a ↦ ground (arith, a)
  | inr a ↦ ground (arith, a, o.empty_hidden a)
]

window_wrong_lem : (w : RomWindow) → WindowOk w → window_wrong w.active w.bytes ≡ false
window_wrong_lem w o = elim (Bool-cases w.active) [
  | inl a ↦ ground (arith, o.size_shown a)
  | inr a ↦ ground arith
]

-- What is read, beside the pointers of the map that reads.
abbrev taken_over : MemoryMap → MemoryMap → MemoryMap
taken_over m n = record m { mapper = n.mapper; cartridge = n.cartridge }

module _ (m n : MemoryMap) (s : IsSaved m) (t : HasSizes n) where
  arrays_read :
      import_arrays n m.boot_rom_active m.boot_rom m.rom_window_0000 m.rom_window_4000
        (m.vram ++ (m.wram ++ (m.oam ++ (m.io_regs ++ m.hram))))
      ≡ done (taken_over m n)
  unfolding import_arrays
  arrays_read =
      let z = s.sizes in
      let end : List ℕ → List ℕ → List ℕ → List ℕ → List ℕ × List ℕ → Outcome StateError MemoryMap =
        λ vram wram oam io_regs hram.
          if not (length hram.1 == 0)
          then throws trailing_data
          else done (record n {
            vram = vram;
            wram = wram;
            oam = oam;
            io_regs = io_regs;
            hram = hram.0;
            boot_rom = m.boot_rom;
            boot_rom_active = m.boot_rom_active;
            rom_window_0000 = m.rom_window_0000;
            rom_window_4000 = m.rom_window_4000;
          }) in
      let hram_read : read_array m.hram (length n.hram) ≡ done (m.hram, []) =
        ap (λ xs. read_array xs (length n.hram)) (sym (append-nil m.hram))
        ∙ read_array-append m.hram [] (length n.hram) (z.hram_size ∙ sym t.hram_size) in
      bind_done
        (λ v. read_array v.1 (length n.wram) >>= (λ w. read_array w.1 (length n.oam) >>= (λ o.
          read_array o.1 (length n.io_regs)
          >>= (λ i. read_array i.1 (length n.hram) >>= end v.0 w.0 o.0 i.0))))
        (read_array-append m.vram (m.wram ++ (m.oam ++ (m.io_regs ++ m.hram))) (length n.vram)
          (z.vram_size ∙ sym t.vram_size))
      ∙ bind_done
          (λ w. read_array w.1 (length n.oam) >>= (λ o.
            read_array o.1 (length n.io_regs)
            >>= (λ i. read_array i.1 (length n.hram) >>= end m.vram w.0 o.0 i.0)))
          (read_array-append m.wram (m.oam ++ (m.io_regs ++ m.hram)) (length n.wram)
            (z.wram_size ∙ sym t.wram_size))
      ∙ bind_done
          (λ o.
            read_array o.1 (length n.io_regs)
            >>= (λ i. read_array i.1 (length n.hram) >>= end m.vram m.wram o.0 i.0))
          (read_array-append m.oam (m.io_regs ++ m.hram) (length n.oam)
            (z.oam_size ∙ sym t.oam_size))
      ∙ bind_done (λ i. read_array i.1 (length n.hram) >>= end m.vram m.wram m.oam i.0)
          (read_array-append m.io_regs m.hram (length n.io_regs) (z.io_size ∙ sym t.io_size))
      ∙ bind_done (end m.vram m.wram m.oam m.io_regs) hram_read

  windows_read :
      import_windows n m.boot_rom_active m.boot_rom (
        section_bytes m.rom_window_0000.active m.rom_window_0000.bytes (
          section_bytes m.rom_window_4000.active m.rom_window_4000.bytes
            (m.vram ++ (m.wram ++ (m.oam ++ (m.io_regs ++ m.hram))))))
      ≡ done (taken_over m n)
  unfolding import_windows
  windows_read =
      let a = m.rom_window_0000 in
      let b = m.rom_window_4000 in
      let arrays = m.vram ++ (m.wram ++ (m.oam ++ (m.io_regs ++ m.hram))) in
      let check : Bool × List ℕ × List ℕ → Bool × List ℕ × List ℕ → Outcome StateError MemoryMap =
        λ w x.
          if window_wrong w.0 w.1 || window_wrong x.0 x.1
          then throws window_size_wrong
          else import_arrays n m.boot_rom_active m.boot_rom (window_of w.0 w.1) (window_of x.0 x.1)
              x.2 in
      bind_done (λ w. read_section w.2 0x4000 >>= (λ x. check w x))
        (read_section-section_bytes a.active a.bytes (section_bytes b.active b.bytes arrays) 0x4000
          (window_bound a s.window_0000) (omega arith))
      ∙ bind_done (λ x. check (a.active, a.bytes, section_bytes b.active b.bytes arrays) x)
          (read_section-section_bytes b.active b.bytes arrays 0x4000 (window_bound b s.window_4000)
            (omega arith))
      ∙ if_of_false {b = window_wrong a.active a.bytes || window_wrong b.active b.bytes} _ (
          ap₂ (λ p q. p || q) (window_wrong_lem a s.window_0000) (window_wrong_lem b s.window_4000))
      ∙ ap₂ (λ w x. import_arrays n m.boot_rom_active m.boot_rom w x arrays)
          (window_of_lem a s.window_0000) (window_of_lem b s.window_4000)
      ∙ arrays_read

  payload_read : import_payload n (export_payload m) ≡ done (taken_over m n)
  unfolding import_payload export_payload
  payload_read =
      let rest = section_bytes m.rom_window_0000.active m.rom_window_0000.bytes (
        section_bytes m.rom_window_4000.active m.rom_window_4000.bytes
          (m.vram ++ (m.wram ++ (m.oam ++ (m.io_regs ++ m.hram))))) in
      bind_done
        (λ b.
          if b.0 && (length b.1 == 0)
          then throws boot_rom_missing
          else import_windows n b.0 b.1 b.2)
        (read_section-section_bytes m.boot_rom_active m.boot_rom rest 0x100 s.boot_size
          (omega arith))
      ∙ if_of_false {b = m.boot_rom_active && (length m.boot_rom == 0)} _ s.boot_there
      ∙ windows_read

  length-export_payload : 15 + (0x2000 + 0x2000 + 0xa0 + 0x80 + 0x80) ≤ length (export_payload m)
  unfolding export_payload
  length-export_payload =
      let a = m.rom_window_0000 in
      let b = m.rom_window_4000 in
      let z = s.sizes in
      let arrays = m.vram ++ (m.wram ++ (m.oam ++ (m.io_regs ++ m.hram))) in
      let tail = section_bytes b.active b.bytes arrays in
      omega (
        arith,
        length-append m.boot_rom (section_bytes a.active a.bytes tail),
        length-append a.bytes tail,
        length-append b.bytes arrays,
        length-append m.vram (m.wram ++ (m.oam ++ (m.io_regs ++ m.hram))),
        length-append m.wram (m.oam ++ (m.io_regs ++ m.hram)),
        length-append m.oam (m.io_regs ++ m.hram),
        length-append m.io_regs m.hram,
        z.vram_size,
        z.wram_size,
        z.oam_size,
        z.io_size,
        z.hram_size,
      )

-- The state that a memory map writes is accepted by any memory map, checksum included, which then equals
-- the one that wrote it, its pointers to the mapper and to the cartridge aside. The boot ROM of the map
-- that wrote it has at most 256 bytes, and some while it is mapped; a ROM window has its full size while
-- it is shown and is empty otherwise.
pub memory_map_import-export :
    (m n : MemoryMap)
    → IsSaved m
    → HasSizes n
    → import_state n (export_state m)
      ≡ done (record m { mapper = n.mapper; cartridge = n.cartridge })
unfolding import_state export_state
memory_map_import-export m n s t =
    let payload = export_payload m in
    let crc = u32_bytes (crc32 payload) in
    let fixed = length n.vram + length n.wram + length n.oam + length n.io_regs + length n.hram in
    let size : length (payload ++ crc) - 4 ≡ length payload =
      omega (arith, length-append payload crc) in
    let long : ltb (length (payload ++ crc)) (4 + 15 + fixed) ≡ false = ground (
      arith,
      length-append payload crc,
      length-export_payload m n s t,
      t.vram_size,
      t.wram_size,
      t.oam_size,
      t.io_size,
      t.hram_size,
    ) in
    let check : List ℕ → ℕ × List ℕ → Outcome StateError MemoryMap = λ xs stored.
      if not (stored.0 == crc32 xs) then throws checksum_mismatch else import_payload n xs in
    if_of_false {b = ltb (length (payload ++ crc)) (4 + 15 + fixed)} _ long
    ∙ ap₂ (λ a b. read_u32 a >>= check b)
        (ap (λ k. drop k (payload ++ crc)) size ∙ drop-append payload crc)
        (ap (λ k. take k (payload ++ crc)) size ∙ take-append payload crc)
    ∙ bind_done (check payload) (read_u32-u32_bytes (crc32 payload) [] (crc32_bound payload))
    ∙ if_of_false {b = not (crc32 payload == crc32 payload)} _ (ground arith)
    ∙ payload_read m n s t
