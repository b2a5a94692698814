-- ===== src/GameBoy/Ports/Guard.antt =====
-- Which accesses to memory the processor keeps from its store.
use proto_time.Base.{
  ℕ, ◌+◌, ◌-◌, ◌%◌, ◌≤◌, ◌<◌, Bool, true, false, ◌&&◌, ◌||◌, List, [], ◌∷◌, leb, ◌==◌,
  if◌then◌else◌, between, if_of_true, if_of_false, Bool-cases, ◌≡◌, refl, ap, ◌∙◌, ◌⊎◌, inl, inr,
  arith, Option, some, none, ◌↔◌,
}
use proto_time.GameBoy.Clock.{Clock, normalize_access_address}
use proto_time.GameBoy.Ports.{
  Ports, is_hram_address, open_bus, single, lcd_enabled, current_ppu_mode, cached_register,
  write_cached_register, write_port, dma_blocks_read, lcd_blocks_read, cached_read, read_memory,
  read_port, handle_memory_read, dma_blocks_write, lcd_blocks_write, write_memory, written_port,
  handle_memory_write,
}

-- What the program can reach that is no register: below the I/O registers, and high RAM.
unfoldable pub IsMemory : ℕ → Type 0
IsMemory address = (address < 0xFF00) ⊎ ((0xFF80 ≤ address) × (address ≤ 0xFFFE))

-- The area behind OAM, and the two areas that the LCD uses.
abbrev BehindOam : ℕ → Type 0
BehindOam address = (0xFEA0 ≤ address) × (address < 0xFF00)

abbrev InVideoRam : ℕ → Type 0
InVideoRam address = (0x8000 ≤ address) × (address < 0xA000)

abbrev InOam : ℕ → Type 0
InOam address = (0xFE00 ≤ address) × (address < 0xFEA0)

-- The LCD is on and between dots 80 and 251 of a line that it shows: it uses both areas. Before
-- dot 80 it uses OAM.
abbrev LcdUses : {S : Type 0} → ℕ → Clock S → Type 0
LcdUses address c =
    (128 ≤ c.lcdc % 256)
    × (c.ly < 144)
    × (((80 ≤ c.ppu_dot_counter % 456)
          × (c.ppu_dot_counter % 456 < 252)
          × (InVideoRam address ⊎ InOam address))
        ⊎ ((c.ppu_dot_counter % 456 < 80) × InOam address))

-- What a program cannot reach at the time.
unfoldable pub Guarded : {S : Type 0} → ℕ → Clock S → Type 0
Guarded address c =
    BehindOam address ⊎ ((c.dma_active ≡ true) × (address < 0xFF80)) ⊎ LcdUses address c

module _ {S : Type 0} where
  cached_register-none :
      (address : ℕ) (p : Ports S) → IsMemory address → cached_register address p ≡ none
  unfolding cached_register IsMemory
  cached_register-none address p h = ground arith

  write_port-none :
      (address value : ℕ) (p : Ports S) → IsMemory address → write_port address value p ≡ none
  unfolding write_port write_cached_register IsMemory
  write_port-none address value p h = ground arith

  lcd_blocks_read_iff :
      (address : ℕ) (p : Ports S) → (lcd_blocks_read address p ≡ true) ↔ LcdUses address p.clock
  unfolding lcd_blocks_read lcd_enabled current_ppu_mode
  lcd_blocks_read_iff address p = ground arith

  lcd_blocks_write_iff :
      (address : ℕ) (p : Ports S) → (lcd_blocks_write address p ≡ true) ↔ LcdUses address p.clock
  unfolding lcd_blocks_write lcd_enabled current_ppu_mode
  lcd_blocks_write_iff address p = ground arith

  kept_back_read_iff :
      (address : ℕ) (p : Ports S)
      → IsMemory address
      → ((between 0xFEA0 0xFF00 address || dma_blocks_read address p || lcd_blocks_read address p)
          ≡ true)
        ↔ Guarded address p.clock
  unfolding Guarded IsMemory is_hram_address dma_blocks_read
  kept_back_read_iff address p h = ground (arith, lcd_blocks_read_iff address p)

  kept_back_write_iff :
      (address : ℕ) (p : Ports S)
      → IsMemory address
      → ((between 0xFEA0 0xFF00 address || dma_blocks_write address p || lcd_blocks_write address p)
          ≡ true)
        ↔ Guarded address p.clock
  unfolding Guarded IsMemory is_hram_address dma_blocks_write
  kept_back_write_iff address p h = ground (arith, lcd_blocks_write_iff address p)

  read_port-guard :
      (address b : ℕ) (p : Ports S)
      → IsMemory address
      → read_port address (b ∷ []) p ≡ (
          if between 0xFEA0 0xFF00 address || dma_blocks_read address p || lcd_blocks_read address p
          then some (0xFF ∷ [])
          else none)
  unfolding read_port read_memory cached_read IsMemory
  read_port-guard address b p h =
      let uncached : Option ℕ → Option (List ℕ) = λ o.
        (if between 0xFEA0 0xFF00 address || dma_blocks_read address p
          then some (open_bus (b ∷ []))
          else elim (single o) [
            | some r ↦ some r
            | none ↦ if lcd_blocks_read address p then some (open_bus (b ∷ [])) else none
          ]) in
      if_of_false {b = address == 0xFF00} _ (ground arith)
      ∙ ap uncached (cached_register-none address p h)
      ∙ either_or (between 0xFEA0 0xFF00 address) (dma_blocks_read address p)
          (lcd_blocks_read address p)
    where
      answer : Option (List ℕ)
      answer = some (0xFF ∷ [])

      either_or :
          (a c d : Bool)
          → (if a || c then answer else if d then answer else none)
            ≡ (if a || c || d then answer else none)
      either_or true c d = refl
      either_or false true d = refl
      either_or false false d = refl

  written_port-guard :
      (address value : ℕ) (p : Ports S)
      → IsMemory address
      → written_port address (value ∷ []) p ≡ (
          if between 0xFEA0 0xFF00 address
            || dma_blocks_write address p
            || lcd_blocks_write address p
          then some p
          else none)
  unfolding written_port write_memory IsMemory
  written_port-guard address value p h =
      let dropped : Bool → Option (Ports S) = λ a.
        if a || dma_blocks_write address p || lcd_blocks_write address p then some p else none in
      let unanswered : Option (Ports S) → Option (Ports S) =
        λ o. elim o [ some q ↦ some q | none ↦ write_memory address 1 p ] in
      ap unanswered (write_port-none address value p h) ∙ ap dropped same_area
    where
      same_area :
          (leb 0xFEA0 address && leb (address - 0xFEA0 + 1) 0x60) ≡ between 0xFEA0 0xFF00 address
      same_area = ground arith

  -- The answers of both handlers to an access of a byte, after the echo of work RAM is resolved.
  abbrev pub Answers : ℕ → ℕ → ℕ → Ports S → Option (List ℕ) → Option (Ports S) → Type 0
  Answers address b value p read written =
      (handle_memory_read address (b ∷ []) p ≡ read)
      × (handle_memory_write address (value ∷ []) p ≡ written)

  -- For an address that is no register once the echo of work RAM is resolved, an access of a byte is
  -- kept back if the address lies behind OAM; or a DMA runs and the address is below high RAM; or the
  -- LCD is on, shows one of its 144 lines, and is at dots 80 to 251 of it with the address in video RAM
  -- or OAM, or before dot 80 with the address in OAM. A read that is kept back gives 0xFF and a write
  -- changes nothing; the others are both left to the store.
  pub reads_and_writes_kept_back :
      (address b value : ℕ) (p : Ports S)
      → IsMemory (normalize_access_address address)
      → (Guarded (normalize_access_address address) p.clock
          × Answers address b value p (some (0xFF ∷ [])) (some p))
        ⊎ ((¬ Guarded (normalize_access_address address) p.clock)
            × Answers address b value p none none)
  unfolding handle_memory_read handle_memory_write
  reads_and_writes_kept_back address b value p h =
      let a = normalize_access_address address in
      let reads = read_port-guard a b p h in
      let writes = written_port-guard a value p h in
      let read_iff = kept_back_read_iff a p h in
      let write_iff = kept_back_write_iff a p h in
      elim (Bool-cases (between 0xFEA0 0xFF00 a || dma_blocks_read a p || lcd_blocks_read a p)) [
        | inl kept ↦ inl (
          read_iff.0 kept,
          (reads ∙ if_of_true _ kept, writes ∙ if_of_true _ (write_iff.1 (read_iff.0 kept))),
        )
        | inr free ↦ inr (
          (λ k. true_not_false _ (read_iff.1 k) free),
          (
            reads ∙ if_of_false _ free,
            writes
                ∙ if_of_false _
                    (not_true _ (λ t. true_not_false _ (read_iff.1 (write_iff.0 t)) free)),
          ),
        )
      ]
    where
      true_not_false : (b : Bool) → b ≡ true → ¬ (b ≡ false)
      true_not_false b t f = ground arith

      not_true : (b : Bool) → ¬ (b ≡ true) → b ≡ false
      not_true b n = ground arith
