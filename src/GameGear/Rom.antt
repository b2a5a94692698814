-- ===== src/GameGear/Rom.antt =====
-- What the ROM area and the save RAM of a Game Gear cartridge answer.
use proto_time.Base.{
  ℕ, zero, suc, ◌∙◌, ◌+◌, ◌*◌, ◌/◌, ◌%◌, ◌≤◌, ◌<◌, ◌≡◌, refl, true, false, not, ◌&&◌, List, [], ◌∷◌,
  some, arith, length, get_or, length-set, get_or-set_self, get_or-set_ne, ltb, ◌==◌, if◌then◌else◌,
  if-split,
}
use proto_time.GameGear.Cartridge.{
  GameGearCartridge, num_banks, page_bank, sram_enabled, sram_offset, loaded, read,
  rom_bank_for_address, store_sram, write_register, write,
}

num_banks_positive : (c : GameGearCartridge) → 0 < num_banks c
unfolding num_banks
num_banks_positive c = ground arith

page_bank_bounds : (c : GameGearCartridge) (page : ℕ) → page_bank c page < num_banks c
unfolding page_bank
page_bank_bounds c page = ground (arith, num_banks_positive c)

-- Where `romBankForAddress` names a bank, it is one of the image, and a read gives the byte of that bank
-- at the address, 0xFF behind the end of the image; the first 1024 bytes are always those of the start
-- of the image.
pub rom_bank_is_read :
    (c : GameGearCartridge) (address bank : ℕ)
    → rom_bank_for_address c address ≡ some bank
    → (bank < num_banks c)
      × (read c address ≡ (
          if ltb address 0x0400
          then get_or c.rom (address % length c.rom) 0xff
          else get_or c.rom (bank * 0x4000 + address % 0x4000) 0xff))
unfolding rom_bank_for_address read
rom_bank_is_read c address bank e =
    ground (arith, page_bank_bounds c (address / 0x4000), num_banks_positive c)

-- The cartridge shows its save RAM from 0x8000 on.
pub record ShowsSram (c : GameGearCartridge) : Type 0 where
  pub has_rom : loaded c ≡ true
  pub enabled : sram_enabled c ≡ true
  pub sram_size : length c.sram ≡ 0x8000

sram_offset_bounds :
    (c : GameGearCartridge) (a : ℕ) → 0x8000 ≤ a → a < 0xc000 → sram_offset c a < 0x8000
unfolding sram_offset
sram_offset_bounds c a h k = ground arith

sram_offset_one :
    (c : GameGearCartridge) (a b : ℕ)
    → 0x8000 ≤ a
    → 0x8000 ≤ b
    → sram_offset c a ≡ sram_offset c b
    → a ≡ b
unfolding sram_offset
sram_offset_one c a b h k e = ground arith

read_sram :
    (c : GameGearCartridge) (a : ℕ)
    → ShowsSram c
    → 0x8000 ≤ a
    → a < 0xc000
    → read c a ≡ get_or c.sram (sram_offset c a) 0xff
unfolding read
read_sram c a s h k = ground (arith, s.has_rom, s.enabled)

write_sram :
    (c : GameGearCartridge) (a v : ℕ)
    → ShowsSram c
    → 0x8000 ≤ a
    → a < 0xc000
    → write c a v ≡ store_sram c (sram_offset c a) v
unfolding write
write_sram c a v s h k = ground (arith, s.enabled)

get_or_default : (xs : List ℕ) (i d e : ℕ) → i < length xs → get_or xs i d ≡ get_or xs i e
get_or_default [] i d e h = absurd (omega arith)
get_or_default (x ∷ xs) zero d e h = refl
get_or_default (x ∷ xs) (suc i) d e h = get_or_default xs i d e (omega arith)

store_sram_get :
    (c : GameGearCartridge) (i j v : ℕ)
    → i < length c.sram
    → j < length c.sram
    → get_or (store_sram c i v).sram j 0xff ≡ (if j == i then v else get_or c.sram j 0xff)
unfolding store_sram
store_sram_get c i j v h k = ground (
  arith,
  get_or_default c.sram i 0 255 h,
  get_or-set_self {A = ℕ} c.sram i v 255,
  get_or-set_ne {A = ℕ} c.sram i j v 255,
)

-- A store changes only the bytes and the dirty flag.
store_sram-ShowsSram :
    (c : GameGearCartridge) (i v : ℕ)
    → ShowsSram c
    → ShowsSram (store_sram c i v) × ((b : ℕ) → sram_offset (store_sram c i v) b ≡ sram_offset c b)
unfolding store_sram sram_offset
store_sram-ShowsSram c i v s =
    if-split
      (λ (d : GameGearCartridge). ShowsSram d × ((b : ℕ) → sram_offset d b ≡ sram_offset c b))
      (ltb i (length c.sram) && not (get_or c.sram i 0 == v))
      (λ _. (
        record {
          has_rom = s.has_rom;
          enabled = s.enabled;
          sram_size = length-set {A = ℕ} c.sram i v ∙ s.sram_size;
        },
        λ b. refl,
      ))
      (λ _. (s, λ b. refl))

-- While a cartridge shows its save RAM, a read in 0x8000-0xBFFF after a write there gives the byte
-- written at the address of the write, and at every other address what it gave before.
pub sram_read-write :
    (c : GameGearCartridge) (address other value : ℕ)
    → ShowsSram c
    → 0x8000 ≤ address
    → address < 0xc000
    → 0x8000 ≤ other
    → other < 0xc000
    → read (write c address value) other ≡ (if other == address then value else read c other)
sram_read-write c a b v s ha ka hb kb =
    let i = sram_offset c a in
    let (shows, same) = store_sram-ShowsSram c i v s in
    rw
      (
        write_sram c a v s ha ka,
        read_sram (store_sram c i v) b shows hb kb,
        same b,
        read_sram c b s hb kb,
      )
      (ground (
        arith,
        store_sram_get c i (sram_offset c b) v,
        s.sram_size,
        sram_offset_bounds c a ha ka,
        sram_offset_bounds c b hb kb,
        sram_offset_one c a b ha hb,
      ))

-- A write that leaves the save clean has changed no byte of save RAM.
pub sram_change_marks_dirty :
    (c : GameGearCartridge) (address value : ℕ)
    → (write c address value).save_dirty ≡ false
    → (write c address value).sram ≡ c.sram
unfolding write write_register store_sram
sram_change_marks_dirty c a v h = ground arith
