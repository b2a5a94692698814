-- ===== src/GameBoy/Mapper/Tests.antt =====
-- Runs of the mapper, and each theorem at an input that meets its hypotheses.
use proto_time.Base.{
  ℕ, ◌+◌, ◌-◌, ◌*◌, ◌%◌, ◌<◌, ◌≡◌, ◌≢◌, ◌⊎◌, ◌↔◌, min, refl, inl, ◌∙◌, ap, sym, true, false, List,
  [], ◌∷◌, ◌++◌, arith, length, get_or, replicate, length-replicate, length-append,
}
use proto_time.Base.Outcome.{done, throws}
use proto_time.GameBoy.Cartridge.Header.{
  CartridgeMapper, no_mapper, mbc1, mbc2, mbc3, mbc5, CartridgeMetadata, parse_cartridge_metadata,
  mapper_for_type,
}
use proto_time.GameBoy.Cartridge.State.{Cartridge, power_on}
use proto_time.GameBoy.Cartridge.State
use proto_time.GameBoy.Cartridge.Banking.{fixed_bank_index, switchable_bank_index}
use proto_time.GameBoy.Mapper.{
  GameBoyMapper, new, load, ram_count, export_state, import_state, unexpected_external_ram,
  current_fixed_rom_bank,
}
use proto_time.GameBoy.Mapper.Agreement.{
  run_mapper, run_cartridge, models_agree, mbc5_models_differ, mapper_asked, cartridge_asked,
}
use proto_time.GameBoy.Mapper.SaveRoundTrip.{load_keeps_old_ram}

abbrev mapper : CartridgeMapper → ℕ → ℕ → GameBoyMapper
mapper kind banks low = record {
  mapper_type = kind;
  rom_data = 5 ∷ 6 ∷ [];
  rom_size = 2;
  rom_bank_count = banks;
  external_ram_size = 4;
  external_ram = 1 ∷ 2 ∷ 3 ∷ 4 ∷ [];
  rom_bank_low = low;
  effective_rom_bank = low;
  ram_bank_select = 0;
  ram_bank_mode = 0;
  ram_enabled = true;
  dirty = false;
  has_battery = true;
}

no_ram : (parse_cartridge_metadata (7 ∷ [])).external_ram_size ≡ 0
unfolding parse_cartridge_metadata proto_time.GameBoy.Cartridge.Header.ram_size_for_header
    proto_time.GameBoy.Cartridge.Header.mapper_for_type
no_ram = refl

load_keeps_old_ram_example :
    ((load (mapper mbc1 64 3) (7 ∷ [])).external_ram ≡ 1 ∷ 2 ∷ 3 ∷ 4 ∷ [])
    × (import_state (load new (7 ∷ [])) (export_state (load (mapper mbc1 64 3) (7 ∷ [])))
        ≡ throws unexpected_external_ram)
load_keeps_old_ram_example = load_keeps_old_ram (mapper mbc1 64 3) (7 ∷ []) no_ram (λ e. cc)

some_moved : ram_count (mapper mbc1 64 3) 0xa001 2 ≢ 0
unfolding ram_count
some_moved = omega arith

-- An image of two banks with an MBC1 header.
zeros : ℕ → List ℕ
zeros n = replicate n 0

length-zeros : (n : ℕ) → length (zeros n) ≡ n
unfolding zeros
length-zeros n = length-replicate n 0

image : List ℕ
image = zeros 0x147 ++ 0x01 ∷ zeros (0x8000 - 0x148)

length-image : length image ≡ 2 * 0x4000
unfolding image
length-image =
    omega
      (arith, length-append (zeros 0x147) (1 ∷ zeros 32440), length-zeros 0x147, length-zeros 32440)

get_or-append_length : (xs ys : List ℕ) (d : ℕ) → get_or (xs ++ ys) (length xs) d ≡ get_or ys 0 d
get_or-append_length [] ys d = refl
get_or-append_length (x ∷ xs) ys d = get_or-append_length xs ys d

image_type : get_or image 0x147 0 ≡ 1
unfolding image
image_type =
    ap (λ n. get_or (zeros 0x147 ++ 0x01 ∷ zeros 32440) n 0) (sym (length-zeros 0x147))
    ∙ get_or-append_length (zeros 0x147) (0x01 ∷ zeros 32440) 0

image_mapper : (parse_cartridge_metadata image).mapper ≡ mbc1
unfolding parse_cartridge_metadata mapper_for_type
image_mapper = rw image_type refl

models_agree_example :
    (c : Cartridge) × (State.load image ≡ done c)
    × ((run_mapper (load new image) ((0x2000, 1) ∷ [])).effective_rom_bank
        ≡ switchable_bank_index (run_cartridge c ((0x2000, 1) ∷ [])))
    × (current_fixed_rom_bank (run_mapper (load new image) ((0x2000, 1) ∷ []))
        ≡ fixed_bank_index (run_cartridge c ((0x2000, 1) ∷ [])))
    × ((run_mapper (load new image) ((0x2000, 1) ∷ [])).ram_enabled
        ≡ (run_cartridge c ((0x2000, 1) ∷ [])).ram_enabled)
models_agree_example =
    models_agree new image 2 ((0x2000, 1) ∷ []) length-image (omega arith) (inl image_mapper)
      (omega arith)

abbrev mbc5_metadata : CartridgeMetadata
mbc5_metadata = record {
  title = [];
  mapper = mbc5;
  cartridge_type = 0x19;
  rom_size_code = 0;
  ram_size_code = 0;
  rom_bank_count = 4;
  external_ram_size = 0;
  has_battery = false;
  has_rtc = false;
}

abbrev mbc5_cartridge : Cartridge
mbc5_cartridge = record {
  metadata = mbc5_metadata;
  rom = 5 ∷ 6 ∷ [];
  external_ram = [];
  current_rom_bank = 6;
  current_ram_bank = 0;
  ram_enabled = false;
  selected_rtc_register = 0xff;
  rtc_latched = false;
  rtc_registers = 0 ∷ 0 ∷ 0 ∷ 0 ∷ 0 ∷ [];
  mbc1_low_bank_bits = 1;
  mbc1_upper_bank_bits = 0;
  mbc1_banking_mode_select = false;
  save_dirty = false;
}

mbc5_models_differ_example :
    let shown = (mapper_asked 6 (mapper mbc5 4 1)).effective_rom_bank in
    let routed = switchable_bank_index (cartridge_asked 6 mbc5_cartridge) in
    (shown ≡ min 6 (4 - 1)) × (routed ≡ 6 % 4) × ((shown ≡ routed) ↔ ((6 < 4) ⊎ ((6 + 1) % 4 ≡ 0)))
mbc5_models_differ_example =
    mbc5_models_differ (mapper mbc5 4 1) mbc5_cartridge 6 refl refl refl (omega arith) (omega arith)

-- Of four banks, the mapper shows the last for bank 6 and the cartridge the one with number 2.
banks_of_6 :
    (mapper_asked 6 (mapper mbc5 4 1)).effective_rom_bank
    ≢ switchable_bank_index (cartridge_asked 6 mbc5_cartridge)
banks_of_6 same = ground (arith, mbc5_models_differ_example)
