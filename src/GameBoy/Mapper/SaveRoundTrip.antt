-- ===== src/GameBoy/Mapper/SaveRoundTrip.antt =====
-- What the mapper's `exportState` and `importState` keep, and what they lose.
use proto_time.Base.{ℕ, ◌≡◌, ◌≢◌, refl, List, [], ◌∷◌, arith, length}
use proto_time.Base.Outcome.{throws}
use proto_time.GameBoy.Cartridge.Header.{parse_cartridge_metadata}
use proto_time.GameBoy.Mapper.{
  GameBoyMapper, new, load, export_state, import_state, unexpected_external_ram,
}

-- The mappers were loaded with the same image, and have RAM of the same size.
pub record SameImage (m n : GameBoyMapper) : Type 0 where
  pub same_mapper : n.mapper_type ≡ m.mapper_type
  pub same_data : n.rom_data ≡ m.rom_data
  pub same_size : n.rom_size ≡ m.rom_size
  pub same_count : n.rom_bank_count ≡ m.rom_bank_count
  pub same_header_ram : n.external_ram_size ≡ m.external_ram_size
  pub same_ram : length n.external_ram ≡ length m.external_ram

length-ne-zero : (xs : List ℕ) → xs ≢ [] → length xs ≢ 0
length-ne-zero [] h = absurd (h refl)
length-ne-zero (x ∷ xs) h = omega arith

-- `load` keeps the RAM of the image before where the new header asks for none. The state exported then
-- still holds that RAM, and a new mapper with the same image refuses it.
pub load_keeps_old_ram :
    (m : GameBoyMapper) (rom : List ℕ)
    → (parse_cartridge_metadata rom).external_ram_size ≡ 0
    → m.external_ram ≢ []
    → ((load m rom).external_ram ≡ m.external_ram)
      × (import_state (load new rom) (export_state (load m rom)) ≡ throws unexpected_external_ram)
unfolding load new export_state import_state
load_keeps_old_ram m rom z h = ground (arith, length-ne-zero m.external_ram)
