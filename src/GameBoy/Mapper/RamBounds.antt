-- ===== src/GameBoy/Mapper/RamBounds.antt =====
-- Every copy between a span and the mapper's RAM or ROM stays inside its array.
use proto_time.Base.{
  ℕ, ◌+◌, ◌-◌, ◌≤◌, ◌≡◌, ◌≢◌, ◌⊎◌, ◌++◌, take-append, drop-take_append, inl, inr, refl, true, false,
  List, arith, length, take, drop, length-take, length-drop, length-append,
}
use native.Mathlib.Decide.{ℕ_discrete}
use proto_time.GameBoy.Mapper.{GameBoyMapper, copy_in, ram_count, ram_read, ram_write}
use proto_time.GameBoy.Mapper.Valid.{IsValid}

-- A transfer of `ramRead` or `ramWrite` that moves bytes ends inside external RAM, moves no more than
-- the span holds, and happens only while RAM is enabled.
pub ram_count_bounds :
    (m : GameBoyMapper) (address n : ℕ)
    → IsValid m
    → ram_count m address n ≢ 0
    → (0xa000 ≤ address)
      × (address - 0xa000 + ram_count m address n ≤ length m.external_ram)
      × (ram_count m address n ≤ n)
      × (m.ram_enabled ≡ true)
unfolding ram_count
ram_count_bounds m address n v h = ground arith

-- Copying over the middle of an array keeps its length, and the copied bytes are read back.
module _ (array bytes : List ℕ) (start : ℕ) (fits : start + length bytes ≤ length array) where
  length-copy_in : length (copy_in array start bytes) ≡ length array
  length-copy_in = omega (
    arith,
    length-append (take start array) (bytes ++ drop (start + length bytes) array),
    length-append bytes (drop (start + length bytes) array),
    length-take start array,
    length-drop (start + length bytes) array,
  )

  take-drop-copy_in : take (length bytes) (drop start (copy_in array start bytes)) ≡ bytes
  take-drop-copy_in =
      rw (drop-take_append start array (bytes ++ drop (start + length bytes) array) (omega arith))
        (take-append bytes (drop (start + length bytes) array))

module _ (m : GameBoyMapper) (address : ℕ) (value : List ℕ) (v : IsValid m) where
  moved : List ℕ
  moved = take (ram_count m address (length value)) value

  stored : GameBoyMapper
  unfolding moved
  stored = record m { external_ram = copy_in m.external_ram (address - 0xa000) moved; dirty = true }

  length-moved : length moved ≡ ram_count m address (length value)
  unfolding moved ram_count
  length-moved = ground (arith, length-take (ram_count m address (length value)) value)

  moved_fits :
      ram_count m address (length value) ≢ 0
      → address - 0xa000 + length moved ≤ length m.external_ram
  moved_fits h = omega (arith, length-moved, ram_count_bounds m address (length value) v h)

  ram_write-moved :
      ram_count m address (length value) ≢ 0 → ram_write m address value ≡ (stored, true)
  unfolding ram_write stored
  ram_write-moved h = ground arith

  length-stored :
      ram_count m address (length value) ≢ 0 → length stored.external_ram ≡ length m.external_ram
  unfolding stored
  length-stored h = length-copy_in m.external_ram moved (address - 0xa000) (moved_fits h)

  ram_count-stored :
      ram_count m address (length value) ≢ 0
      → ram_count stored address (length value) ≡ length moved
  unfolding ram_count stored
  ram_count-stored h = ground (arith, length-stored h, length-moved)

  ram_read-stored :
      ram_count m address (length value) ≢ 0 → ram_read stored address (length value) ≡ moved
  unfolding ram_read
  ram_read-stored h =
      rw (ram_count-stored h)
        (unfold stored in take-drop-copy_in m.external_ram moved (address - 0xa000) (moved_fits h))

-- A write that returns true keeps the size of external RAM and marks it dirty, and the span is read
-- back at its address as far as it fits; one that returns false changes nothing.
pub ram_read-ram_write :
    (m : GameBoyMapper) (address : ℕ) (value : List ℕ)
    → IsValid m
    → (((ram_write m address value).1 ≡ true)
        × (length (ram_write m address value).0.external_ram ≡ length m.external_ram)
        × ((ram_write m address value).0.dirty ≡ true)
        × (ram_read (ram_write m address value).0 address (length value)
            ≡ take (ram_count m address (length value)) value))
      ⊎ (ram_write m address value ≡ (m, false))
unfolding ram_write moved stored
ram_read-ram_write m address value v = elim (ℕ_discrete (ram_count m address (length value)) 0) [
  | yes e ↦ inr (rw e)
  | no ne ↦
      rw (ram_write-moved m address value v ne)
        (inl (refl, length-stored m address value v ne, refl, ram_read-stored m address value v ne))
]
