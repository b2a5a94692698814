-- ===== src/Netplay/Sealed.antt =====
-- The 196 bytes of an encoded packet, read field by field.
use proto_time.Base.{
  ℕ, ◌+◌, ◌^◌, ◌<◌, ◌≡◌, refl, ap, ◌∙◌, true, List, [], ◌∷◌, ◌++◌, arith, length, get_or, replicate,
  length-append,
}
use mathlib.Core.List.{append-nil}
use proto_time.Netplay.Types.{
  is_known, Core, game_boy, game_gear, other_core, Packet, valid, valid_packet,
}
use proto_time.Netplay.Entries.{valid_packet-peer}
use proto_time.Netplay.Wire.{
  to_bytes, from_bytes, slice, put, core_code, core_of, magic, encode_body, packet_at, header_ok,
}
use proto_time.Netplay.Layout.{
  parts_total, concat, nth, offset, length-concat, put-Written, pad-Written, field-at, byte-at,
  take-put, start-Written, zeros, Written,
}

from_to_8 : (n : ℕ) → n < 2 ^ 64 → from_bytes 0 (to_bytes 8 n) ≡ n
from_to_8 n h = omega arith

-- The fields have the sizes of their types.
pub record Fits (p : Packet) : Type 0 where
  pub session_size : length p.binding.session ≡ 32
  pub rom_size : length p.binding.rom ≡ 32
  pub configuration_size : length p.binding.configuration ≡ 32
  pub before_size : length p.before ≡ 32
  pub generation_bound : p.binding.generation < 2 ^ 64
  pub frame_bound : p.frame < 2 ^ 64

-- The packet, part by part, up to the digest.
abbrev parts : Packet → List (List ℕ)
parts p =
    magic
    ∷ to_bytes 2 1
    ∷ (core_code p.binding.core ∷ p.peer ∷ [])
    ∷ to_bytes 8 p.binding.generation
    ∷ to_bytes 8 p.frame
    ∷ p.binding.session
    ∷ p.binding.rom
    ∷ p.binding.configuration
    ∷ p.before
    ∷ (p.input ∷ p.binding.ownership_0 ∷ p.binding.ownership_1 ∷ [])
    ∷ zeros 9
    ∷ []

encode_body-Written : (p : Packet) → Fits p → Written (encode_body p) (parts p) 32
unfolding encode_body
encode_body-Written p f =
    let b = p.binding in
    let s0 = put-Written (replicate 196 0) [] magic 0 196 4 start-Written refl refl (omega arith) in
    let s1 = put-Written _ _ (to_bytes 2 1) 4 192 2 s0 refl refl (omega arith) in
    let s2 = put-Written _ _ (core_code b.core ∷ p.peer ∷ []) 6 190 2 s1 refl refl (omega arith) in
    let s3 = put-Written _ _ (to_bytes 8 b.generation) 8 188 8 s2 refl refl (omega arith) in
    let s4 = put-Written _ _ (to_bytes 8 p.frame) 16 180 8 s3 refl refl (omega arith) in
    let s5 = put-Written _ _ b.session 24 172 32 s4 refl f.session_size (omega arith) in
    let s6 =
      put-Written _ _ b.rom 56 140 32 s5 (omega (arith, f.session_size)) f.rom_size (omega arith) in
    let s7 =
      put-Written _ _ b.configuration 88 108 32 s6 (omega (arith, f.session_size, f.rom_size))
        f.configuration_size (omega arith) in
    let s8 =
      put-Written _ _ p.before 120 76 32 s7
        (omega (arith, f.session_size, f.rom_size, f.configuration_size)) f.before_size
        (omega arith) in
    let s9 =
      put-Written _ _ (p.input ∷ b.ownership_0 ∷ b.ownership_1 ∷ []) 152 44 3 s8
        (omega (arith, f.session_size, f.rom_size, f.configuration_size, f.before_size)) refl
        (omega arith) in
    pad-Written _ _ 9 32 s9

core_of-core_code : (c : Core) → is_known c ≡ true → core_of (core_code c) ≡ c
unfolding core_of core_code
core_of-core_code game_boy h = refl
core_of-core_code game_gear h = refl
core_of-core_code (other_core b) h = ground arith

valid_packet-known : (p : Packet) → valid_packet p ≡ true → is_known p.binding.core ≡ true
unfolding valid_packet valid
valid_packet-known p v = ground arith

module _ (p : Packet) (f : Fits p) (d : List ℕ) (s : length d ≡ 32) where
  unfoldable pub sealed : List ℕ
  sealed = put (encode_body p) 164 d

  all : List (List ℕ)
  all = parts p ++ (d ∷ [])

  sealed-concat : sealed ≡ concat all
  unfolding sealed all Written zeros
  sealed-concat =
      let total : parts_total (parts p) ≡ 164 =
        omega (arith, f.session_size, f.rom_size, f.configuration_size, f.before_size) in
      put-Written (encode_body p) (parts p) d 164 32 32 (encode_body-Written p f) total s
        (omega arith)
      ∙ append-nil (concat all)

  abbrev Field : ℕ → ℕ → ℕ → Type 0
  Field k at n = (offset all k ≡ at) × (length (nth all k) ≡ n)

  fields :
      Field 0 0 4
      × Field 1 4 2
      × Field 2 6 2
      × Field 3 8 8
      × Field 4 16 8
      × Field 5 24 32
      × Field 6 56 32
      × Field 7 88 32
      × Field 8 120 32
      × Field 9 152 3
      × Field 10 155 9
      × Field 11 164 32
  unfolding all zeros
  fields = ground (arith, f.session_size, f.rom_size, f.configuration_size, f.before_size, s)

  abbrev Reads : ℕ → ℕ → List ℕ → Type 0
  Reads at n v = slice sealed at n ≡ v

  pub reads :
      Reads 0 4 magic
      × Reads 4 2 (to_bytes 2 1)
      × Reads 8 8 (to_bytes 8 p.binding.generation)
      × Reads 16 8 (to_bytes 8 p.frame)
      × Reads 24 32 p.binding.session
      × Reads 56 32 p.binding.rom
      × Reads 88 32 p.binding.configuration
      × Reads 120 32 p.before
      × Reads 155 9 (zeros 9)
      × Reads 164 32 d
  unfolding all
  reads =
      let at : (k a n : ℕ) → Field k a n → Reads a n (nth all k) =
        λ k a n h. field-at sealed all k a n sealed-concat h.0 h.1 in
      (
        at 0 0 4 fields.0,
        at 1 4 2 fields.1,
        at 3 8 8 fields.3,
        at 4 16 8 fields.4,
        at 5 24 32 fields.5,
        at 6 56 32 fields.6,
        at 7 88 32 fields.7,
        at 8 120 32 fields.8,
        at 10 155 9 fields.10,
        at 11 164 32 fields.11,
      )

  bytes_read :
      (get_or sealed 6 0 ≡ core_code p.binding.core)
      × (get_or sealed 7 0 ≡ p.peer)
      × (get_or sealed 152 0 ≡ p.input)
      × (get_or sealed 153 0 ≡ p.binding.ownership_0)
      × (get_or sealed 154 0 ≡ p.binding.ownership_1)
  unfolding all
  bytes_read =
      let at : (k a n i : ℕ)
          → Field k a n
          → i < n
          → get_or sealed (a + i) 0 ≡ get_or (nth all k) i 0 =
        λ k a n i h l. byte-at sealed all k a n i sealed-concat h.0 h.1 l in
      (
        at 2 6 2 0 fields.2 (omega arith),
        at 2 6 2 1 fields.2 (omega arith),
        at 9 152 3 0 fields.9 (omega arith),
        at 9 152 3 1 fields.9 (omega arith),
        at 9 152 3 2 fields.9 (omega arith),
      )

  pub length-sealed : length sealed ≡ 196
  unfolding all zeros
  length-sealed =
      ap length sealed-concat
      ∙ length-concat all
      ∙ omega (arith, f.session_size, f.rom_size, f.configuration_size, f.before_size, s)

  pub packet_at-sealed : valid_packet p ≡ true → packet_at sealed ≡ p
  unfolding packet_at
  packet_at-sealed v =
      rw
        (
          bytes_read.0,
          bytes_read.1,
          bytes_read.2,
          bytes_read.3,
          bytes_read.4,
          reads.2,
          reads.3,
          reads.4,
          reads.5,
          reads.6,
          reads.7,
          core_of-core_code p.binding.core (valid_packet-known p v),
          from_to_8 p.binding.generation f.generation_bound,
          from_to_8 p.frame f.frame_bound,
        )
        refl

  pub header_ok-sealed : valid_packet p ≡ true → header_ok sealed ≡ true
  unfolding header_ok
  header_ok-sealed v =
      rw (length-sealed, reads.0, reads.1, bytes_read.1) (ground (arith, valid_packet-peer p v))

  pub sealed-head : slice sealed 0 164 ≡ slice (encode_body p) 0 164
  unfolding sealed Written zeros
  sealed-head = take-put (encode_body p) 164 d (
      omega (
        arith,
        ap length (encode_body-Written p f),
        length-append (concat (parts p)) (replicate 32 0),
        length-concat (parts p),
        f.session_size,
        f.rom_size,
        f.configuration_size,
        f.before_size,
      ))
