-- ===== src/Netplay/Wire.antt =====
-- machine/plugins/input/netplay/LockstepEngine.cpp: the packets on the network, and digests as text.
-- SHA-256 is OpenSSL's: a parameter, which gives the digest of some bytes.
use proto_time.Base.{
  ℕ, zero, suc, ◌+◌, ◌-◌, ◌*◌, ◌/◌, ◌%◌, ◌^◌, Bool, not, ◌&&◌, List, [], ◌∷◌, ◌++◌, Option, none,
  some, length, get_or, take, drop, replicate, leb, between, ◌==◌, if◌then◌else◌,
}
use proto_time.Base.Outcome.{Outcome, done, throws}
use proto_time.Netplay.Types.{
  Digest, Core, game_boy, game_gear, other_core, Packet, valid_packet, same_bytes, nonzero,
}

-- The bytes that `integer` writes, the most significant first, and the number that it reads. Eight
-- bytes are the most that are read, so nothing is shifted out of the 64 bits.
abbrev pub to_bytes : ℕ → ℕ → List ℕ
to_bytes zero value = []
to_bytes (suc n) value = value / 256 ^ n % 256 ∷ to_bytes n value

abbrev pub from_bytes : ℕ → List ℕ → ℕ
from_bytes value [] = value
from_bytes value (b ∷ bytes) = from_bytes (value * 256 + b) bytes

-- The `n` bytes from `at` on, and the array with these bytes from `at` on.
abbrev pub slice : List ℕ → ℕ → ℕ → List ℕ
slice bytes at n = take n (drop at bytes)

abbrev pub put : List ℕ → ℕ → List ℕ → List ℕ
put bytes at value = take at bytes ++ (value ++ drop (at + length value) bytes)

unfoldable pub core_code : Core → ℕ
core_code game_boy = 1
core_code game_gear = 2
core_code (other_core b) = b

unfoldable pub core_of : ℕ → Core
core_of b = if b == 1 then game_boy else if b == 2 then game_gear else other_core b

-- "TNP1"
abbrev pub magic : List ℕ
magic = 84 ∷ 78 ∷ 80 ∷ 49 ∷ []

-- The 164 bytes that the digest covers, at the head of the packet.
unfoldable pub encode_body : Packet → List ℕ
encode_body p =
    let b = p.binding in
    let w0 = put (replicate 196 0) 0 magic in
    let w1 = put w0 4 (to_bytes 2 1) in
    let w2 = put w1 6 (core_code b.core ∷ p.peer ∷ []) in
    let w3 = put w2 8 (to_bytes 8 b.generation) in
    let w4 = put w3 16 (to_bytes 8 p.frame) in
    let w5 = put w4 24 b.session in
    let w6 = put w5 56 b.rom in
    let w7 = put w6 88 b.configuration in
    let w8 = put w7 120 p.before in put w8 152 (p.input ∷ b.ownership_0 ∷ b.ownership_1 ∷ [])

pub data WireError : Type 0 where
  invalid_netplay_packet : WireError
  wrong_digest_length : WireError
  invalid_netplay_digest : WireError
  unsupported_fingerprint : WireError

unfoldable pub encode : (List ℕ → Digest) → Packet → Outcome WireError (List ℕ)
encode sha256 p =
    let bytes = encode_body p in
    if not (valid_packet p)
    then throws invalid_netplay_packet
    else done (put bytes 164 (sha256 (slice bytes 0 164)))

unfoldable pub packet_at : List ℕ → Packet
packet_at bytes = record {
  binding = record {
    core = core_of (get_or bytes 6 0);
    session = slice bytes 24 32;
    rom = slice bytes 56 32;
    configuration = slice bytes 88 32;
    generation = from_bytes 0 (slice bytes 8 8);
    ownership_0 = get_or bytes 153 0;
    ownership_1 = get_or bytes 154 0;
  };
  frame = from_bytes 0 (slice bytes 16 8);
  before = slice bytes 120 32;
  input = get_or bytes 152 0;
  peer = get_or bytes 7 0;
}

unfoldable pub header_ok : List ℕ → Bool
header_ok bytes =
    (length bytes == 196)
    && same_bytes (slice bytes 0 4) magic
    && (from_bytes 0 (slice bytes 4 2) == 1)
    && leb (get_or bytes 7 0) 1

unfoldable pub decode : (List ℕ → Digest) → List ℕ → Option Packet
decode sha256 bytes =
    if not (header_ok bytes)
    then none
    else if nonzero (slice bytes 155 9)
    then none
    else if not (same_bytes (sha256 (slice bytes 0 164)) (slice bytes 164 32))
    then none
    else if not (valid_packet (packet_at bytes))
    then none
    else some (packet_at bytes)

-- One hexadecimal digit, of either case.
unfoldable pub nibble : ℕ → Option ℕ
nibble c =
    if between 48 58 c
    then some (c - 48)
    else if between 97 103 c
    then some (c - 97 + 10)
    else if between 65 71 c
    then some (c - 65 + 10)
    else none

-- The digits in pairs: `digest_from_hex` has counted them.
unfoldable pub hex_bytes : List ℕ → Outcome WireError Digest
hex_bytes [] = done []
hex_bytes (c ∷ []) = done []
hex_bytes (c ∷ d ∷ text) =
    let rest = hex_bytes text in
    elim (nibble c) [
      | none ↦ throws invalid_netplay_digest
      | some hi ↦ elim (nibble d) [
        | none ↦ throws invalid_netplay_digest
        | some lo ↦ elim rest [ throws e ↦ throws e | done bytes ↦ done ((hi * 16 + lo) ∷ bytes) ]
      ]
    ]

unfoldable pub digest_from_hex : List ℕ → Outcome WireError Digest
digest_from_hex text =
    if not (length text == 64) then throws wrong_digest_length else hex_bytes text

unfoldable pub state_digest : (List ℕ → Digest) → List ℕ → Outcome WireError Digest
state_digest sha256 fingerprint =
    if not (length fingerprint == 16) && not (length fingerprint == 64)
    then throws unsupported_fingerprint
    else done (sha256 fingerprint)
