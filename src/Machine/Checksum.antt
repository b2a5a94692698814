-- ===== src/Machine/Checksum.antt =====
-- machine/SaveState.cpp: the checksum of saved states.
use Prim.Native.Nat.{bit_xor}
use proto_time.Base.{ℕ, zero, suc, ◌/◌, ◌%◌, ◌^◌, ◌<◌, List, [], ◌∷◌, arith, ◌==◌, if◌then◌else◌}

-- The inner loop, `n` times.
unfoldable pub crc_bits : ℕ → ℕ → ℕ
crc_bits zero crc = crc
crc_bits (suc n) crc = crc_bits n (if crc % 2 == 1 then bit_xor (crc / 2) 0xedb88320 else crc / 2)

unfoldable pub crc_from : ℕ → List ℕ → ℕ
crc_from crc [] = crc
crc_from crc (byte ∷ bytes) = crc_from (crc_bits 8 (bit_xor crc byte)) bytes

unfoldable pub crc32 : List ℕ → ℕ
crc32 bytes = bit_xor (crc_from 0xffffffff bytes) 0xffffffff % 2 ^ 32

pub crc32_bound : (bytes : List ℕ) → crc32 bytes < 2 ^ 32
unfolding crc32
crc32_bound bytes = omega arith
