-- ===== src/GameBoy/MemoryMap/Dma.antt =====
-- OAM DMA copies 160 bytes, one after the other, also where the source is OAM itself.
use proto_time.Base.{
  ℕ, zero, suc, ◌+◌, ◌*◌, ◌%◌, ◌^◌, ◌≤◌, ◌<◌, ◌≡◌, ◌&&◌, List, arith, length, set, get_or,
  length-set, ap, get_or-set_self, get_or-set_ne, leb, ltb, if◌then◌else◌,
}
use native.Mathlib.Nat.{mod-eq_of_lt}
use proto_time.GameBoy.MemoryMap.State.{MemoryMap, HasSizes, resolve_echo_address}
use proto_time.GameBoy.MemoryMap.Access.{
  read_raw, read_external, dma_from, perform_oam_dma, write_io, write_raw, write_high, write_other,
  handle_special_write, write,
}

-- A byte stored in OAM is not seen by a read of the source behind it.
read-behind :
    (m : MemoryMap) (high i j v : ℕ)
    → i < j
    → j < 0xa0
    → read_raw (record m { oam = set m.oam i v }) (high * 256 + j) ≡ read_raw m (high * 256 + j)
unfolding read_raw read_external
read-behind m high i j v h k = ground (arith, get_or-set_ne {A = ℕ} m.oam i j v 255)

dma_from_lem :
    (m : MemoryMap) (high i n k : ℕ)
    → high < 256
    → i + n ≤ 0xa0
    → length m.oam ≡ 0xa0
    → k < 0xa0
    → get_or (dma_from m (high * 256) i n).oam k 0xff
      ≡ (if leb i k && ltb k (i + n) then read_raw m (high * 256 + k) else get_or m.oam k 0xff)
unfolding dma_from
dma_from_lem m high i zero k h b s l = ground arith
dma_from_lem m high i (suc n) k h b s l =
    let byte = read_raw m ((high * 256 + i) % 2 ^ 16) in
    let stored : MemoryMap = record m { oam = set m.oam i byte } in
    ground (
      arith,
      dma_from_lem stored high (i + 1) n k h (omega arith) (omega (arith, length-set m.oam i byte))
          l,
      read-behind m high i k byte,
      get_or-set_self {A = ℕ} m.oam i byte 255,
      get_or-set_ne {A = ℕ} m.oam i k byte 255,
      ap (read_raw m) (mod-eq_of_lt {n = high * 256 + i} {m = 65536} (omega arith)),
    )

read_raw-io_regs :
    (m : MemoryMap) (regs : List ℕ) (a : ℕ)
    → a < 0xff00
    → read_raw (record m { io_regs = regs }) a ≡ read_raw m a
unfolding read_raw read_external
read_raw-io_regs m regs a h = ground arith

write-dma :
    (m : MemoryMap) (page : ℕ)
    → page < 0xff
    → write m 0xff46 page
      ≡ dma_from (record m { io_regs = set m.io_regs 0x46 page }) (page * 256) 0 (length m.oam)
unfolding write handle_special_write write_other resolve_echo_address write_raw write_high write_io
    perform_oam_dma
write-dma m page h = ground arith

-- A write of a page number below 0xFF to the DMA register leaves in OAM the 160 bytes that the bus read
-- from that page before the write, in order, whichever region the page is in.
pub oam_dma :
    (m : MemoryMap) (page i : ℕ)
    → HasSizes m
    → page < 0xff
    → i < 0xa0
    → get_or (write m 0xff46 page).oam i 0xff ≡ read_raw m (page * 256 + i)
oam_dma m page i s h k =
    let regs = set m.io_regs 0x46 page in
    let stored : MemoryMap = record m { io_regs = regs } in
    rw (write-dma m page h, s.oam_size)
      (ground (
        arith,
        dma_from_lem stored page 0 0xa0 i (omega arith) (omega arith) s.oam_size k,
        read_raw-io_regs m regs (page * 256 + i) (omega arith),
      ))
