-- ===== src/GameBoy/MemoryMap/Save.antt =====
-- `GameBoyMemoryMap::exportState` and `importState`.
use proto_time.Base.{
  ℕ, ◌+◌, ◌-◌, ◌*◌, ◌/◌, ◌%◌, Bool, true, false, not, ◌&&◌, ◌||◌, List, [], ◌∷◌, ◌++◌, length, take,
  drop, ltb, ◌==◌, if◌then◌else◌,
}
use proto_time.Base.Outcome.{Outcome, done, throws, ◌>>=◌}
use proto_time.Machine.Checksum.{crc32}
use proto_time.GameBoy.MemoryMap.State.{MemoryMap, RomWindow}

pub data StateError : Type 0 where
  too_short : StateError
  checksum_mismatch : StateError
  is_truncated : StateError
  invalid_flag : StateError
  section_too_large : StateError
  boot_rom_missing : StateError
  window_size_wrong : StateError
  trailing_data : StateError

-- A number of 32 bits, the low byte first.
abbrev pub u32_bytes : ℕ → List ℕ
u32_bytes value =
    value % 256 ∷ value / 256 % 256 ∷ value / 65536 % 256 ∷ value / 16777216 % 256 ∷ []

abbrev pub flag_byte : Bool → ℕ
flag_byte true = 1
flag_byte false = 0

-- A flag, a size and the bytes: the boot ROM and either ROM window.
abbrev pub section_bytes : Bool → List ℕ → List ℕ → List ℕ
section_bytes active bytes rest = flag_byte active ∷ (u32_bytes (length bytes) ++ (bytes ++ rest))

unfoldable pub export_payload : MemoryMap → List ℕ
export_payload m = section_bytes m.boot_rom_active m.boot_rom (
    section_bytes m.rom_window_0000.active m.rom_window_0000.bytes (
      section_bytes m.rom_window_4000.active m.rom_window_4000.bytes
        (m.vram ++ (m.wram ++ (m.oam ++ (m.io_regs ++ m.hram))))))

unfoldable pub export_state : MemoryMap → List ℕ
export_state m = export_payload m ++ u32_bytes (crc32 (export_payload m))

-- The readers take the bytes from `pos` to the end of the payload, and give back those they leave.
unfoldable pub read_flag : List ℕ → Outcome StateError (Bool × List ℕ)
read_flag [] = throws is_truncated
read_flag (value ∷ rest) =
    if ltb 1 value then throws invalid_flag else done (not (value == 0), rest)

unfoldable pub read_u32 : List ℕ → Outcome StateError (ℕ × List ℕ)
read_u32 (a ∷ b ∷ c ∷ d ∷ rest) = done (a + b * 256 + c * 65536 + d * 16777216, rest)
read_u32 _ = throws is_truncated

unfoldable pub read_array : List ℕ → ℕ → Outcome StateError (List ℕ × List ℕ)
read_array bytes size =
    if ltb (length bytes) size then throws is_truncated else done (take size bytes, drop size bytes)

unfoldable pub read_vector : List ℕ → ℕ → Outcome StateError (List ℕ × List ℕ)
read_vector bytes max_size = read_u32 bytes >>= λ r.
    if ltb max_size r.0 then throws section_too_large else read_array r.1 r.0

-- The flag and the bytes of a section, and what is behind them.
unfoldable pub read_section : List ℕ → ℕ → Outcome StateError (Bool × List ℕ × List ℕ)
read_section bytes max_size =
    read_flag bytes >>= λ f. read_vector f.1 max_size >>= λ v. done (f.0, v.0, v.1)

abbrev pub window_of : Bool → List ℕ → RomWindow
window_of active bytes = record { bytes = if active then bytes else []; active = active }

-- The map that takes over the boot ROM, the windows and the five arrays.
unfoldable pub import_arrays :
    MemoryMap → Bool → List ℕ → RomWindow → RomWindow → List ℕ → Outcome StateError MemoryMap
import_arrays m boot_active boot_rom window_0000 window_4000 bytes =
    read_array bytes (length m.vram) >>= λ vram. read_array vram.1 (length m.wram) >>= λ wram.
    read_array wram.1 (length m.oam) >>= λ oam. read_array oam.1 (length m.io_regs) >>= λ io_regs.
    read_array io_regs.1 (length m.hram) >>= λ hram.
    if not (length hram.1 == 0)
    then throws trailing_data
    else done (record m {
      vram = vram.0;
      wram = wram.0;
      oam = oam.0;
      io_regs = io_regs.0;
      hram = hram.0;
      boot_rom = boot_rom;
      boot_rom_active = boot_active;
      rom_window_0000 = window_0000;
      rom_window_4000 = window_4000;
    })

-- A window that is shown has its full size.
abbrev pub window_wrong : Bool → List ℕ → Bool
window_wrong active bytes = active && not (length bytes == 0x4000)

unfoldable pub import_windows : MemoryMap → Bool → List ℕ → List ℕ → Outcome StateError MemoryMap
import_windows m boot_active boot_rom bytes = read_section bytes 0x4000 >>= λ w.
    read_section w.2 0x4000 >>= λ x.
    if window_wrong w.0 w.1 || window_wrong x.0 x.1
    then throws window_size_wrong
    else import_arrays m boot_active boot_rom (window_of w.0 w.1) (window_of x.0 x.1) x.2

unfoldable pub import_payload : MemoryMap → List ℕ → Outcome StateError MemoryMap
import_payload m payload = read_section payload 0x100 >>= λ b.
    if b.0 && (length b.1 == 0) then throws boot_rom_missing else import_windows m b.0 b.1 b.2

unfoldable pub import_state : MemoryMap → List ℕ → Outcome StateError MemoryMap
import_state m state =
    let fixed = length m.vram + length m.wram + length m.oam + length m.io_regs + length m.hram in
    let crc_pos = length state - 4 in
    if ltb (length state) (4 + 15 + fixed)
    then throws too_short
    else (read_u32 (drop crc_pos state) >>= λ stored.
        if not (stored.0 == crc32 (take crc_pos state))
        then throws checksum_mismatch
        else import_payload m (take crc_pos state))
