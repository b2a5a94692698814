-- ===== src/GameBoy/Cpu/Switch.antt =====
-- cores/gameboy/gameboy.cpp: the cases of `tryFastExecuteBytes`, and the opcodes that it supports.
use proto_time.Base.{
  ℕ, Bool, true, not, ◌&&◌, ◌||◌, [], ◌∷◌, Option, none, some, ◌==◌, between, if◌then◌else◌,
}
use proto_time.GameBoy.Cpu.Dispatch.{
  Step, one_of, nop, stop, halt, ld_r16_imm, inc_r16, dec_r16, ld_mem_sp, add_hl, inc_r8, dec_r8,
  ld_r8_imm, rotate_a, daa, cpl, scf, ccf, jr, jr_cond, ld_r8_r8, ld_indirect, math_r8, math_imm,
  ret_cond, ret, reti, pop_r16, push_r16, jp_cond, jp, jp_hl, call_cond, call, rst, ldh_store,
  ldh_load, ld_c_store, ld_c_load, add_sp, ld_hl_sp, ld_sp_hl, ld_store, ld_load, di, ei,
}
use Prim.Native.Nat.{bit_and}

unfoldable pub supports_fast_opcode : ℕ → Bool
supports_fast_opcode opcode =
    if between 0x40 0x80 opcode || between 0x80 0xC0 opcode
    then true
    else if (bit_and opcode 0xC7 == 0x04)
        || (bit_and opcode 0xC7 == 0x05)
        || (bit_and opcode 0xC7 == 0x06)
    then true
    else one_of opcode (
        0x00 ∷ 0x01 ∷ 0x02 ∷ 0x03 ∷ 0x07 ∷ 0x08 ∷ 0x09 ∷ 0x0A ∷ 0x0B ∷ 0x0F ∷ 0x10 ∷ 0x11 ∷ 0x12
        ∷ 0x13 ∷ 0x17 ∷ 0x18 ∷ 0x19 ∷ 0x1A ∷ 0x1B ∷ 0x1F ∷ 0x20 ∷ 0x21 ∷ 0x22 ∷ 0x23 ∷ 0x27 ∷ 0x28
        ∷ 0x29 ∷ 0x2A ∷ 0x2B ∷ 0x2F ∷ 0x30 ∷ 0x31 ∷ 0x32 ∷ 0x33 ∷ 0x37 ∷ 0x38 ∷ 0x39 ∷ 0x3A ∷ 0x3B
        ∷ 0x3F ∷ 0xC0 ∷ 0xC1 ∷ 0xC2 ∷ 0xC3 ∷ 0xC4 ∷ 0xC5 ∷ 0xC6 ∷ 0xC7 ∷ 0xC8 ∷ 0xC9 ∷ 0xCA ∷ 0xCC
        ∷ 0xCD ∷ 0xCE ∷ 0xCF ∷ 0xD0 ∷ 0xD1 ∷ 0xD2 ∷ 0xD4 ∷ 0xD5 ∷ 0xD6 ∷ 0xD7 ∷ 0xD8 ∷ 0xD9 ∷ 0xDA
        ∷ 0xDC ∷ 0xDE ∷ 0xDF ∷ 0xE0 ∷ 0xE1 ∷ 0xE2 ∷ 0xE5 ∷ 0xE6 ∷ 0xE7 ∷ 0xE8 ∷ 0xE9 ∷ 0xEA ∷ 0xEE
        ∷ 0xEF ∷ 0xF0 ∷ 0xF1 ∷ 0xF2 ∷ 0xF3 ∷ 0xF5 ∷ 0xF6 ∷ 0xF7 ∷ 0xF8 ∷ 0xF9 ∷ 0xFA ∷ 0xFB ∷ 0xFE
        ∷ 0xFF ∷ [])

-- The cases of the fast path's `switch`.
unfoldable pub low_switch : ℕ → Option Step
low_switch opcode =
    if opcode == 0x00
    then some nop
    else if opcode == 0x10
    then some stop
    else if opcode == 0x76
    then some halt
    else if one_of opcode (0x01 ∷ 0x11 ∷ 0x21 ∷ 0x31 ∷ [])
    then some ld_r16_imm
    else if one_of opcode (0x03 ∷ 0x13 ∷ 0x23 ∷ 0x33 ∷ [])
    then some inc_r16
    else if one_of opcode (0x0B ∷ 0x1B ∷ 0x2B ∷ 0x3B ∷ [])
    then some dec_r16
    else if opcode == 0x08
    then some ld_mem_sp
    else if one_of opcode (0x09 ∷ 0x19 ∷ 0x29 ∷ 0x39 ∷ [])
    then some add_hl
    else if opcode == 0x18
    then some jr
    else if one_of opcode (0x20 ∷ 0x28 ∷ 0x30 ∷ 0x38 ∷ [])
    then some jr_cond
    else if opcode == 0xC3
    then some jp
    else if one_of opcode (0xC2 ∷ 0xCA ∷ 0xD2 ∷ 0xDA ∷ [])
    then some jp_cond
    else if opcode == 0xC9
    then some ret
    else if opcode == 0xD9
    then some reti
    else if one_of opcode (0xC0 ∷ 0xC8 ∷ 0xD0 ∷ 0xD8 ∷ [])
    then some ret_cond
    else if opcode == 0xCD
    then some call
    else if one_of opcode (0xC4 ∷ 0xCC ∷ 0xD4 ∷ 0xDC ∷ [])
    then some call_cond
    else if one_of opcode (0xC1 ∷ 0xD1 ∷ 0xE1 ∷ 0xF1 ∷ [])
    then some pop_r16
    else if one_of opcode (0xC5 ∷ 0xD5 ∷ 0xE5 ∷ 0xF5 ∷ [])
    then some push_r16
    else none

unfoldable pub high_switch : ℕ → Option Step
high_switch opcode =
    if opcode == 0xE9
    then some jp_hl
    else if opcode == 0xE0
    then some ldh_store
    else if opcode == 0xF0
    then some ldh_load
    else if opcode == 0xE2
    then some ld_c_store
    else if opcode == 0xF2
    then some ld_c_load
    else if opcode == 0xE8
    then some add_sp
    else if opcode == 0xF8
    then some ld_hl_sp
    else if opcode == 0xF9
    then some ld_sp_hl
    else if opcode == 0xEA
    then some ld_store
    else if opcode == 0xFA
    then some ld_load
    else if opcode == 0xF3
    then some di
    else if opcode == 0xFB
    then some ei
    else if one_of opcode (0x07 ∷ 0x0F ∷ 0x17 ∷ 0x1F ∷ [])
    then some rotate_a
    else if opcode == 0x27
    then some daa
    else if opcode == 0x2F
    then some cpl
    else if opcode == 0x37
    then some scf
    else if opcode == 0x3F
    then some ccf
    else if one_of opcode (0xC6 ∷ 0xCE ∷ 0xD6 ∷ 0xDE ∷ 0xE6 ∷ 0xEE ∷ 0xF6 ∷ 0xFE ∷ [])
    then some math_imm
    else if one_of opcode (0xC7 ∷ 0xCF ∷ 0xD7 ∷ 0xDF ∷ 0xE7 ∷ 0xEF ∷ 0xF7 ∷ 0xFF ∷ [])
    then some rst
    else none

-- What the fast path tries once the `switch` has fallen to its default.
unfoldable pub after_switch : ℕ → Option Step
after_switch opcode =
    if bit_and opcode 0xC7 == 0x04
    then some inc_r8
    else if bit_and opcode 0xC7 == 0x05
    then some dec_r8
    else if bit_and opcode 0xC7 == 0x06
    then some ld_r8_imm
    else if one_of opcode (0x02 ∷ 0x12 ∷ 0x22 ∷ 0x32 ∷ 0x0A ∷ 0x1A ∷ 0x2A ∷ 0x3A ∷ [])
    then some ld_indirect
    else none

unfoldable pub switch_step : ℕ → Option Step
switch_step opcode = elim (low_switch opcode) [
  | some k ↦ some k
  | none ↦ elim (high_switch opcode) [ some k ↦ some k | none ↦ after_switch opcode ]
]

-- The case of the fast path that serves an opcode, when one does.
unfoldable pub fast_step_of : ℕ → Option Step
fast_step_of opcode =
    if between 0x40 0x80 opcode && not (opcode == 0x76)
    then some ld_r8_r8
    else if between 0x80 0xC0 opcode
    then some math_r8
    else switch_step opcode

-- The bytes that a case hands to `finalizeFast`.
unfoldable pub fast_byte_count : Step → ℕ
fast_byte_count stop = 2
fast_byte_count ld_r16_imm = 3
fast_byte_count ld_mem_sp = 3
fast_byte_count jr = 2
fast_byte_count jr_cond = 2
fast_byte_count jp = 3
fast_byte_count jp_cond = 3
fast_byte_count call = 3
fast_byte_count call_cond = 3
fast_byte_count ldh_store = 2
fast_byte_count ldh_load = 2
fast_byte_count add_sp = 2
fast_byte_count ld_hl_sp = 2
fast_byte_count ld_store = 3
fast_byte_count ld_load = 3
fast_byte_count math_imm = 2
fast_byte_count ld_r8_imm = 2
fast_byte_count _ = 1
