-- ===== src/GameBoy/Cpu/Dispatch.antt =====
-- cores/gameboy/gameboy.cpp: from an opcode to what it does, by the table of microcode that
-- `populateOpcodes` fills. A `Step` names the group of opcodes that one registration of the table, or
-- one group of cases of the fast path, serves.
use proto_time.Base.{
  ℕ, Bool, false, not, ◌&&◌, ◌||◌, List, [], ◌∷◌, Option, none, some, ◌==◌, between, if◌then◌else◌,
}

pub data Step : Type 0 where
  nop stop halt ld_r16_imm inc_r16 dec_r16 ld_mem_sp add_hl inc_r8 dec_r8 ld_r8_imm rotate_a daa cpl
        scf ccf jr jr_cond ld_r8_r8 ld_indirect math_r8 math_imm ret_cond ret reti pop_r16 push_r16
        jp_cond jp jp_hl call_cond call rst cb_prefix ldh_store ldh_load ld_c_store ld_c_load add_sp
        ld_hl_sp ld_sp_hl ld_store ld_load di ei invalid :
      Step

abbrev pub one_of : ℕ → List ℕ → Bool
one_of x [] = false
one_of x (y ∷ ys) = (x == y) || one_of x ys

unfoldable pub is_control_flow_opcode : ℕ → Bool
is_control_flow_opcode opcode = one_of opcode (
    0x18 ∷ 0x20 ∷ 0x28 ∷ 0x30 ∷ 0x38 ∷ 0xC0 ∷ 0xC2 ∷ 0xC3 ∷ 0xC4 ∷ 0xC7 ∷ 0xC8 ∷ 0xC9 ∷ 0xCA ∷ 0xCC
    ∷ 0xCD ∷ 0xCF ∷ 0xD0 ∷ 0xD2 ∷ 0xD4 ∷ 0xD7 ∷ 0xD8 ∷ 0xD9 ∷ 0xDA ∷ 0xDC ∷ 0xDF ∷ 0xE7 ∷ 0xE9
    ∷ 0xEF ∷ 0xF7 ∷ 0xFF ∷ [])

unfoldable pub is_undefined_opcode : ℕ → Bool
is_undefined_opcode opcode =
    one_of opcode (0xD3 ∷ 0xDB ∷ 0xDD ∷ 0xE3 ∷ 0xE4 ∷ 0xEB ∷ 0xEC ∷ 0xED ∷ 0xF4 ∷ 0xFC ∷ 0xFD ∷ [])

-- The opcodes of the table's registrations from 0x00 to 0x7F, in the order of the code.
unfoldable pub low_table_step : ℕ → Option Step
low_table_step opcode =
    if opcode == 0x00
    then some nop
    else if opcode == 0x10
    then some stop
    else if opcode == 0x76
    then some halt
    else if one_of opcode (0x01 ∷ 0x11 ∷ 0x21 ∷ 0x31 ∷ [])
    then some ld_r16_imm
    else if one_of opcode (0x03 ∷ 0x13 ∷ 0x23 ∷ 0x33 ∷ [])
    then some inc_r16
    else if one_of opcode (0x0B ∷ 0x1B ∷ 0x2B ∷ 0x3B ∷ [])
    then some dec_r16
    else if opcode == 0x08
    then some ld_mem_sp
    else if one_of opcode (0x09 ∷ 0x19 ∷ 0x29 ∷ 0x39 ∷ [])
    then some add_hl
    else if one_of opcode (0x04 ∷ 0x0C ∷ 0x14 ∷ 0x1C ∷ 0x24 ∷ 0x2C ∷ 0x34 ∷ 0x3C ∷ [])
    then some inc_r8
    else if one_of opcode (0x05 ∷ 0x0D ∷ 0x15 ∷ 0x1D ∷ 0x25 ∷ 0x2D ∷ 0x35 ∷ 0x3D ∷ [])
    then some dec_r8
    else if one_of opcode (0x06 ∷ 0x0E ∷ 0x16 ∷ 0x1E ∷ 0x26 ∷ 0x2E ∷ 0x36 ∷ 0x3E ∷ [])
    then some ld_r8_imm
    else if one_of opcode (0x07 ∷ 0x0F ∷ 0x17 ∷ 0x1F ∷ [])
    then some rotate_a
    else if opcode == 0x27
    then some daa
    else if opcode == 0x2F
    then some cpl
    else if opcode == 0x37
    then some scf
    else if opcode == 0x3F
    then some ccf
    else if opcode == 0x18
    then some jr
    else if one_of opcode (0x20 ∷ 0x28 ∷ 0x30 ∷ 0x38 ∷ [])
    then some jr_cond
    else if between 0x40 0x80 opcode && not (opcode == 0x76)
    then some ld_r8_r8
    else if one_of opcode (0x02 ∷ 0x12 ∷ 0x22 ∷ 0x32 ∷ 0x0A ∷ 0x1A ∷ 0x2A ∷ 0x3A ∷ [])
    then some ld_indirect
    else none

-- The registrations that follow, which are of the other opcodes.
unfoldable pub high_table_step : ℕ → Option Step
high_table_step opcode =
    if between 0x80 0xC0 opcode
    then some math_r8
    else if one_of opcode (0xC6 ∷ 0xCE ∷ 0xD6 ∷ 0xDE ∷ 0xE6 ∷ 0xEE ∷ 0xF6 ∷ 0xFE ∷ [])
    then some math_imm
    else if one_of opcode (0xC0 ∷ 0xC8 ∷ 0xD0 ∷ 0xD8 ∷ [])
    then some ret_cond
    else if opcode == 0xC9
    then some ret
    else if opcode == 0xD9
    then some reti
    else if one_of opcode (0xC1 ∷ 0xD1 ∷ 0xE1 ∷ 0xF1 ∷ [])
    then some pop_r16
    else if one_of opcode (0xC5 ∷ 0xD5 ∷ 0xE5 ∷ 0xF5 ∷ [])
    then some push_r16
    else if one_of opcode (0xC2 ∷ 0xCA ∷ 0xD2 ∷ 0xDA ∷ [])
    then some jp_cond
    else if opcode == 0xC3
    then some jp
    else if opcode == 0xE9
    then some jp_hl
    else if one_of opcode (0xC4 ∷ 0xCC ∷ 0xD4 ∷ 0xDC ∷ [])
    then some call_cond
    else if opcode == 0xCD
    then some call
    else if one_of opcode (0xC7 ∷ 0xCF ∷ 0xD7 ∷ 0xDF ∷ 0xE7 ∷ 0xEF ∷ 0xF7 ∷ 0xFF ∷ [])
    then some rst
    else if opcode == 0xCB
    then some cb_prefix
    else if opcode == 0xE0
    then some ldh_store
    else if opcode == 0xF0
    then some ldh_load
    else if opcode == 0xE2
    then some ld_c_store
    else if opcode == 0xF2
    then some ld_c_load
    else if opcode == 0xE8
    then some add_sp
    else if opcode == 0xF8
    then some ld_hl_sp
    else if opcode == 0xF9
    then some ld_sp_hl
    else if opcode == 0xEA
    then some ld_store
    else if opcode == 0xFA
    then some ld_load
    else if opcode == 0xF3
    then some di
    else if opcode == 0xFB
    then some ei
    else if one_of opcode
        (0xD3 ∷ 0xDB ∷ 0xED ∷ 0xDD ∷ 0xFD ∷ 0xE3 ∷ 0xE4 ∷ 0xF4 ∷ 0xFC ∷ 0xEB ∷ 0xEC ∷ [])
    then some invalid
    else none

-- The entry of the table, which `populateOpcodes` starts empty.
unfoldable pub table_step : ℕ → Option Step
table_step opcode = elim (low_table_step opcode) [ some k ↦ some k | none ↦ high_table_step opcode ]

-- The length an entry of the table is registered with.
unfoldable pub opcode_length : Step → ℕ
opcode_length stop = 2
opcode_length ld_r16_imm = 3
opcode_length ld_mem_sp = 3
opcode_length ld_r8_imm = 2
opcode_length jr = 2
opcode_length jr_cond = 2
opcode_length math_imm = 2
opcode_length jp_cond = 3
opcode_length jp = 3
opcode_length call_cond = 3
opcode_length call = 3
opcode_length cb_prefix = 2
opcode_length ldh_store = 2
opcode_length ldh_load = 2
opcode_length add_sp = 2
opcode_length ld_hl_sp = 2
opcode_length ld_store = 3
opcode_length ld_load = 3
opcode_length _ = 1
