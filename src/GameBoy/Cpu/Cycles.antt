-- ===== src/GameBoy/Cpu/Cycles.antt =====
-- cores/gameboy/gameboy.cpp: how many cycles an instruction takes, when it does not branch and
-- when it does.
use proto_time.Base.{ℕ, List, [], ◌∷◌, ◌++◌, get_or}

abbrev pub OpcodeCycles : Type 0
OpcodeCycles = ℕ × ℕ

abbrev pub not_taken : OpcodeCycles → ℕ
not_taken c = c.0

abbrev pub taken : OpcodeCycles → ℕ
taken c = c.1

-- One line of a table, which has the cycles of eight opcodes.
abbrev row :
    OpcodeCycles
    → OpcodeCycles
    → OpcodeCycles
    → OpcodeCycles
    → OpcodeCycles
    → OpcodeCycles
    → OpcodeCycles
    → OpcodeCycles
    → List OpcodeCycles
row a b c d e f g h = a ∷ b ∷ c ∷ d ∷ e ∷ f ∷ g ∷ h ∷ []

unfoldable pub unprefixed_opcode_cycles : List OpcodeCycles
unprefixed_opcode_cycles =
    row (4, 4) (12, 12) (8, 8) (8, 8) (4, 4) (4, 4) (8, 8) (4, 4)
    ++ row (20, 20) (8, 8) (8, 8) (8, 8) (4, 4) (4, 4) (8, 8) (4, 4)
    ++ row (4, 4) (12, 12) (8, 8) (8, 8) (4, 4) (4, 4) (8, 8) (4, 4)
    ++ row (12, 12) (8, 8) (8, 8) (8, 8) (4, 4) (4, 4) (8, 8) (4, 4)
    ++ row (8, 12) (12, 12) (8, 8) (8, 8) (4, 4) (4, 4) (8, 8) (4, 4)
    ++ row (8, 12) (8, 8) (8, 8) (8, 8) (4, 4) (4, 4) (8, 8) (4, 4)
    ++ row (8, 12) (12, 12) (8, 8) (8, 8) (12, 12) (12, 12) (12, 12) (4, 4)
    ++ row (8, 12) (8, 8) (8, 8) (8, 8) (4, 4) (4, 4) (8, 8) (4, 4)
    ++ row (4, 4) (4, 4) (4, 4) (4, 4) (4, 4) (4, 4) (8, 8) (4, 4)
    ++ row (4, 4) (4, 4) (4, 4) (4, 4) (4, 4) (4, 4) (8, 8) (4, 4)
    ++ row (4, 4) (4, 4) (4, 4) (4, 4) (4, 4) (4, 4) (8, 8) (4, 4)
    ++ row (4, 4) (4, 4) (4, 4) (4, 4) (4, 4) (4, 4) (8, 8) (4, 4)
    ++ row (4, 4) (4, 4) (4, 4) (4, 4) (4, 4) (4, 4) (8, 8) (4, 4)
    ++ row (4, 4) (4, 4) (4, 4) (4, 4) (4, 4) (4, 4) (8, 8) (4, 4)
    ++ row (8, 8) (8, 8) (8, 8) (8, 8) (8, 8) (8, 8) (4, 4) (8, 8)
    ++ row (4, 4) (4, 4) (4, 4) (4, 4) (4, 4) (4, 4) (8, 8) (4, 4)
    ++ row (4, 4) (4, 4) (4, 4) (4, 4) (4, 4) (4, 4) (8, 8) (4, 4)
    ++ row (4, 4) (4, 4) (4, 4) (4, 4) (4, 4) (4, 4) (8, 8) (4, 4)
    ++ row (4, 4) (4, 4) (4, 4) (4, 4) (4, 4) (4, 4) (8, 8) (4, 4)
    ++ row (4, 4) (4, 4) (4, 4) (4, 4) (4, 4) (4, 4) (8, 8) (4, 4)
    ++ row (4, 4) (4, 4) (4, 4) (4, 4) (4, 4) (4, 4) (8, 8) (4, 4)
    ++ row (4, 4) (4, 4) (4, 4) (4, 4) (4, 4) (4, 4) (8, 8) (4, 4)
    ++ row (4, 4) (4, 4) (4, 4) (4, 4) (4, 4) (4, 4) (8, 8) (4, 4)
    ++ row (4, 4) (4, 4) (4, 4) (4, 4) (4, 4) (4, 4) (8, 8) (4, 4)
    ++ row (8, 20) (12, 12) (12, 16) (16, 16) (12, 24) (16, 16) (8, 8) (16, 16)
    ++ row (8, 20) (16, 16) (12, 16) (4, 4) (12, 24) (24, 24) (8, 8) (16, 16)
    ++ row (8, 20) (12, 12) (12, 16) (4, 4) (12, 24) (16, 16) (8, 8) (16, 16)
    ++ row (8, 20) (16, 16) (12, 16) (4, 4) (12, 24) (4, 4) (8, 8) (16, 16)
    ++ row (12, 12) (12, 12) (8, 8) (4, 4) (4, 4) (16, 16) (8, 8) (16, 16)
    ++ row (16, 16) (4, 4) (16, 16) (4, 4) (4, 4) (4, 4) (8, 8) (16, 16)
    ++ row (12, 12) (12, 12) (8, 8) (4, 4) (4, 4) (16, 16) (8, 8) (16, 16)
    ++ row (12, 12) (8, 8) (16, 16) (4, 4) (4, 4) (4, 4) (8, 8) (16, 16)

unfoldable pub cb_prefixed_opcode_cycles : List OpcodeCycles
cb_prefixed_opcode_cycles =
    row (8, 8) (8, 8) (8, 8) (8, 8) (8, 8) (8, 8) (16, 16) (8, 8)
    ++ row (8, 8) (8, 8) (8, 8) (8, 8) (8, 8) (8, 8) (16, 16) (8, 8)
    ++ row (8, 8) (8, 8) (8, 8) (8, 8) (8, 8) (8, 8) (16, 16) (8, 8)
    ++ row (8, 8) (8, 8) (8, 8) (8, 8) (8, 8) (8, 8) (16, 16) (8, 8)
    ++ row (8, 8) (8, 8) (8, 8) (8, 8) (8, 8) (8, 8) (16, 16) (8, 8)
    ++ row (8, 8) (8, 8) (8, 8) (8, 8) (8, 8) (8, 8) (16, 16) (8, 8)
    ++ row (8, 8) (8, 8) (8, 8) (8, 8) (8, 8) (8, 8) (16, 16) (8, 8)
    ++ row (8, 8) (8, 8) (8, 8) (8, 8) (8, 8) (8, 8) (16, 16) (8, 8)
    ++ row (8, 8) (8, 8) (8, 8) (8, 8) (8, 8) (8, 8) (12, 12) (8, 8)
    ++ row (8, 8) (8, 8) (8, 8) (8, 8) (8, 8) (8, 8) (12, 12) (8, 8)
    ++ row (8, 8) (8, 8) (8, 8) (8, 8) (8, 8) (8, 8) (12, 12) (8, 8)
    ++ row (8, 8) (8, 8) (8, 8) (8, 8) (8, 8) (8, 8) (12, 12) (8, 8)
    ++ row (8, 8) (8, 8) (8, 8) (8, 8) (8, 8) (8, 8) (12, 12) (8, 8)
    ++ row (8, 8) (8, 8) (8, 8) (8, 8) (8, 8) (8, 8) (12, 12) (8, 8)
    ++ row (8, 8) (8, 8) (8, 8) (8, 8) (8, 8) (8, 8) (12, 12) (8, 8)
    ++ row (8, 8) (8, 8) (8, 8) (8, 8) (8, 8) (8, 8) (12, 12) (8, 8)
    ++ row (8, 8) (8, 8) (8, 8) (8, 8) (8, 8) (8, 8) (16, 16) (8, 8)
    ++ row (8, 8) (8, 8) (8, 8) (8, 8) (8, 8) (8, 8) (16, 16) (8, 8)
    ++ row (8, 8) (8, 8) (8, 8) (8, 8) (8, 8) (8, 8) (16, 16) (8, 8)
    ++ row (8, 8) (8, 8) (8, 8) (8, 8) (8, 8) (8, 8) (16, 16) (8, 8)
    ++ row (8, 8) (8, 8) (8, 8) (8, 8) (8, 8) (8, 8) (16, 16) (8, 8)
    ++ row (8, 8) (8, 8) (8, 8) (8, 8) (8, 8) (8, 8) (16, 16) (8, 8)
    ++ row (8, 8) (8, 8) (8, 8) (8, 8) (8, 8) (8, 8) (16, 16) (8, 8)
    ++ row (8, 8) (8, 8) (8, 8) (8, 8) (8, 8) (8, 8) (16, 16) (8, 8)
    ++ row (8, 8) (8, 8) (8, 8) (8, 8) (8, 8) (8, 8) (16, 16) (8, 8)
    ++ row (8, 8) (8, 8) (8, 8) (8, 8) (8, 8) (8, 8) (16, 16) (8, 8)
    ++ row (8, 8) (8, 8) (8, 8) (8, 8) (8, 8) (8, 8) (16, 16) (8, 8)
    ++ row (8, 8) (8, 8) (8, 8) (8, 8) (8, 8) (8, 8) (16, 16) (8, 8)
    ++ row (8, 8) (8, 8) (8, 8) (8, 8) (8, 8) (8, 8) (16, 16) (8, 8)
    ++ row (8, 8) (8, 8) (8, 8) (8, 8) (8, 8) (8, 8) (16, 16) (8, 8)
    ++ row (8, 8) (8, 8) (8, 8) (8, 8) (8, 8) (8, 8) (16, 16) (8, 8)
    ++ row (8, 8) (8, 8) (8, 8) (8, 8) (8, 8) (8, 8) (16, 16) (8, 8)

unfoldable pub opcode_cycles_for : ℕ → OpcodeCycles
opcode_cycles_for opcode = get_or unprefixed_opcode_cycles opcode (0, 0)

unfoldable pub cb_opcode_cycles_for : ℕ → OpcodeCycles
cb_opcode_cycles_for opcode = get_or cb_prefixed_opcode_cycles opcode (0, 0)
