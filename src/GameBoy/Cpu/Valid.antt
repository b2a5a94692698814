-- ===== src/GameBoy/Cpu/Valid.antt =====
-- The registers stay words of 16 bits, and the low half of the flags stays clear.
use proto_time.Base.{ℕ, ◌%◌, ◌<◌, Bool, List, [], ◌∷◌, get_or, ◌≡◌, refl, ap, arith, ◌∙◌}
use proto_time.Base.Bits.{bit_and_le, bit_or_bound, bit_xor_bound}
use proto_time.GameBoy.Cpu.Registers.{
  Bus, Cpu, add_offset, hi_byte, lo_byte, set_hi, set_lo, R16, flag_byte, set_accumulator,
  set_flags, read_r16, write_r16, update_control_flow_pc, popped, r16_bc, r16_de, r16_hl, r16_sp,
}
use proto_time.GameBoy.Cpu.Alu.{AluResult, math_op, rotate_accumulator, decimal_adjust, shift_op}
use proto_time.GameBoy.Cpu.Microcode.{fetch_imm8, fetch_imm16, store_result, relative_jump}
use proto_time.GameBoy.Cpu.Decoding.{AreBytes}

pub record IsValid {M : Type 0} (s : Cpu M) : Type 0 where
  pub af_word : s.af < 65536
  pub flags_clear : s.af % 16 ≡ 0
  pub bc_word : s.bc < 65536
  pub de_word : s.de < 65536
  pub hl_word : s.hl < 65536
  pub sp_word : s.sp < 65536
  pub pc_word : s.pc < 65536

-- A bus that reads bytes.
unfoldable pub ReadsBytes : {M : Type 0} → Bus M → Type 0
ReadsBytes {M} bus =
    (address count : ℕ) (m : M) (i : ℕ) → get_or (bus.bus_read address count m) i 0 < 256

pub set_hi_word : (r v : ℕ) → v < 256 → (set_hi r v < 65536) × (set_hi r v % 16 ≡ r % 16)
unfolding set_hi
set_hi_word r v h = (omega arith, omega arith)

pub set_lo_word : (r v : ℕ) → v < 256 → (set_lo r v < 65536) × (set_lo r v % 16 ≡ v % 16)
unfolding set_lo
set_lo_word r v h = (omega arith, omega arith)

pub hi_byte_bound : (r : ℕ) → hi_byte r < 256
unfolding hi_byte
hi_byte_bound r = omega arith

pub lo_byte_bound : (r : ℕ) → lo_byte r < 256
unfolding lo_byte
lo_byte_bound r = omega arith

pub flag_byte_clear : (z n h c : Bool) → (flag_byte z n h c < 256) × (flag_byte z n h c % 16 ≡ 0)
unfolding flag_byte
flag_byte_clear z n h c = (ground arith, ground arith)

pub add_offset_bound : (base imm : ℕ) → add_offset base imm < 65536
unfolding add_offset
add_offset_bound base imm = ground arith

pub math_op_bound :
    (op lhs rhs : ℕ) (c : Bool) → lhs < 256 → rhs < 256 → (math_op op lhs rhs c).value < 256
unfolding math_op
math_op_bound op lhs rhs c p q =
    ground (arith, bit_and_le 8 lhs rhs q, bit_or_bound 8 lhs rhs p q, bit_xor_bound 8 lhs rhs p q)

pub rotate_bound : (op a : ℕ) (c : Bool) → a < 256 → (rotate_accumulator op a c).value < 256
unfolding rotate_accumulator
rotate_bound op a c p = ground arith

pub adjust_bound : (a f : ℕ) → (decimal_adjust a f).value < 256
unfolding decimal_adjust
adjust_bound a f = ground arith

pub shift_bound : (op v : ℕ) (c : Bool) → v < 256 → (shift_op op v c).value < 256
unfolding shift_op
shift_bound op v c p = ground (arith, bit_and_le 8 v 0x80 (omega arith))

pub fetch_imm8_bound : (code : List ℕ) → AreBytes code → fetch_imm8 code < 256
unfolding fetch_imm8 AreBytes
fetch_imm8_bound [] h = omega arith
fetch_imm8_bound (x ∷ []) h = omega arith
fetch_imm8_bound (x ∷ y ∷ zs) h = omega (arith, h.1.0)

pub fetch_imm16_bound : (code : List ℕ) → AreBytes code → fetch_imm16 code < 65536
unfolding fetch_imm16 AreBytes
fetch_imm16_bound [] h = omega arith
fetch_imm16_bound (x ∷ []) h = omega arith
fetch_imm16_bound (x ∷ y ∷ []) h = omega (arith, h.1.0)
fetch_imm16_bound (x ∷ y ∷ z ∷ ws) h = omega (arith, h.1.0, h.1.1.0)

module _ {M : Type 0} where
  pub set_flags-IsValid : (z n h c : Bool) (s : Cpu M) → IsValid s → IsValid (set_flags z n h c s)
  unfolding set_flags
  set_flags-IsValid z n h c s v =
      let f = flag_byte_clear z n h c in
      let w = set_lo_word s.af (flag_byte z n h c) f.0 in
      record {
        af_word = w.0;
        flags_clear = w.1 ∙ f.1;
        bc_word = v.bc_word;
        de_word = v.de_word;
        hl_word = v.hl_word;
        sp_word = v.sp_word;
        pc_word = v.pc_word;
      }

  -- The flags byte replaced by one whose low half is clear.
  pub with_flags-IsValid :
      (f : ℕ) (s : Cpu M)
      → f < 256
      → f % 16 ≡ 0
      → IsValid s
      → IsValid (record s { af = set_lo s.af f })
  with_flags-IsValid f s b c v =
      let w = set_lo_word s.af f b in
      record {
        af_word = w.0;
        flags_clear = w.1 ∙ c;
        bc_word = v.bc_word;
        de_word = v.de_word;
        hl_word = v.hl_word;
        sp_word = v.sp_word;
        pc_word = v.pc_word;
      }

  pub set_accumulator-IsValid :
      (x : ℕ) (s : Cpu M) → x < 256 → IsValid s → IsValid (set_accumulator x s)
  unfolding set_accumulator
  set_accumulator-IsValid x s b v =
      let w = set_hi_word s.af x b in
      record {
        af_word = w.0;
        flags_clear = w.1 ∙ v.flags_clear;
        bc_word = v.bc_word;
        de_word = v.de_word;
        hl_word = v.hl_word;
        sp_word = v.sp_word;
        pc_word = v.pc_word;
      }

  -- The other registers replaced by words, and the rest of the state by anything.
  pub words-IsValid :
      (s t : Cpu M)
      → t.af ≡ s.af
      → t.bc < 65536
      → t.de < 65536
      → t.hl < 65536
      → t.sp < 65536
      → t.pc < 65536
      → IsValid s
      → IsValid t
  words-IsValid s t same b d h p c v = record {
    af_word = omega (arith, same, v.af_word);
    flags_clear = ap (λ x. x % 16) same ∙ v.flags_clear;
    bc_word = b;
    de_word = d;
    hl_word = h;
    sp_word = p;
    pc_word = c;
  }

  pub store_result-IsValid :
      (r : AluResult) (s : Cpu M) → r.value < 256 → IsValid s → IsValid (store_result r s)
  unfolding store_result
  store_result-IsValid r s b v = set_flags-IsValid _ _ _ _ _ (set_accumulator-IsValid r.value s b v)

  pub write_r16-IsValid :
      (r : R16) (x : ℕ) (s : Cpu M) → x < 65536 → IsValid s → IsValid (write_r16 r x s)
  unfolding write_r16
  write_r16-IsValid r16_bc x s b v =
      words-IsValid s _ refl b v.de_word v.hl_word v.sp_word v.pc_word v
  write_r16-IsValid r16_de x s b v =
      words-IsValid s _ refl v.bc_word b v.hl_word v.sp_word v.pc_word v
  write_r16-IsValid r16_hl x s b v =
      words-IsValid s _ refl v.bc_word v.de_word b v.sp_word v.pc_word v
  write_r16-IsValid r16_sp x s b v =
      words-IsValid s _ refl v.bc_word v.de_word v.hl_word b v.pc_word v

  pub read_r16_bound : (r : R16) (s : Cpu M) → IsValid s → read_r16 r s < 65536
  unfolding read_r16
  read_r16_bound r16_bc s v = v.bc_word
  read_r16_bound r16_de s v = v.de_word
  read_r16_bound r16_hl s v = v.hl_word
  read_r16_bound r16_sp s v = v.sp_word

  pub set_pc-IsValid : (x : ℕ) (s : Cpu M) → x < 65536 → IsValid s → IsValid (record s { pc = x })
  set_pc-IsValid x s b v = words-IsValid s _ refl v.bc_word v.de_word v.hl_word v.sp_word b v

  pub set_hl-IsValid : (x : ℕ) (s : Cpu M) → x < 65536 → IsValid s → IsValid (record s { hl = x })
  set_hl-IsValid x s b v = words-IsValid s _ refl v.bc_word v.de_word b v.sp_word v.pc_word v

  pub set_sp-IsValid : (x : ℕ) (s : Cpu M) → x < 65536 → IsValid s → IsValid (record s { sp = x })
  set_sp-IsValid x s b v = words-IsValid s _ refl v.bc_word v.de_word v.hl_word b v.pc_word v

  pub control_flow-IsValid :
      (target size : ℕ) (s : Cpu M) → IsValid s → IsValid (update_control_flow_pc target size s)
  unfolding update_control_flow_pc
  control_flow-IsValid target size s v = set_pc-IsValid _ s (omega arith) v

  pub popped-IsValid : (s : Cpu M) → IsValid s → IsValid (popped s)
  unfolding popped
  popped-IsValid s v = set_sp-IsValid _ s (omega arith) v

  pub relative_jump-IsValid : (imm : ℕ) (s : Cpu M) → IsValid s → IsValid (relative_jump imm s)
  unfolding relative_jump
  relative_jump-IsValid imm s v = control_flow-IsValid _ 2 s v
