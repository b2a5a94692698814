-- ===== src/GameBoy/Cpu/Opcodes.antt =====
-- Every opcode is served by an entry of the table; the fast path serves those it says it does, by
-- the case of the same group and with the same length.
use proto_time.Base.{
  [], ◌∷◌, ℕ, ◌<◌, Bool, true, false, not, ◌&&◌, ◌||◌, Option, none, some, ◌==◌, if◌then◌else◌, ◌≡◌,
  refl, ap, arith, ◌∙◌, sym, subst, ◌≢◌,
}
use proto_time.Base.Finite.{all_below, all_below-elim}
use proto_time.GameBoy.Cpu.Dispatch.{
  Step, one_of, is_undefined_opcode, low_table_step, high_table_step, table_step, opcode_length,
  ld_indirect, cb_prefix, invalid,
}
use proto_time.GameBoy.Cpu.Switch.{
  supports_fast_opcode, low_switch, high_switch, after_switch, switch_step, fast_step_of,
  fast_byte_count,
}

Step-discrete : Discrete Step
Step-discrete = hlevel

same_step : Step → Step → Bool
same_step k j = elim (Step-discrete k j) [ yes _ ↦ true | no _ ↦ false ]

same_step_sound : (k j : Step) → same_step k j ≡ true → k ≡ j
unfolding same_step
same_step_sound k j h = go (Step-discrete k j) h
  where
    go : (d : Dec (k ≡ j)) → (elim d [ yes _ ↦ true | no _ ↦ false ]) ≡ true → k ≡ j
    go (yes p) r = p
    go (no p) r = absurd (ground arith)

-- One opcode's case on the fast path is of the table's group and length, and an opcode without a
-- case is not said to be supported.
consistent : Option Step → Option Step → Bool → Bool
consistent none t supported = not supported
consistent (some k) none supported = false
consistent (some k) (some j) supported =
    same_step k j && (fast_byte_count k == opcode_length k) && supported

consistent_at : ℕ → Bool
consistent_at op = consistent (fast_step_of op) (table_step op) (supports_fast_opcode op)

all_consistent : all_below 256 consistent_at ≡ true
unfolding all_below consistent_at consistent same_step fast_step_of table_step supports_fast_opcode
    low_table_step high_table_step switch_step low_switch high_switch after_switch fast_byte_count
    opcode_length Step-discrete
all_consistent = refl

-- For an opcode that the fast path supports, the case that serves it is of the same group as the
-- table's entry, and moves on by the entry's length.
pub record ServedAlike (op : ℕ) : Type 0 where
  pub step : Step
  pub by_case : fast_step_of op ≡ some step
  pub by_entry : table_step op ≡ some step
  pub same_length : fast_byte_count step ≡ opcode_length step

pub supported-ServedAlike : (op : ℕ) → op < 256 → supports_fast_opcode op ≡ true → ServedAlike op
unfolding consistent_at consistent
supported-ServedAlike op bound h =
    go (fast_step_of op) (table_step op) refl refl
      (all_below-elim 256 consistent_at all_consistent op bound)
  where
    go :
        (a b : Option Step)
        → fast_step_of op ≡ a
        → table_step op ≡ b
        → consistent a b (supports_fast_opcode op) ≡ true
        → ServedAlike op
    go none b p q r = absurd (ground arith)
    go (some k) none p q r = absurd (ground arith)
    go (some k) (some j) p q r = record {
      step = k;
      by_case = p;
      by_entry = q ∙ ap some (sym (same_step_sound k j (ground arith)));
      same_length = ground arith;
    }

same_bool : Bool → Bool → Bool
same_bool a b = if a then b else not b

same_bool_sound : (a b : Bool) → same_bool a b ≡ true → a ≡ b
unfolding same_bool
same_bool_sound a b h = ground arith

served_at : ℕ → Bool
served_at op =
    (elim (table_step op) [ none ↦ false | some _ ↦ true ])
    && same_bool (supports_fast_opcode op) (not ((op == 0xCB) || is_undefined_opcode op))

all_served : all_below 256 served_at ≡ true
unfolding all_below served_at same_bool table_step low_table_step high_table_step
    supports_fast_opcode is_undefined_opcode
all_served = refl

-- The table has an entry for every opcode, and the fast path supports every opcode but the
-- prefix 0xCB and the eleven that are undefined.
pub table_complete :
    (op : ℕ)
    → op < 256
    → (table_step op ≢ none)
      × (supports_fast_opcode op ≡ not ((op == 0xCB) || is_undefined_opcode op))
unfolding served_at
table_complete op bound =
    (λ e. absurd (subst Missing e (ground (arith, at))), same_bool_sound _ _ (ground (arith, at)))
  where
    at : served_at op ≡ true
    at = all_below-elim 256 served_at all_served op bound

    Missing : Option Step → Type 0
    Missing none = ⊥
    Missing (some k) = Unit

-- The opcodes that a group may have, where a case looks at the opcode again: the loads by a
-- register pair are eight, and neither the prefix nor an undefined opcode has a case.
unfoldable pub case_shape : Step → ℕ → Bool
case_shape ld_indirect op = one_of op (0x02 ∷ 0x12 ∷ 0x22 ∷ 0x32 ∷ 0x0A ∷ 0x1A ∷ 0x2A ∷ 0x3A ∷ [])
case_shape cb_prefix op = false
case_shape invalid op = false
case_shape _ op = true

shape_at : ℕ → Bool
shape_at op = elim (fast_step_of op) [ none ↦ true | some k ↦ case_shape k op ]

all_shaped : all_below 256 shape_at ≡ true
unfolding all_below shape_at case_shape fast_step_of switch_step low_switch high_switch after_switch
all_shaped = refl

pub case_shape-fast_step_of :
    (op : ℕ) (k : Step) → op < 256 → fast_step_of op ≡ some k → case_shape k op ≡ true
unfolding shape_at
case_shape-fast_step_of op k bound h =
    subst (λ o. (elim o [ none ↦ true | some j ↦ case_shape j op ]) ≡ true) h
      (all_below-elim 256 shape_at all_shaped op bound)
