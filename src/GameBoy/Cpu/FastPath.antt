-- ===== src/GameBoy/Cpu/FastPath.antt =====
-- The fast path against the canonical way to run one fetched instruction: the same state, the same
-- cycles and the same feedback.
use proto_time.Base.{
  ℕ, suc, ◌+◌, ◌<◌, Bool, true, false, List, [], ◌∷◌, length, drop, take, some, ◌==◌, if◌then◌else◌,
  if_of_true, if_of_false, if-keeps, ◌≡◌, refl, ap, ap₂, arith, ◌∙◌, sym, subst, ltb,
}
use proto_time.Base.Outcome.{done, bind_done}
use proto_time.GameBoy.Cpu.Registers.{Bus, Cpu, u16}
use proto_time.GameBoy.Cpu.Cycles.{not_taken, taken, opcode_cycles_for}
use proto_time.GameBoy.Cpu.Dispatch.{
  Step, is_control_flow_opcode, table_step, opcode_length, cb_prefix,
}
use proto_time.GameBoy.Cpu.Switch.{supports_fast_opcode, fast_byte_count}
use proto_time.GameBoy.Cpu.Microcode.{microcode}
use proto_time.GameBoy.Cpu.Execute.{
  CpuFeedback, ExecutionBlock, entry_cycles, empty_block, add_cycle_charge, add_step, pc_advance,
  retire_instruction, emit_entry, decode_entry, decode_from, decode_into, run_steps,
  charge_of_block, execute, decode_and_execute, canonical_fetch_decode_execute,
}
use proto_time.GameBoy.Cpu.Opcodes.{supported-ServedAlike, case_shape, case_shape-fast_step_of}
use proto_time.GameBoy.Cpu.Agreement.{fast_case_lem}
use proto_time.GameBoy.Cpu.FastCases.{
  fast_charge, FastResult, finalize_fast, try_fast_execute_bytes, serve_fast,
}

drop_all {ℓ} : {A : Type ℓ} (xs : List A) → drop (length xs) xs ≡ []
drop_all [] = refl
drop_all (x ∷ xs) = drop_all xs

take_all {ℓ} : {A : Type ℓ} (xs : List A) → take (length xs) xs ≡ xs
take_all [] = refl
take_all (x ∷ xs) = ap (λ ys. x ∷ ys) (take_all xs)

-- The feedback as the canonical path gives it.
abbrev pub as_canonical : CpuFeedback → CpuFeedback
as_canonical fb = record fb { execution_path = canonical_fetch_decode_execute }

module _ {M : Type 0} (bus : Bus M) where
  -- The rest of the loop, after an entry of the length of all the bytes, is empty.
  decode_rest :
      (op : ℕ) (rest : List ℕ) (b : ExecutionBlock M) (n : ℕ)
      → n ≡ suc (length rest)
      → decode_from bus (length rest) (drop n (op ∷ rest)) b (0 + n) ≡ done (b, suc (length rest))
  unfolding decode_from
  decode_rest op rest b n size =
      rw (size, drop_all (op ∷ rest)) (ap (λ u. done (b, u)) (omega arith))

  -- A block with the bytes of one instruction decodes to the steps of its entry.
  decode_one :
      (op : ℕ) (rest : List ℕ) (k : Step)
      → table_step op ≡ some k
      → opcode_length k ≡ suc (length rest)
      → decode_into bus (op ∷ rest)
        ≡ done (emit_entry bus k op (op ∷ rest) empty_block, suc (length rest))
  unfolding decode_into decode_from decode_entry
  decode_one op rest k h size =
      let code = op ∷ rest in
      let more = (λ (j : Step).
        decode_from bus (length rest) (drop (opcode_length j) code)
          (emit_entry bus j op code empty_block) (0 + opcode_length j)) in
      let block = emit_entry bus k op code empty_block in
      ap (decode_entry bus code op empty_block 0 more) h
      ∙ if_of_false {b = opcode_length k == 0} _ (ground (arith, size))
      ∙ if_of_false {b = ltb (length code) (opcode_length k)} _ (ground (arith, size))
      ∙ if-keeps (λ r. r ≡ done (block, suc (length rest))) _
          (ap (λ n. done (block, n)) (omega (arith, size)))
          (decode_rest op rest block (opcode_length k) size)

  -- The state in which the steps of a block of one instruction begin.
  abbrev begun : ℕ → Cpu M → Cpu M
  begun op s = record s {
    instruction_execution_active = true;
    instruction_cycle_end_offset = not_taken (opcode_cycles_for op);
  }

  -- The charge of a block of one entry is that of the fast path.
  charge_one :
      (op n before after : ℕ) (k : Step) (b : ExecutionBlock M) (t : Cpu M)
      → table_step op ≡ some k
      → b.cycles_if_not_taken ≡ not_taken (opcode_cycles_for op)
      → b.cycles_if_taken ≡ taken (opcode_cycles_for op)
      → charge_of_block bus b (suc n) before after t
        ≡ fast_charge (table_step op) op before after (suc n)
  unfolding charge_of_block fast_charge
  charge_one op n before after k b t h p q =
      ground (arith, p, q) ∙ ap (λ o. fast_charge o op before after (suc n)) (sym h)

  -- How a step that has left the state `t` ends, on either path.
  outcome : ℕ → Cpu M → ℕ → ℕ → Bool → Bool → Cpu M × CpuFeedback
  outcome count t charge before control hint =
      let after = u16 (t.pc + pc_advance count t) in
      let paid = if t.pending_cycle_charge == 0 then charge else t.pending_cycle_charge in
      (
        retire_instruction bus paid (record t {
          halt_bug_pc_adjust_pending = false;
          pc = after;
          pending_cycle_charge = 0;
          instruction_execution_active = false;
        }),
        record {
          pc_before = before;
          pc_after = after;
          is_control_flow = control;
          segment_boundary_hint = hint;
          retired_cycles = paid;
          execution_path = canonical_fetch_decode_execute;
        },
      )

  -- Executing the steps of one entry, and charging for it, is what the fast path ends with.
  execute_one :
      (op : ℕ) (rest : List ℕ) (k : Step) (s : Cpu M) (fb started : CpuFeedback)
      → entry_cycles k op (op ∷ rest) ≡ opcode_cycles_for op
      → table_step op ≡ some k
      → started.pc_before ≡ s.pc
      → started.is_control_flow ≡ is_control_flow_opcode op
      → started.segment_boundary_hint ≡ is_control_flow_opcode op
      → let r =
          finalize_fast bus op
            (suc (length rest))
            (microcode bus k op (op ∷ rest) (begun op s))
            started in
        execute bus (emit_entry bus k op (op ∷ rest) empty_block) (op ∷ rest) s fb
        ≡ (r.0, as_canonical (r.1))
  unfolding execute emit_entry add_step add_cycle_charge empty_block run_steps finalize_fast
      pc_advance outcome charge_of_block
  execute_one op rest k s fb started c h b f g =
      let n = suc (length rest) in
      let jumps = is_control_flow_opcode op in
      let cycles = opcode_cycles_for op in
      let entry = entry_cycles k op (op ∷ rest) in
      let begins = (λ (offset : ℕ). record s {
        instruction_execution_active = true;
        instruction_cycle_end_offset = offset;
      }) in
      let done_at = (λ (offset : ℕ). microcode bus k op (op ∷ rest) (begins offset)) in
      let after = (λ (offset : ℕ). u16 ((done_at offset).pc + pc_advance n (done_at offset))) in
      let charged =
        (λ (x y : ℕ). record empty_block { cycles_if_not_taken = x; cycles_if_taken = y }) in
      let ends = (λ (x y : ℕ).
        outcome n (done_at x) (charge_of_block bus (charged x y) n s.pc (after x) (done_at x)) s.pc
          jumps jumps) in
      let t = done_at (not_taken cycles) in
      let charge = (λ (pc : ℕ). fast_charge (table_step op) op pc (after (not_taken cycles)) n) in
      ap₂ ends (omega (arith, ap not_taken c)) (omega (arith, ap taken c))
      ∙ ap (λ x. outcome n t x s.pc jumps jumps)
          (charge_one op (length rest) s.pc (after (not_taken cycles)) k (charged _ _) t h refl
            refl)
      ∙ ap (λ pc. outcome n t (charge pc) pc jumps jumps) (sym b)
      ∙ ap (λ x. outcome n t (charge started.pc_before) started.pc_before x jumps) (sym f)
      ∙ ap (λ x. outcome n t (charge started.pc_before) started.pc_before started.is_control_flow x)
          (sym g)

  -- Only the prefix has cycles of its own.
  entry_cycles_lem :
      (k : Step) (op : ℕ) (code : List ℕ)
      → case_shape k op ≡ true
      → entry_cycles k op code ≡ opcode_cycles_for op
  unfolding entry_cycles case_shape
  entry_cycles_lem cb_prefix op code h = absurd (ground arith)
  entry_cycles_lem _ op code h = refl

  abbrev started_at : ℕ → Cpu M → CpuFeedback → CpuFeedback
  started_at op s fb = record fb {
    pc_before = s.pc;
    is_control_flow = is_control_flow_opcode op;
    segment_boundary_hint = is_control_flow_opcode op;
    retired_cycles = 0;
  }

  -- What the fast path gives, with the microcode of the table in place of its case.
  by_microcode : ℕ → List ℕ → Step → Cpu M → CpuFeedback → FastResult M
  by_microcode op rest k s fb =
      let r =
        finalize_fast bus op (suc (length rest)) (microcode bus k op (op ∷ rest) (begun op s))
          (started_at op s fb) in
      record { handled = true; cpu = r.0; feedback = r.1 }

  serve_fast_lem :
      (op : ℕ) (rest : List ℕ) (k : Step) (s : Cpu M) (fb : CpuFeedback)
      → case_shape k op ≡ true
      → fast_byte_count k ≡ suc (length rest)
      → serve_fast bus op (op ∷ rest) s.pc (begun op s) (started_at op s fb) (some k)
        ≡ by_microcode op rest k s fb
  unfolding serve_fast by_microcode
  serve_fast_lem op rest k s fb shape size =
      let result = (λ (n : ℕ) (t : Cpu M). finalize_fast bus op n t (started_at op s fb)) in
      ap₂ (λ n t. record { handled = true; cpu = (result n t).0; feedback = (result n t).1 }) size
        (fast_case_lem bus k op (op ∷ rest) (begun op s) shape)

  -- When the bytes are those of one instruction that the fast path supports, the fast path handles
  -- them, and decoding and executing them the canonical way succeeds with the same state, the same
  -- cycles and the same feedback but for the name of the path taken.
  pub fast_path_agrees :
      (op : ℕ) (rest : List ℕ) (k : Step) (s : Cpu M) (fb : CpuFeedback)
      → op < 256
      → supports_fast_opcode op ≡ true
      → table_step op ≡ some k
      → opcode_length k ≡ suc (length rest)
      → let r = try_fast_execute_bytes bus (op ∷ rest) s fb in
        (r.handled ≡ true)
        × (decode_and_execute bus (op ∷ rest) s fb ≡ done (r.cpu, as_canonical r.feedback))
  unfolding decode_and_execute try_fast_execute_bytes by_microcode
  fast_path_agrees op rest k s fb bound fast entry size =
      let alike = supported-ServedAlike op bound fast in
      let shape = case_shape-fast_step_of op k bound (alike.by_case ∙ same_entry) in
      let served =
        if_of_true _ fast
        ∙ ap (serve_fast bus op (op ∷ rest) s.pc (begun op s) (started_at op s fb))
            (alike.by_case ∙ same_entry)
        ∙ serve_fast_lem op rest k s fb shape same_size in
      subst Agrees (sym served) (
        refl,
        bind_done _ (decode_one op rest k entry size)
            ∙ ap
                (λ code. done (execute bus (emit_entry bus k op (op ∷ rest) empty_block) code s fb))
                (take_all (op ∷ rest))
            ∙ ap done (
                execute_one op rest k s fb (started_at op s fb) (entry_cycles_lem k op _ shape)
                  entry refl refl refl),
      )
    where
      Agrees : FastResult M → Type 0
      Agrees r =
          (r.handled ≡ true)
          × (decode_and_execute bus (op ∷ rest) s fb ≡ done (r.cpu, as_canonical r.feedback))

      same_entry : some (supported-ServedAlike op bound fast).step ≡ some k
      same_entry = sym (supported-ServedAlike op bound fast).by_entry ∙ entry

      same_size : fast_byte_count k ≡ suc (length rest)
      same_size =
          ground (arith, same_entry, size, (supported-ServedAlike op bound fast).same_length)
