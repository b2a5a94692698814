-- ===== src/GameBoy/Cpu/Fetched.antt =====
-- What a fetch gives, and the two ways to run it.
use proto_time.Base.{
  ℕ, zero, suc, ◌-◌, ◌<◌, ◌≤◌, Bool, true, false, not, ◌&&◌, ◌||◌, List, [], ◌∷◌, length, get_or,
  some, ltb, ◌==◌, if◌then◌else◌, if-keeps, if-split, if_of_false, Option-cases, Bool-cases, ◌≡◌,
  refl, ap, arith, ◌∙◌, sym, subst, inl, inr,
}
use proto_time.Base.Outcome.{done}
use proto_time.GameBoy.Cpu.Registers.{Bus, Cpu, read8}
use proto_time.GameBoy.Cpu.Dispatch.{Step, table_step, opcode_length}
use proto_time.GameBoy.Cpu.Switch.{supports_fast_opcode}
use proto_time.GameBoy.Cpu.Execute.{CpuFeedback, decode_and_execute}
use proto_time.GameBoy.Cpu.FastCases.{try_fast_execute_bytes}
use proto_time.GameBoy.Cpu.Fetch.{
  is_hram_address, Fetched, pending_interrupts, service_interrupt_if_pending, halt_bug_bytes,
  whole_instruction, stream_at, nothing_at, fetch_stream, fetch_serviced, fetch_into,
}
use proto_time.GameBoy.Cpu.Opcodes.{table_complete}
use proto_time.GameBoy.Cpu.Decoding.{opcode_length_positive}
use proto_time.GameBoy.Cpu.Valid.{ReadsBytes}
use proto_time.GameBoy.Cpu.FastPath.{fast_path_agrees, as_canonical}

-- A block that is empty, or is the bytes of one instruction from its opcode on.
pub data IsInstruction : List ℕ → Type 0 where
  nothing : IsInstruction []
  instruction :
      (op : ℕ) (rest : List ℕ) (k : Step)
      → op < 256
      → table_step op ≡ some k
      → opcode_length k ≡ suc (length rest)
      → IsInstruction (op ∷ rest)

-- A bus that reads as many bytes as it is asked for, the first of which is what reading one gives.
pub record ReadsAll {M : Type 0} (bus : Bus M) : Type 0 where
  pub reads_bytes : ReadsBytes bus
  pub reads_count : (address count : ℕ) (m : M) → length (bus.bus_read address count m) ≡ count
  pub reads_first :
      (address count : ℕ) (m : M)
      → 1 ≤ count
      → get_or (bus.bus_read address count m) 0 0 ≡ get_or (bus.bus_read address 1 m) 0 0

list-IsInstruction :
    (xs : List ℕ) (op : ℕ) (k : Step)
    → op < 256
    → table_step op ≡ some k
    → length xs ≡ opcode_length k
    → get_or xs 0 0 ≡ op
    → IsInstruction xs
list-IsInstruction [] op k b e n f = nothing
list-IsInstruction (x ∷ xs) op k b e n f =
    instruction x xs k (omega (arith, f)) (ap table_step f ∙ e) (sym n)

module _ {M : Type 0} (bus : Bus M) (reads : ReadsAll bus) where
  length-halt_bug_bytes : (pc i n : ℕ) (s : Cpu M) → length (halt_bug_bytes bus pc i n s) ≡ n
  unfolding halt_bug_bytes
  length-halt_bug_bytes pc i zero s = refl
  length-halt_bug_bytes pc i (suc n) s = ap suc (length-halt_bug_bytes pc (suc i) n s)

  stream-IsInstruction : (pc : ℕ) (bug : Bool) (s : Cpu M) → IsInstruction (stream_at bus pc bug s)
  unfolding stream_at whole_instruction read8 ReadsBytes
  stream-IsInstruction pc bug s =
      let op = get_or (bus.bus_read pc 1 s.mem) 0 0 in
      let small = reads.reads_bytes pc 1 s.mem 0 in
      elim (Option-cases (table_step op)) [
        | inl e ↦ absurd ((table_complete op small).0 e)
        | inr served ↦
            (let k = served.0 in
              let size = opcode_length k in
              let positive = opcode_length_positive k in
              subst (λ o. IsInstruction (whole_instruction bus pc bug s op o)) (sym served.1)
                (if-split IsInstruction (ltb 1 size)
                  (λ longer.
                    if-keeps IsInstruction bug
                      (instruction op (halt_bug_bytes bus pc 1 (size - 1) s) k small served.1
                        (omega (arith, length-halt_bug_bytes pc 1 (size - 1) s, positive)))
                      (list-IsInstruction (bus.bus_read pc size s.mem) op k small served.1
                        (reads.reads_count pc size s.mem)
                        (reads.reads_first pc size s.mem positive)))
                  (λ single.
                    instruction op [] k small served.1 (ground (arith, single, positive)))))
      ]

  serviced-IsInstruction :
      (pc : ℕ) (r : Bool × Cpu M) → IsInstruction ((fetch_serviced bus pc r).block.code)
  unfolding fetch_serviced nothing_at fetch_stream
  serviced-IsInstruction pc (true, s) = nothing
  serviced-IsInstruction pc (false, s) = stream-IsInstruction pc s.halt_bug_active s

  -- A fetch gives no bytes, or exactly the bytes of one instruction of the table.
  pub fetch-IsInstruction : (s : Cpu M) → IsInstruction ((fetch_into bus s).block.code)
  unfolding fetch_into nothing_at
  fetch-IsInstruction s =
      if-keeps P (s.stop_flag || s.illegal_opcode_lockup) {x = nothing_at bus 0 s} nothing (
        if-keeps P (bus.dma_active s.mem && not (is_hram_address s.pc)) {x = nothing_at bus s.pc s}
          nothing
          (if-keeps P (s.halt_flag && (pending_interrupts bus s == 0)) {x = nothing_at bus s.pc s}
            nothing (serviced-IsInstruction s.pc (service_interrupt_if_pending bus woken))))
    where
      P : Fetched M → Type 0
      P f = IsInstruction f.block.code

      woken : Cpu M
      woken =
          if s.halt_flag && not (pending_interrupts bus s == 0) && not s.ime
          then record s { halt_flag = false; halt_bug_active = true }
          else s

  handled_agrees :
      (code : List ℕ) (s : Cpu M) (fb : CpuFeedback)
      → IsInstruction code
      → (try_fast_execute_bytes bus code s fb).handled ≡ true
      → let r = try_fast_execute_bytes bus code s fb in
        decode_and_execute bus code s fb ≡ done (r.cpu, as_canonical r.feedback)
  unfolding try_fast_execute_bytes
  handled_agrees [] s fb nothing h = absurd (ground arith)
  handled_agrees (op ∷ rest) s fb (instruction _ _ k small entry size) h =
      elim (Bool-cases (supports_fast_opcode op)) [
        | inl fast ↦ (fast_path_agrees bus op rest k s fb small fast entry size).1
        | inr slow ↦ absurd (true≢false h (ap (λ r. r.handled) (unsupported slow)))
      ]
    where
      unsupported :
          supports_fast_opcode op ≡ false
          → try_fast_execute_bytes bus (op ∷ rest) s fb
            ≡ record { handled = false; cpu = s; feedback = fb }
      unsupported slow = if_of_false {b = supports_fast_opcode op} _ slow

      true≢false : {x : Bool} → x ≡ true → x ≡ false → ⊥
      true≢false p q = ground arith

  -- Whenever the fast path handles what a fetch gave, decoding and executing the fetched bytes the
  -- canonical way succeeds with the same state, the same cycles and the same feedback, but for the
  -- name of the path.
  pub fetched_paths_agree :
      (s : Cpu M) (fb : CpuFeedback)
      → let f = fetch_into bus s in
        let r = try_fast_execute_bytes bus f.block.code f.cpu fb in
        r.handled ≡ true
        → decode_and_execute bus f.block.code f.cpu fb ≡ done (r.cpu, as_canonical r.feedback)
  fetched_paths_agree s fb h =
      handled_agrees (fetch_into bus s).block.code (fetch_into bus s).cpu fb (fetch-IsInstruction s)
        h
