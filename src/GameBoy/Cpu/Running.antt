-- ===== src/GameBoy/Cpu/Running.antt =====
-- Decoding and executing a block of bytes keeps the registers valid, and the charge is never lost.
use proto_time.Base.{
  ℕ, ◌<◌, List, [], ◌∷◌, ◌++◌, length, take, ltb, ◌==◌, if-keeps, ◌≡◌, refl, arith, subst,
}
use proto_time.Base.Outcome.{Outcome, done, throws, ◌>>=◌}
use proto_time.GameBoy.Cpu.Registers.{Bus, Cpu}
use proto_time.GameBoy.Cpu.Dispatch.{Step}
use proto_time.GameBoy.Cpu.Execute.{
  CpuFeedback, ExecutionBlock, DecodeError, empty_block, add_cycle_charge, add_step, enable_ime,
  retire_instruction, emit_entry, decode_from, decode_into, run_steps, execute, decode_and_execute,
}
use proto_time.GameBoy.Cpu.Decoding.{AreBytes, DecodesWithin, from-DecodesWithin}
use proto_time.GameBoy.Cpu.Valid.{IsValid, ReadsBytes, words-IsValid}
use proto_time.GameBoy.Cpu.Invariant.{microcode-IsValid}

module _ {M : Type 0} (bus : Bus M) (reads : ReadsBytes bus) where
  -- Every step of the block keeps the registers valid.
  StepsKeep : List (ℕ × (Cpu M → Cpu M)) → Type 0
  StepsKeep [] = Unit
  StepsKeep ((offset, f) ∷ fs) = ((s : Cpu M) → IsValid s → IsValid (f s)) × StepsKeep fs

  StepsKeep-append :
      (fs : List (ℕ × (Cpu M → Cpu M))) (offset : ℕ) (f : Cpu M → Cpu M)
      → StepsKeep fs
      → ((s : Cpu M) → IsValid s → IsValid (f s))
      → StepsKeep (fs ++ ((offset, f) ∷ []))
  unfolding StepsKeep
  StepsKeep-append [] offset f h keeps = (keeps, tt)
  StepsKeep-append ((o, g) ∷ fs) offset f h keeps = (h.0, StepsKeep-append fs offset f h.1 keeps)

  -- A state with the same registers is as valid.
  same_registers :
      (s t : Cpu M)
      → t.af ≡ s.af
      → t.bc ≡ s.bc
      → t.de ≡ s.de
      → t.hl ≡ s.hl
      → t.sp ≡ s.sp
      → t.pc < 65536
      → IsValid s
      → IsValid t
  same_registers s t a b d h p c v =
      words-IsValid s t a (omega (arith, b, v.bc_word)) (omega (arith, d, v.de_word))
        (omega (arith, h, v.hl_word)) (omega (arith, p, v.sp_word)) c v

  run_steps-IsValid :
      (fs : List (ℕ × (Cpu M → Cpu M))) (s : Cpu M)
      → StepsKeep fs
      → IsValid s
      → IsValid (run_steps fs s)
  unfolding StepsKeep run_steps
  run_steps-IsValid [] s h v = v
  run_steps-IsValid ((offset, f) ∷ fs) s h v =
      run_steps-IsValid fs _ h.1 (h.0 _ (same_registers s _ refl refl refl refl refl v.pc_word v))

  enable_ime-IsValid : (s : Cpu M) → IsValid s → IsValid (enable_ime s)
  unfolding enable_ime
  enable_ime-IsValid s v =
      if-keeps IsValid s.ime_enable_pending
        (if-keeps IsValid (ltb 0 s.ime_enable_delay)
          (same_registers s _ refl refl refl refl refl v.pc_word v)
          (same_registers s _ refl refl refl refl refl v.pc_word v))
        v

  retire_instruction-IsValid :
      (n : ℕ) (s : Cpu M) → IsValid s → IsValid (retire_instruction bus n s)
  unfolding retire_instruction
  retire_instruction-IsValid n s v =
      if-keeps IsValid (n == 0) v
        (enable_ime-IsValid _ (same_registers s _ refl refl refl refl refl v.pc_word v))

  execute-IsValid :
      (b : ExecutionBlock M) (code : List ℕ) (s : Cpu M) (fb : CpuFeedback)
      → StepsKeep b.steps
      → IsValid s
      → IsValid ((execute bus b code s fb).0)
  unfolding execute
  execute-IsValid b code s fb keeps v =
      let t = run_steps b.steps s in
      retire_instruction-IsValid _ _ (
        same_registers t _ refl refl refl refl refl (omega arith)
          (run_steps-IsValid b.steps s keeps v))

  -- What decoding bytes and executing the block leaves, when the bytes decode, has valid registers.
  pub decode_and_execute-IsValid :
      (code : List ℕ) (s t : Cpu M) (fb after : CpuFeedback)
      → AreBytes code
      → IsValid s
      → decode_and_execute bus code s fb ≡ done (t, after)
      → IsValid t
  unfolding decode_and_execute decode_into StepsKeep emit_entry add_step add_cycle_charge
      empty_block DecodesWithin
  decode_and_execute-IsValid code s t fb after bytes v h =
      go (decode_from bus (length code) code empty_block 0)
        (from-DecodesWithin bus (λ b. StepsKeep b.steps) emits (length code) (length code) code
          empty_block 0 start (omega arith) bytes (omega arith))
        h
    where
      Left : Outcome DecodeError (Cpu M × CpuFeedback) → Type 0
      Left (done (u, f)) = IsValid u
      Left (throws x) = Unit

      start : StepsKeep (empty_block {M = M}).steps
      start = tt

      emits :
          (k : Step) (op : ℕ) (xs : List ℕ) (b : ExecutionBlock M)
          → AreBytes xs
          → StepsKeep b.steps
          → StepsKeep (emit_entry bus k op xs b).steps
      emits k op xs b ok keeps =
          StepsKeep-append b.steps _ _ keeps (λ u w. microcode-IsValid bus reads k op xs u ok w)

      go :
          (r : Outcome DecodeError (ExecutionBlock M × ℕ))
          → DecodesWithin bus (λ b. StepsKeep b.steps) (length code) r
          → (r >>= (λ r. done (execute bus (r.0) (take (r.1) code) s fb))) ≡ done (t, after)
          → IsValid t
      go (done (b, used)) d e = subst Left e (execute-IsValid b (take used code) s fb d.0 v)
      go (throws x) d e = absurd (ground arith)
