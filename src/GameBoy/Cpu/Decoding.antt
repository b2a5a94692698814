-- ===== src/GameBoy/Cpu/Decoding.antt =====
-- The loop of `decodeInto`: it ends, and what it can report.
use proto_time.Base.{
  ℕ, zero, suc, ◌+◌, ◌-◌, ◌<◌, ◌≤◌, ◌||◌, List, [], ◌∷◌, length, drop, some, ltb, ◌==◌, if-split,
  Option-cases, ◌≡◌, ◌≢◌, refl, ap, arith, ◌∙◌, sym, subst, ◌⊎◌, inl, inr,
}
use proto_time.Base.Outcome.{Outcome, done, throws}
use proto_time.GameBoy.Cpu.Registers.{Bus}
use proto_time.GameBoy.Cpu.Dispatch.{
  Step, is_control_flow_opcode, is_undefined_opcode, table_step, opcode_length,
}
use proto_time.GameBoy.Cpu.Execute.{
  ExecutionBlock, DecodeError, empty_block, emit_entry, decode_entry, decode_from, decode_into,
  truncated_opcode_stream,
}
use proto_time.GameBoy.Cpu.Opcodes.{table_complete}

-- A list of `uint8_t`.
unfoldable pub AreBytes : List ℕ → Type 0
AreBytes [] = Unit
AreBytes (x ∷ xs) = (x < 256) × AreBytes xs

AreBytes-drop : (n : ℕ) (xs : List ℕ) → AreBytes xs → AreBytes (drop n xs)
unfolding AreBytes
AreBytes-drop zero xs h = h
AreBytes-drop (suc n) [] h = h
AreBytes-drop (suc n) (x ∷ xs) h = AreBytes-drop n xs h.1

length-drop {ℓ} : {A : Type ℓ} (n : ℕ) (xs : List A) → length (drop n xs) ≡ length xs - n
length-drop zero xs = omega arith
length-drop (suc n) [] = omega arith
length-drop (suc n) (x ∷ xs) = omega (arith, length-drop n xs)

pub opcode_length_positive : (k : Step) → 1 ≤ opcode_length k
unfolding opcode_length
opcode_length_positive k = ground arith

module _ {M : Type 0} (bus : Bus M) where
  -- A block that has used no more than `most` bytes, or the one error that bytes can give.
  unfoldable pub DecodesWithin :
      (ExecutionBlock M → Type 0) → ℕ → Outcome DecodeError (ExecutionBlock M × ℕ) → Type 0
  DecodesWithin Q most (done (b, used)) = Q b × (used ≤ most)
  DecodesWithin Q most (throws e) = e ≡ truncated_opcode_stream

  entry-DecodesWithin :
      (Q : ExecutionBlock M → Type 0) (most op : ℕ) (rest : List ℕ) (b : ExecutionBlock M)
      (used : ℕ) (more : Step → Outcome DecodeError (ExecutionBlock M × ℕ)) (k : Step)
      → used + suc (length rest) ≤ most
      → Q (emit_entry bus k op (op ∷ rest) b)
      → (1 ≤ opcode_length k → opcode_length k ≤ suc (length rest) → DecodesWithin Q most (more k))
      → DecodesWithin Q most (decode_entry bus (op ∷ rest) op b used more (some k))
  unfolding decode_entry DecodesWithin
  entry-DecodesWithin Q most op rest b used more k room good later =
      let size = opcode_length k in
      if-split (DecodesWithin Q most) (size == 0) (λ z. absurd (positive k (ground (arith, z))))
        (λ nz.
          if-split (DecodesWithin Q most) (ltb (length (op ∷ rest)) size) (λ _. refl)
            (λ fits.
              if-split (DecodesWithin Q most) (is_control_flow_opcode op || is_undefined_opcode op)
                (λ _. (good, ground (arith, room, fits)))
                (λ _. later (ground (arith, nz)) (ground (arith, fits)))))
    where
      positive : (k : Step) → opcode_length k ≢ 0
      positive k h = absurd (omega (arith, h, opcode_length_positive k))

  pub from-DecodesWithin :
      (Q : ExecutionBlock M → Type 0)
      (emits : (k : Step) (op : ℕ) (code : List ℕ) (b : ExecutionBlock M)
        → AreBytes code
        → Q b
        → Q (emit_entry bus k op code b))
      (fuel most : ℕ) (xs : List ℕ) (b : ExecutionBlock M) (used : ℕ)
      → Q b
      → length xs ≤ fuel
      → AreBytes xs
      → used + length xs ≤ most
      → DecodesWithin Q most (decode_from bus fuel xs b used)
  unfolding decode_from DecodesWithin AreBytes
  from-DecodesWithin Q emits fuel most [] b used q enough bytes room = (q, omega arith)
  from-DecodesWithin Q emits zero most (op ∷ rest) b used q enough bytes room = absurd (omega arith)
  from-DecodesWithin Q emits (suc fuel) most (op ∷ rest) b used q enough bytes room =
      let xs = op ∷ rest in
      let more = (λ (k : Step).
        decode_from bus fuel (drop (opcode_length k) xs) (emit_entry bus k op xs b)
          (used + opcode_length k)) in
      elim (Option-cases (table_step op)) [
        | inl e ↦ absurd ((table_complete op bytes.0).0 e)
        | inr served ↦
            (let k = served.0 in
              subst (λ o. DecodesWithin Q most (decode_entry bus xs op b used more o))
                (sym served.1)
                (entry-DecodesWithin Q most op rest b used more k room (emits k op xs b bytes q)
                  (λ positive fits.
                    from-DecodesWithin Q emits fuel most (drop (opcode_length k) xs)
                      (emit_entry bus k op xs b) (used + opcode_length k) (emits k op xs b bytes q)
                      (omega (arith, length-drop (opcode_length k) xs))
                      (AreBytes-drop (opcode_length k) xs bytes)
                      (omega (arith, length-drop (opcode_length k) xs)))))
      ]

  -- Decoding any bytes ends, with a block that uses no more bytes than there are, or with the
  -- report that the last instruction is truncated.
  pub decode_ends :
      (xs : List ℕ)
      → AreBytes xs
      → ((b : ExecutionBlock M) × (used : ℕ) × (decode_into bus xs ≡ done (b, used))
          × (used ≤ length xs))
        ⊎ (decode_into bus xs ≡ throws truncated_opcode_stream)
  unfolding decode_into DecodesWithin
  decode_ends xs bytes = go (decode_into bus xs) refl (
      from-DecodesWithin (λ _. Unit) (λ k op code b h q. tt) (length xs) (length xs) xs empty_block
        0 tt (omega arith) bytes (omega arith))
    where
      go :
          (r : Outcome DecodeError (ExecutionBlock M × ℕ))
          → decode_into bus xs ≡ r
          → DecodesWithin (λ _. Unit) (length xs) r
          → ((b : ExecutionBlock M) × (used : ℕ) × (decode_into bus xs ≡ done (b, used))
              × (used ≤ length xs))
            ⊎ (decode_into bus xs ≡ throws truncated_opcode_stream)
      go (done (b, used)) e h = inl (b, used, e, h.1)
      go (throws x) e h = inr (e ∙ ap throws h)
