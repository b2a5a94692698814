-- ===== src/GameBoy/Cpu/Stack.antt =====
-- Pushing and popping, calling and returning, where the stack lies in memory that keeps what is
-- written to it.
use proto_time.Base.{ℕ, ◌+◌, ◌*◌, ◌/◌, ◌<◌, List, [], ◌∷◌, get_or, ◌≡◌, refl, ap, ap₂, arith, ◌∙◌}
use proto_time.Base.Bits.{low_bits, shr, join}
use proto_time.GameBoy.Cpu.Registers.{
  Bus, Cpu, u16, R16Stack, decode_r16_stack, read_stack_r16, write_stack_r16,
  update_control_flow_pc, popped, read16, write16, pop16, push16, stack_bc, stack_de, stack_hl,
  stack_af,
}
use proto_time.GameBoy.Cpu.Microcode.{return_step, call_step, pop_r16_step}
use proto_time.GameBoy.Cpu.Valid.{IsValid}

-- Memory at an address that reads back two bytes written to it.
unfoldable pub KeepsPair : {M : Type 0} → Bus M → ℕ → Type 0
KeepsPair {M} bus address =
    (offset lo hi : ℕ) (m : M)
    → lo < 256
    → hi < 256
    → bus.bus_read address 2 (bus.bus_write offset address (lo ∷ hi ∷ []) m) ≡ lo ∷ hi ∷ []

module _ {M : Type 0} (bus : Bus M) where
  -- What a pop reads in any state whose stack is as a push of `v` has left it.
  pop16-push16 :
      (v : ℕ) (s u : Cpu M)
      → KeepsPair bus (u16 (s.sp + 65534))
      → v < 65536
      → u.sp ≡ (push16 bus v s).sp
      → u.mem ≡ (push16 bus v s).mem
      → pop16 bus u ≡ v
  unfolding pop16 read16 push16 write16 KeepsPair
  pop16-push16 v s u keeps small same_sp same_mem =
      let pair = (λ (bytes : List ℕ). join 8 (get_or bytes 1 0) (get_or bytes 0 0)) in
      ap₂ (λ a m. pair (bus.bus_read a 2 m)) same_sp same_mem
      ∙ ap pair (
          keeps s.instruction_cycle_end_offset (low_bits 8 v) (low_bits 8 (shr 8 v)) s.mem
            (omega arith) (omega arith))
      ∙ omega arith

  -- When a called routine leaves the stack pointer and the memory as it found them, its return
  -- goes on after the call, with the stack pointer from before the call.
  pub call_returns :
      (target size : ℕ) (s u : Cpu M)
      → KeepsPair bus (u16 (s.sp + 65534))
      → s.sp < 65536
      → u.sp ≡ (call_step bus target size s).sp
      → u.mem ≡ (call_step bus target size s).mem
      → (u16 ((return_step bus u).pc + 1) ≡ u16 (s.pc + size)) × ((return_step bus u).sp ≡ s.sp)
  unfolding call_step return_step update_control_flow_pc popped push16 write16
  call_returns target size s u keeps small same_sp same_mem = (
    omega (arith, pop16-push16 (u16 (s.pc + size)) s u keeps (omega arith) same_sp same_mem),
    omega (arith, same_sp),
  )

  -- POP after PUSH of the same register pair restores the pair and the stack pointer.
  pop-push :
      (op : ℕ) (s : Cpu M)
      → KeepsPair bus (u16 (s.sp + 65534))
      → IsValid s
      → let r = decode_r16_stack op in
        let t = pop_r16_step bus op (push16 bus (read_stack_r16 r s) s) in
        (read_stack_r16 r t ≡ read_stack_r16 r s) × (t.sp ≡ s.sp)
  unfolding pop_r16_step read_stack_r16 write_stack_r16 popped push16 write16
  pop-push op s keeps v = go (decode_r16_stack op)
    where
      pointer : u16 (u16 (s.sp + 65534) + 2) ≡ s.sp
      pointer = omega (arith, v.sp_word)

      restored : R16Stack → ℕ → Cpu M → Cpu M
      restored r x u = elim r [
        | stack_af ↦ write_stack_r16 stack_af (x / 16 * 16) (popped u)
        | q ↦ write_stack_r16 q x (popped u)
      ]

      go :
          (r : R16Stack)
          → let u = push16 bus (read_stack_r16 r s) s in
            (read_stack_r16 r (restored r (pop16 bus u) u) ≡ read_stack_r16 r s)
            × ((restored r (pop16 bus u) u).sp ≡ s.sp)
      go stack_bc = (pop16-push16 s.bc s _ keeps v.bc_word refl refl, pointer)
      go stack_de = (pop16-push16 s.de s _ keeps v.de_word refl refl, pointer)
      go stack_hl = (pop16-push16 s.hl s _ keeps v.hl_word refl refl, pointer)
      go stack_af = (
        ap (λ x. x / 16 * 16) (pop16-push16 s.af s _ keeps v.af_word refl refl)
            ∙ omega (arith, v.flags_clear),
        pointer,
      )
