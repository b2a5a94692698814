-- ===== src/GameBoy/Cpu/Interrupts.antt =====
-- Which interrupt is entered, and what a fetch gives.
use proto_time.Base.{
  ℕ, ◌+◌, ◌*◌, ◌<◌, Bool, true, false, not, ◌&&◌, ◌||◌, ◌==◌, ◌≡◌, ◌≢◌, refl, ap, arith, sym, subst,
}
use proto_time.Base.Bits.{test_bit}
use proto_time.Base.Finite.{all_below, all_below-elim}
use proto_time.GameBoy.Cpu.Registers.{Bus, Cpu, u16}
use proto_time.GameBoy.Cpu.Fetch.{
  serviced_bit, interrupt_vector, pending_interrupts, enter_interrupt, service_interrupt_if_pending,
}

first_at : ℕ → Bool
first_at p =
    (p == 0)
    || (test_bit (serviced_bit p) p
        && all_below (serviced_bit p) (λ j. not (test_bit j p))
        && (interrupt_vector p == 0x40 + 8 * serviced_bit p))

all_first : all_below 32 first_at ≡ true
unfolding all_below first_at serviced_bit interrupt_vector
all_first = refl

-- Of the pending interrupts the one with the lowest bit is taken, and its vector is 8 bytes on
-- for each bit.
pub first_pending :
    (p : ℕ)
    → p < 32
    → p ≢ 0
    → (test_bit (serviced_bit p) p ≡ true)
      × ((j : ℕ) → j < serviced_bit p → test_bit j p ≡ false)
      × (interrupt_vector p ≡ 0x40 + 8 * serviced_bit p)
unfolding first_at
first_pending p b some_pending =
    let h = all_below-elim 32 first_at all_first p b in
    (
      ground (arith, h, some_pending),
      λ j less. negated _ (
          all_below-elim (serviced_bit p) (λ i. not (test_bit i p))
            (ground (arith, h, some_pending)) j less),
      ground (arith, h, some_pending),
    )
  where
    negated : (x : Bool) → not x ≡ true → x ≡ false
    negated x e = ground arith

module _ {M : Type 0} (bus : Bus M) where
  -- With interrupts enabled, a pending request is served: the one with the lowest bit is entered at
  -- its vector, interrupts are disabled, and 20 cycles are charged.
  serviced :
      (s : Cpu M)
      → s.ime ≡ true
      → pending_interrupts bus s ≢ 0
      → service_interrupt_if_pending bus s
        ≡ (true, enter_interrupt bus (pending_interrupts bus s) (record s { halt_flag = false }))
  unfolding service_interrupt_if_pending
  serviced s on some_pending = ground (arith, on, some_pending)

  pending_interrupts_bound : (s : Cpu M) → pending_interrupts bus s < 32
  unfolding pending_interrupts
  pending_interrupts_bound s = omega arith

  -- The state that serving the interrupt of a lowest bit leaves, from the state before.
  pub record Serves (s t : Cpu M) (bit : ℕ) : Type 0 where
    pub enters_vector : t.pc ≡ 0x40 + 8 * bit
    pub disables : t.ime ≡ false
    pub cancels_enable : t.ime_enable_pending ≡ false
    pub wakes : t.halt_flag ≡ false
    pub makes_room : t.sp ≡ u16 (s.sp + 65534)
    pub charges : t.pending_cycle_charge ≡ 20

  -- With interrupts enabled, a pending request is served: of those pending the one with the lowest
  -- bit is entered at its vector, interrupts are disabled, the processor is awake, there is room
  -- for the return address on the stack, and 20 cycles are charged.
  pub interrupt_entered :
      (s : Cpu M)
      → s.ime ≡ true
      → pending_interrupts bus s ≢ 0
      → let p = pending_interrupts bus s in
        let r = service_interrupt_if_pending bus s in
        (r.0 ≡ true)
        × Serves s (r.1) (serviced_bit p)
        × (test_bit (serviced_bit p) p ≡ true)
        × ((j : ℕ) → j < serviced_bit p → test_bit j p ≡ false)
  unfolding enter_interrupt
  interrupt_entered s on some_pending =
      let p = pending_interrupts bus s in
      let first = first_pending p (pending_interrupts_bound s) some_pending in
      let e = serviced s on some_pending in
      (
        ap (λ r. r.0) e,
        subst (λ r. Serves s (r.1) (serviced_bit p)) (sym e)
            (record {
              enters_vector = first.2;
              disables = refl;
              cancels_enable = refl;
              wakes = refl;
              makes_room = refl;
              charges = refl;
            }),
        first.0,
        first.1,
      )
