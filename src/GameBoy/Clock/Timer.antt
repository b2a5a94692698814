-- ===== src/GameBoy/Clock/Timer.antt =====
-- The timer against a prescaler: TIMA counts as often as the divider passes a multiple of the
-- period that TAC selects, whatever else the cycles do.
use proto_time.Base.{
  ℕ, zero, suc, ◌+◌, ◌-◌, ◌*◌, ◌/◌, ◌%◌, ◌^◌, ◌<◌, Bool, true, false, not, ◌&&◌, [], ◌==◌,
  if◌then◌else◌, if-keeps, ◌≡◌, refl, ap, arith, ◌∙◌, sym, subst,
}
use proto_time.Base.Bits.{low_bits, test_bit}
use proto_time.GameBoy.Clock.{
  Clock, timer_bit_for_tac, timer_signal, request, count_tima, serial_cycle, timer_cycle,
  divider_resets, dma_cycle, cycle, cycles_from,
}
use proto_time.GameBoy.Clock.Frame.{
  TimerView, timer_view, timer_view-serial_cycle, timer_view-lcd_cycle, timer_view-dma_cycle,
}

-- One count of TIMA, and many.
unfoldable pub tima_next : ℕ → ℕ → ℕ
tima_next tma tima = if tima == 0xFF then tma else low_bits 8 (tima + 1)

unfoldable pub tima_after : ℕ → ℕ → ℕ → ℕ
tima_after zero tma tima = tima
tima_after (suc n) tma tima = tima_after n tma (tima_next tma tima)

-- The cycles from one count to the next, for the two low bits of TAC.
unfoldable pub timer_period : ℕ → ℕ
timer_period tac =
    if tac % 4 == 0 then 1024 else if tac % 4 == 1 then 16 else if tac % 4 == 2 then 64 else 256

-- The same from the divider bit that is watched.
unfoldable tap_period : ℕ → ℕ
tap_period tac = 2 * 2 ^ timer_bit_for_tac tac

timer_period_lem : (tac : ℕ) → timer_period tac ≡ tap_period tac
unfolding timer_period tap_period timer_bit_for_tac
timer_period_lem tac = ground arith

-- The counts due in `n` cycles from a divider.
unfoldable pub counts_in : ℕ → ℕ → ℕ → ℕ
counts_in period divider n = (divider + n) / period - divider / period

data IsTap : ℕ → Type 0 where
  tap_3 : IsTap 3
  tap_5 : IsTap 5
  tap_7 : IsTap 7
  tap_9 : IsTap 9

timer_bit_for_tac-IsTap : (tac : ℕ) → IsTap (timer_bit_for_tac tac)
unfolding timer_bit_for_tac
timer_bit_for_tac-IsTap tac =
    let k = low_bits 2 tac in
    if-keeps IsTap (k == 0) tap_9 (
      if-keeps IsTap (k == 1) tap_3
        (if-keeps IsTap (k == 2) tap_5 (if-keeps IsTap (k == 3) tap_7 tap_9)))

-- The watched bit falls where the divider reaches a multiple of the period.
falling_bit :
    (k d : ℕ)
    → IsTap k
    → d < 65536
    → (test_bit k d && not (test_bit k (low_bits 16 (d + 1)))) ≡ ((d + 1) % (2 * 2 ^ k) == 0)
falling_bit k d tap_3 b = ground arith
falling_bit k d tap_5 b = ground arith
falling_bit k d tap_7 b = ground arith
falling_bit k d tap_9 b = ground arith

falling_edge :
    (tac d : ℕ)
    → test_bit 2 tac ≡ true
    → d < 65536
    → (timer_signal tac d && not (timer_signal tac (low_bits 16 (d + 1))))
      ≡ ((d + 1) % tap_period tac == 0)
unfolding timer_signal tap_period
falling_edge tac d on b =
    ap (λ x. (x && test_bit k d) && not (x && test_bit k (low_bits 16 (d + 1)))) on
    ∙ falling_bit k d (timer_bit_for_tac-IsTap tac) b
  where
    k : ℕ
    k = timer_bit_for_tac tac

counts_in_none : (w d : ℕ) → counts_in w d 0 ≡ 0
unfolding counts_in
counts_in_none w d = ap (λ x. x / w - d / w) {x = d + 0} {y = d} (omega arith) ∙ omega arith

-- The counts of one cycle and of those after it are the counts of all.
counts_step :
    (k d n : ℕ)
    → IsTap k
    → d < 65536
    → counts_in (2 * 2 ^ k) d (suc n)
      ≡ (if (d + 1) % (2 * 2 ^ k) == 0 then 1 else 0)
        + counts_in (2 * 2 ^ k) (low_bits 16 (d + 1)) n
unfolding counts_in
counts_step k d n tap_3 b = ground arith
counts_step k d n tap_5 b = ground arith
counts_step k d n tap_7 b = ground arith
counts_step k d n tap_9 b = ground arith

tima_after-add :
    (b : Bool) (n tma tima : ℕ)
    → tima_after ((if b then 1 else 0) + n) tma tima
      ≡ tima_after n tma (if b then tima_next tma tima else tima)
unfolding tima_after
tima_after-add true n tma tima =
    ap (λ k. tima_after k tma tima) {x = 1 + n} {y = suc n} (omega arith)
tima_after-add false n tma tima = ap (λ k. tima_after k tma tima) {x = 0 + n} {y = n} (omega arith)

-- What a cycle makes of the timer's registers while no divider reset is due.
unfoldable next_view : TimerView → TimerView
next_view v = record v {
  view_divider = low_bits 16 (v.view_divider + 1);
  view_tima =
      if timer_signal v.view_tac v.view_divider
        && not (timer_signal v.view_tac (low_bits 16 (v.view_divider + 1)))
      then tima_next v.view_tma v.view_tima
      else v.view_tima;
}

module _ {S : Type 0} where
  tima-count_tima :
      (c : Clock S)
      → timer_view (count_tima c) ≡ record (timer_view c) { view_tima = tima_next c.tma c.tima }
  unfolding count_tima tima_next request
  tima-count_tima c = ground arith

  view-count_if :
      (b : Bool) (c : Clock S)
      → timer_view (if b then count_tima c else c)
        ≡ record (timer_view c) { view_tima = if b then tima_next c.tma c.tima else c.tima }
  view-count_if true c = tima-count_tima c
  view-count_if false c = refl

  timer_view-timer_cycle : (c : Clock S) → timer_view (timer_cycle c) ≡ next_view (timer_view c)
  unfolding timer_cycle next_view
  timer_view-timer_cycle c =
      view-count_if _ (record c { divider_counter = low_bits 16 (c.divider_counter + 1) })

  timer_view-divider_resets :
      (now : ℕ) (c : Clock S)
      → c.divider_reset_events ≡ []
      → timer_view (divider_resets now c.divider_reset_events c) ≡ timer_view c
  unfolding divider_resets
  timer_view-divider_resets now c h =
      subst (λ es. timer_view (divider_resets now es c) ≡ timer_view c) (sym h)
        (ap (λ es. record (timer_view c) { view_events = es }) (sym h))

  module _ (read_store : ℕ → S → ℕ) (load_store : ℕ → ℕ → S → S) where
    timer_view-cycle :
        (now : ℕ) (c : Clock S)
        → c.divider_reset_events ≡ []
        → timer_view (cycle read_store load_store now c) ≡ next_view (timer_view c)
    unfolding cycle next_view
    timer_view-cycle now c h =
        let before = serial_cycle (dma_cycle read_store load_store c) in
        let timed =
          timer_view-timer_cycle before
          ∙ ap next_view (
              timer_view-serial_cycle (dma_cycle read_store load_store c)
              ∙ timer_view-dma_cycle read_store load_store c) in
        timer_view-lcd_cycle _
        ∙ timer_view-divider_resets now (timer_cycle before) (ap (λ v. v.view_events) timed ∙ h)
        ∙ timed

    timer_counts_by_tap :
        (n now : ℕ) (c : Clock S)
        → c.divider_reset_events ≡ []
        → test_bit 2 c.tac ≡ true
        → c.divider_counter < 65536
        → let d = cycles_from read_store load_store now n c in
          (d.divider_counter ≡ (c.divider_counter + n) % 65536)
          × (d.tima ≡ tima_after (counts_in (tap_period c.tac) c.divider_counter n) c.tma c.tima)
    unfolding cycles_from next_view tap_period tima_after
    timer_counts_by_tap zero now c h on b = (
      omega arith,
      ap (λ k. tima_after k c.tma c.tima)
          (sym (counts_in_none (tap_period c.tac) c.divider_counter)),
    )
    timer_counts_by_tap (suc n) now c h on b =
        let d = c.divider_counter in
        let next = cycle read_store load_store (suc now) c in
        let e = timer_view-cycle (suc now) c h in
        let divider : next.divider_counter ≡ low_bits 16 (d + 1) = ap (λ v. v.view_divider) e in
        let rest =
          timer_counts_by_tap n (suc now) next (ap (λ v. v.view_events) e ∙ h)
            (ap (λ v. test_bit 2 v.view_tac) e ∙ on) (omega (arith, divider)) in
        let period = tap_period c.tac in
        let later = (λ (v : TimerView).
          tima_after (counts_in (tap_period v.view_tac) v.view_divider n) v.view_tma v.view_tima) in
        let left = counts_in period (low_bits 16 (d + 1)) n in
        (
          omega (arith, rest.0, divider),
          rest.1
              ∙ ap later e
              ∙ ap (λ f. tima_after left c.tma (if f then tima_next c.tma c.tima else c.tima))
                  (falling_edge c.tac d on b)
              ∙ sym (tima_after-add ((d + 1) % period == 0) left c.tma c.tima)
              ∙ ap (λ k. tima_after k c.tma c.tima)
                  (sym
                    (counts_step (timer_bit_for_tac c.tac) d n (timer_bit_for_tac-IsTap c.tac) b)),
        )

    -- While no divider reset is due and the timer is on, `n` cycles count TIMA as often as the
    -- divider passes a multiple of the period, which is 1024, 16, 64 or 256 cycles by the two low
    -- bits of TAC, and move the divider on by `n`.
    pub timer_counts :
        (n now : ℕ) (c : Clock S)
        → c.divider_reset_events ≡ []
        → test_bit 2 c.tac ≡ true
        → c.divider_counter < 65536
        → let d = cycles_from read_store load_store now n c in
          (d.divider_counter ≡ (c.divider_counter + n) % 65536)
          × (d.tima ≡ tima_after (counts_in (timer_period c.tac) c.divider_counter n) c.tma c.tima)
    timer_counts n now c h on b =
        let counted = timer_counts_by_tap n now c h on b in
        (
          counted.0,
          counted.1
              ∙ ap (λ p. tima_after (counts_in p c.divider_counter n) c.tma c.tima)
                  (sym (timer_period_lem c.tac)),
        )
