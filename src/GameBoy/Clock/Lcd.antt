-- ===== src/GameBoy/Clock/Lcd.antt =====
-- The LCD's position against a dot counter, and the VBlank request.
use proto_time.Base.{
  ℕ, zero, suc, ◌+◌, ◌*◌, ◌/◌, ◌%◌, ◌<◌, ◌≤◌, Bool, true, not, ◌&&◌, List, [], ◌∷◌, ◌==◌, if-keeps,
  ◌⊎◌, inl, inr, if_of_true, ◌≡◌, refl, ap, arith, ◌∙◌, sym, subst,
}
use proto_time.Base.Bits.{low_bits, test_bit}
use Prim.Native.Nat.{bit_and, bit_or}
use proto_time.GameBoy.Clock.{
  DividerResetEvent, Clock, with_coincidence, lcd_mode, stat_interrupt_requested, request,
  serial_cycle, timer_cycle, divider_reset, divider_resets, lcd_turned_on, stat_interrupt,
  vblank_interrupt, lcd_on_cycle, lcd_cycle, dma_cycle, cycle, cycles_from,
}
use proto_time.GameBoy.Clock.Frame.{
  request_bits, request_sets_vblank, LcdView, lcd_view, KeepsVblank, lcd_view-serial_cycle,
  lcd_view-count_tima, lcd_view-timer_cycle, lcd_view-dma_cycle,
}

-- The LCD is on and has been since before the last cycle.
unfoldable pub Running : LcdView → Type 0
Running v = (test_bit 7 v.view_lcdc ≡ true) × (v.view_last_tick ≡ true)

abbrev at_dot : ℕ → LcdView → LcdView
at_dot dots v = record v { view_dots = dots }

module _ {S : Type 0} where
  lcd_view-stat_interrupt :
      (requested : Bool) (c : Clock S)
      → (lcd_view (stat_interrupt requested c) ≡ lcd_view c)
        × KeepsVblank c (stat_interrupt requested c)
        × ((stat_interrupt requested c).ly ≡ c.ly)
  unfolding stat_interrupt request
  lcd_view-stat_interrupt requested c =
      if-keeps (λ d. (lcd_view d ≡ lcd_view c) × KeepsVblank c d × (d.ly ≡ c.ly)) _
        (refl, request_bits 1 c.interrupt_flags (omega arith), refl) (refl, λ h. h, refl)

  lcd_view-vblank_interrupt :
      (line : ℕ) (c : Clock S)
      → (lcd_view (vblank_interrupt line c) ≡ lcd_view c)
        × KeepsVblank c (vblank_interrupt line c)
        × ((vblank_interrupt line c).ly ≡ c.ly)
  unfolding vblank_interrupt request
  lcd_view-vblank_interrupt line c =
      if-keeps (λ d. (lcd_view d ≡ lcd_view c) × KeepsVblank c d × (d.ly ≡ c.ly)) _
        (refl, request_bits 0 c.interrupt_flags (omega arith), refl) (refl, λ h. h, refl)

  vblank_requested :
      (line : ℕ) (c : Clock S)
      → line < 144
      → c.ly ≡ 144
      → test_bit 0 (vblank_interrupt line c).interrupt_flags ≡ true
  unfolding vblank_interrupt request
  vblank_requested line c b h =
      subst (λ (d : Clock S). test_bit 0 d.interrupt_flags ≡ true)
        (sym (if_of_true {b = not (line == 144) && (c.ly == 144)} _ (ground arith)))
        (request_sets_vblank c.interrupt_flags)

  -- One cycle of an LCD that is on moves it by a dot, and the line follows.
  record Moved (c d : Clock S) : Type 0 where
    moved_view : lcd_view d ≡ at_dot ((c.ppu_dot_counter + 1) % 70224) (lcd_view c)
    moved_line : d.ly ≡ (c.ppu_dot_counter + 1) % 70224 / 456
    moved_keeps : KeepsVblank c d
    moved_requests : c.ppu_dot_counter + 1 ≡ 65664 → test_bit 0 d.interrupt_flags ≡ true

  lcd_on_cycle-Moved : (c : Clock S) → Moved c (lcd_on_cycle c)
  unfolding lcd_on_cycle
  lcd_on_cycle-Moved c =
      let dots = (c.ppu_dot_counter + 1) % 70224 in
      let line = low_bits 8 (dots / 456) in
      let mode = lcd_mode line (dots % 456) in
      let coincidence = line == c.lyc in
      let stat = with_coincidence coincidence (bit_or (bit_and c.stat 0xF8) mode) in
      let shown : Clock S = record c { ppu_dot_counter = dots; ly = line; stat = stat } in
      let requested = stat_interrupt_requested coincidence mode stat in
      let with_stat = lcd_view-stat_interrupt requested shown in
      let previous = low_bits 8 (c.ppu_dot_counter / 456) in
      let after = lcd_view-vblank_interrupt previous (stat_interrupt requested shown) in
      record {
        moved_view = after.0 ∙ with_stat.0;
        moved_line = after.2 ∙ with_stat.2 ∙ omega arith;
        moved_keeps = λ h. after.1 (with_stat.1 h);
        moved_requests = λ h.
            vblank_requested previous (stat_interrupt requested shown) (omega (arith, h))
              (with_stat.2 ∙ omega (arith, h));
      }

  lcd_cycle-Moved : (c : Clock S) → Running (lcd_view c) → Moved c (lcd_cycle c)
  unfolding lcd_cycle Running lcd_turned_on
  lcd_cycle-Moved c on =
      subst (Moved c)
        (sym (
          if_of_true {b = test_bit 7 c.lcdc} _ on.0
          ∙ ap lcd_on_cycle (if_of_true {b = c.lcd_enabled_last_tick} _ on.1)))
        (lcd_on_cycle-Moved c)

  lcd_view-divider_reset :
      (e : DividerResetEvent) (c : Clock S)
      → (lcd_view (divider_reset e c) ≡ lcd_view c) × KeepsVblank c (divider_reset e c)
  unfolding divider_reset
  lcd_view-divider_reset e c =
      if-keeps (λ d. (lcd_view d ≡ lcd_view c) × KeepsVblank c d) _ (lcd_view-count_tima _)
        (refl, λ h. h)

  lcd_view-divider_resets :
      (now : ℕ) (es : List DividerResetEvent) (c : Clock S)
      → (lcd_view (divider_resets now es c) ≡ lcd_view c) × KeepsVblank c (divider_resets now es c)
  unfolding divider_resets
  lcd_view-divider_resets now [] c = (refl, λ h. h)
  lcd_view-divider_resets now (e ∷ es) c =
      let one = lcd_view-divider_reset e c in
      let more = lcd_view-divider_resets now es (divider_reset e c) in
      if-keeps (λ d. (lcd_view d ≡ lcd_view c) × KeepsVblank c d) _
        (more.0 ∙ one.0, λ h. more.1 (one.1 h)) (refl, λ h. h)

  -- A cycle that starts in a state with the same LCD, and with no fewer requests, as another.
  moves_from : (c d e : Clock S) → lcd_view d ≡ lcd_view c → KeepsVblank c d → Moved d e → Moved c e
  moves_from c d e same keeps m = record {
    moved_view = m.moved_view ∙ ap (λ v. at_dot ((v.view_dots + 1) % 70224) v) same;
    moved_line = m.moved_line ∙ ap (λ v. (v.view_dots + 1) % 70224 / 456) same;
    moved_keeps = λ h. m.moved_keeps (keeps h);
    moved_requests = λ h. m.moved_requests (ap (λ v. v.view_dots + 1) same ∙ h);
  }

  module _ (read_store : ℕ → S → ℕ) (load_store : ℕ → ℕ → S → S) where
    cycle-Moved :
        (now : ℕ) (c : Clock S) → Running (lcd_view c) → Moved c (cycle read_store load_store now c)
    unfolding cycle
    cycle-Moved now c on =
        let copied = lcd_view-dma_cycle read_store load_store c in
        let sent = lcd_view-serial_cycle (dma_cycle read_store load_store c) in
        let timed = lcd_view-timer_cycle (serial_cycle (dma_cycle read_store load_store c)) in
        let t = timer_cycle (serial_cycle (dma_cycle read_store load_store c)) in
        let reset = lcd_view-divider_resets now t.divider_reset_events t in
        let same = reset.0 ∙ timed.0 ∙ sent.0 ∙ copied.0 in
        moves_from c (divider_resets now t.divider_reset_events t) _ same
          (λ h. reset.1 (timed.1 (sent.1 (ap (λ f. test_bit 0 f) (copied.1) ∙ h))))
          (lcd_cycle-Moved _ (subst Running (sym same) on))

    -- While the LCD is on, `n` cycles move its dot counter by `n`, around a frame of 154 lines of
    -- 456 dots, and the line register follows it.
    pub lcd_position :
        (n now : ℕ) (c : Clock S)
        → test_bit 7 c.lcdc ≡ true
        → c.lcd_enabled_last_tick ≡ true
        → c.ppu_dot_counter < 70224
        → c.ly ≡ c.ppu_dot_counter / 456
        → let d = cycles_from read_store load_store now n c in
          (d.ppu_dot_counter ≡ (c.ppu_dot_counter + n) % 70224) × (d.ly ≡ d.ppu_dot_counter / 456)
    unfolding cycles_from Running
    lcd_position zero now c on tick b line = (omega arith, line)
    lcd_position (suc n) now c on tick b line =
        let m = cycle-Moved (suc now) c (on, tick) in
        let next = cycle read_store load_store (suc now) c in
        let dots : next.ppu_dot_counter ≡ (c.ppu_dot_counter + 1) % 70224 =
          ap (λ v. v.view_dots) m.moved_view in
        let rest =
          lcd_position n (suc now) next (ap (λ v. test_bit 7 v.view_lcdc) m.moved_view ∙ on)
            (ap (λ v. v.view_last_tick) m.moved_view ∙ tick) (omega (arith, dots))
            (m.moved_line ∙ ap (λ x. x / 456) (sym dots)) in
        (omega (arith, rest.0, dots), rest.1)

    vblank_stands :
        (n now : ℕ) (c : Clock S)
        → Running (lcd_view c)
        → test_bit 0 c.interrupt_flags ≡ true
        → test_bit 0 (cycles_from read_store load_store now n c).interrupt_flags ≡ true
    unfolding cycles_from Running
    vblank_stands zero now c on h = h
    vblank_stands (suc n) now c on h =
        let m = cycle-Moved (suc now) c on in
        vblank_stands n (suc now) (cycle read_store load_store (suc now) c)
          (
            ap (λ v. test_bit 7 v.view_lcdc) m.moved_view ∙ on.0,
            ap (λ v. v.view_last_tick) m.moved_view ∙ on.1,
          )
          (m.moved_keeps h)

    -- While the LCD is on, the cycles that take it from before line 144 to the line's start or
    -- beyond leave a VBlank request standing.
    pub vblank_is_requested :
        (n now : ℕ) (c : Clock S)
        → test_bit 7 c.lcdc ≡ true
        → c.lcd_enabled_last_tick ≡ true
        → c.ppu_dot_counter < 144 * 456
        → 144 * 456 ≤ c.ppu_dot_counter + n
        → test_bit 0 (cycles_from read_store load_store now n c).interrupt_flags ≡ true
    unfolding cycles_from Running
    vblank_is_requested zero now c on tick b far = absurd (omega arith)
    vblank_is_requested (suc n) now c on tick b far =
        let m = cycle-Moved (suc now) c (on, tick) in
        let next = cycle read_store load_store (suc now) c in
        let dots : next.ppu_dot_counter ≡ (c.ppu_dot_counter + 1) % 70224 =
          ap (λ v. v.view_dots) m.moved_view in
        let on' = ap (λ v. test_bit 7 v.view_lcdc) m.moved_view ∙ on in
        let tick' = ap (λ v. v.view_last_tick) m.moved_view ∙ tick in
        elim (reaches (c.ppu_dot_counter + 1) 65664 (omega arith)) [
          | inl before ↦
              vblank_is_requested n (suc now) next on' tick' (omega (arith, dots))
                (omega (arith, dots))
          | inr there ↦ vblank_stands n (suc now) next (on', tick') (m.moved_requests there)
        ]
      where
        reaches : (a b : ℕ) → a ≤ b → (a < b) ⊎ (a ≡ b)
        reaches a b h = ground arith
