-- ===== src/GameBoy/Ports/Joypad.antt =====
-- The lines of the joypad, and the interrupt that a button requests.
use proto_time.Base.{
  ℕ, ◌+◌, ◌-◌, ◌/◌, ◌<◌, Bool, true, false, not, ◌&&◌, ◌||◌, ◌==◌, if◌then◌else◌, if-keeps,
  if_of_false, ◌≡◌, refl, sym, ap, ◌∙◌, subst, arith,
}
use proto_time.Base.Bits.{low_bits, test_bit, bit_or_single, bit_and_le}
use proto_time.Base.Finite.{all_below, all_below-elim}
use Prim.Native.Nat.{bit_and}
use proto_time.GameBoy.Clock.{Clock, request}
use proto_time.GameBoy.Ports.{Ports, without, joypad_low_nibble, joypad_changed, set_joypad_state}

-- A line is low while a button of a selected group that pulls it is pressed.
unfoldable pub line_is_high : Bool → Bool → ℕ → ℕ → Bool
line_is_high directions_off buttons_off pressed line = not (
    (not directions_off && test_bit line pressed)
    || (not buttons_off && test_bit (line + 4) pressed))

abbrev nibble : Bool → Bool → ℕ → ℕ
nibble directions_off buttons_off pressed =
    let directions = if directions_off then 15 else without pressed 15 in
    if buttons_off then directions else without (pressed / 16) directions

unfoldable agrees : Bool → Bool → Bool
agrees true b = b
agrees false b = not b

agrees_lem : (a b : Bool) → agrees a b ≡ true → a ≡ b
unfolding agrees
agrees_lem true b h = sym h
agrees_lem false true h = ground arith
agrees_lem false false h = refl

unfoldable lines_agree : Bool → Bool → ℕ → Bool
lines_agree d b pressed =
    all_below 4 (λ i. agrees (test_bit i (nibble d b pressed)) (line_is_high d b pressed i))

lines_checked : (d b : Bool) → all_below 256 (lines_agree d b) ≡ true
unfolding all_below lines_agree agrees line_is_high
lines_checked true true = refl
lines_checked true false = refl
lines_checked false true = refl
lines_checked false false = refl

nibble_line :
    (d b : Bool) (pressed line : ℕ)
    → pressed < 256
    → line < 4
    → test_bit line (nibble d b pressed) ≡ line_is_high d b pressed line
unfolding lines_agree
nibble_line d b pressed line h k = agrees_lem _ _ (
    all_below-elim 4 (λ i. agrees (test_bit i (nibble d b pressed)) (line_is_high d b pressed i))
      (all_below-elim 256 (lines_agree d b) (lines_checked d b) pressed h) line k)

-- A line that falls is seen in the difference of the nibbles.
unfoldable fall_is_seen : ℕ → ℕ → ℕ → Bool
fall_is_seen old new line =
    not (test_bit line old) || test_bit line new || not (without new old == 0)

falls_checked : all_below 16 (λ o. all_below 16 (λ n. all_below 4 (fall_is_seen o n))) ≡ true
unfolding all_below fall_is_seen
falls_checked = refl

fall_seen :
    (old new line : ℕ)
    → old < 16
    → new < 16
    → line < 4
    → test_bit line old ≡ true
    → test_bit line new ≡ false
    → (without new old == 0) ≡ false
unfolding fall_is_seen
fall_seen old new line h k l e f =
    let seen =
      all_below-elim 4 (fall_is_seen old new)
        (all_below-elim 16 (λ n. all_below 4 (fall_is_seen old n))
          (all_below-elim 16 (λ o. all_below 16 (λ n. all_below 4 (fall_is_seen o n))) falls_checked
            old h)
          new k)
        line l in
    only_last _ _ _ e f seen
  where
    only_last : (a b c : Bool) → a ≡ true → b ≡ false → (not a || b || not c) ≡ true → c ≡ false
    only_last a b c p q r = ground arith

module _ {S : Type 0} where
  nibble_bound : (p : Ports S) → joypad_low_nibble p < 16
  unfolding joypad_low_nibble
  nibble_bound p =
      let bound : (x low : ℕ) → without x low < 16 =
        λ x low. omega (arith, bit_and_le 4 low (15 - low_bits 4 x) (omega arith)) in
      if-keeps (λ (n : ℕ). n < 16) (test_bit 5 p.joyp_select)
        (if-keeps (λ (n : ℕ). n < 16) (test_bit 4 p.joyp_select) (omega arith) (bound _ _))
        (bound _ _)

  -- Whether a line of the joypad is high.
  unfoldable pub high : ℕ → Ports S → Bool
  high line p =
      line_is_high (test_bit 4 p.joyp_select) (test_bit 5 p.joyp_select) p.joypad_pressed line

  low_nibble-high :
      (p : Ports S) (line : ℕ)
      → p.joypad_pressed < 256
      → line < 4
      → test_bit line (joypad_low_nibble p) ≡ high line p
  unfolding joypad_low_nibble high
  low_nibble-high p line h k = nibble_line _ _ p.joypad_pressed line h k

  request_sets : (c : Clock S) → test_bit 4 (request 4 c).interrupt_flags ≡ true
  unfolding request
  request_sets c = ground (arith, bit_or_single 4 c.interrupt_flags)

  -- What follows from a nibble that has lost a line.
  changed_requests :
      (old line : ℕ) (q : Ports S)
      → old < 16
      → line < 4
      → test_bit line old ≡ true
      → test_bit line (joypad_low_nibble q) ≡ false
      → test_bit 4 (joypad_changed old q).clock.interrupt_flags ≡ true
  unfolding joypad_changed
  changed_requests old line q b l e f =
      subst (λ (r : Ports S). test_bit 4 r.clock.interrupt_flags ≡ true)
        (sym (
          if_of_false {b = without (joypad_low_nibble q) old == 0} _
            (fall_seen old (joypad_low_nibble q) line b (nibble_bound q) l e f)))
        (request_sets q.clock)

  changed_high :
      (old line : ℕ) (q : Ports S)
      → (high line (joypad_changed old q) ≡ high line q)
        × (joypad_low_nibble (joypad_changed old q) ≡ joypad_low_nibble q)
  unfolding joypad_changed high joypad_low_nibble
  changed_high old line q =
      if-keeps
        (λ (r : Ports S). (high line r ≡ high line q) × (joypad_low_nibble r ≡ joypad_low_nibble q))
        (without (joypad_low_nibble q) old == 0) (refl, refl) (refl, refl)

  -- Where both masks of pressed buttons are bytes: when they change so that a line of a selected group
  -- falls, the low nibble shows the line as low, and the joypad's interrupt is requested.
  pub button_requests :
      (pressed line : ℕ) (p : Ports S)
      → p.joypad_pressed < 256
      → pressed < 256
      → line < 4
      → high line p ≡ true
      → high line (set_joypad_state pressed p) ≡ false
      → (test_bit line (joypad_low_nibble (set_joypad_state pressed p)) ≡ false)
        × (test_bit 4 (set_joypad_state pressed p).clock.interrupt_flags ≡ true)
  unfolding set_joypad_state
  button_requests pressed line p h k l e f =
      let newly = bit_and pressed (255 - low_bits 8 p.joypad_pressed) in
      let q : Ports S = record p {
        joypad_pressed = pressed;
        stop_flag = if newly == 0 then p.stop_flag else false;
      } in
      let old = joypad_low_nibble p in
      let same = changed_high old line q in
      let low : test_bit line (joypad_low_nibble q) ≡ false =
        low_nibble-high q line k l ∙ sym same.0 ∙ f in
      (
        ap (test_bit line) same.1 ∙ low,
        changed_requests old line q (nibble_bound p) l (low_nibble-high p line h l ∙ e) low,
      )
