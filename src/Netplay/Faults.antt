-- ===== src/Netplay/Faults.antt =====
-- The first fault of an engine ends its session, and the frame counter never goes back or jumps.
use proto_time.Base.{
  ℕ, ◌+◌, ◌-◌, ◌%◌, ◌^◌, ◌≡◌, ◌≢◌, ◌⊎◌, inl, inr, refl, ◌∙◌, ap, Bool, true, not, ◌&&◌, ◌||◌, List,
  [], ◌∷◌, Option, arith, get_or, set, ltb, leb, ◌==◌, if◌then◌else◌, if-split, if_of_true,
}
use proto_time.Base.Bits.{test_bit}
use proto_time.Netplay.Types.{
  Digest, Fault, no_fault, invalid_packet, binding_mismatch, conflicting_input,
  fingerprint_mismatch, window_exhausted, Packet, valid_packet, same_binding, same_bytes,
}
use proto_time.Netplay.Engine.{
  Frame, LockstepEngine, no_frame, fresh_frame, is_fault, fail, holds, accept_again, accept_past,
  accept_current, accept, current, is_complete, ready, complete_frame,
}
use proto_time.Netplay.Valid.{Event, accepts, readies, completes, fails, step, run}

is_fault_lem : (e : LockstepEngine) → e.fault ≢ no_fault → is_fault e.fault ≡ true
is_fault_lem e n = ground arith

step_after_fault : (e : LockstepEngine) (x : Event) → e.fault ≢ no_fault → step e x ≡ e
unfolding step accept ready complete_frame fail
step_after_fault e (accepts p) n =
    ap (λ (r : LockstepEngine × Bool). r.0) (if_of_true _ (is_fault_lem e n))
step_after_fault e (readies d) n =
    ap (λ (r : LockstepEngine × Option ℕ). r.0) (if_of_true _ (is_fault_lem e n))
step_after_fault e completes n =
    let b : (not e.is_ready || is_fault e.fault || not (is_complete (current e) e.next)) ≡ true =
      ground (arith, is_fault_lem e n) in
    ap (λ (r : LockstepEngine × Bool). r.0) (if_of_true _ b)
step_after_fault e (fails f) n = if_of_true _ (is_fault_lem e n)

-- Once an engine has a fault, no packet, no attempt to run a frame and no later fault changes anything
-- in it, the first fault included.
pub fault_stops : (e : LockstepEngine) (xs : List Event) → e.fault ≢ no_fault → run e xs ≡ e
unfolding run
fault_stops e [] n = refl
fault_stops e (x ∷ xs) n =
    let s = step_after_fault e x n in ap (λ r. run r xs) s ∙ fault_stops e xs n

fail-next : (e : LockstepEngine) (f : Fault) → (fail e f).next ≡ e.next
unfolding fail
fail-next e f = ground arith

again-next : (e : LockstepEngine) (f : Frame) (p : Packet) → (accept_again e f p).0.next ≡ e.next
unfolding accept_again
again-next e f p = ground (arith, fail-next e conflicting_input)

past-next : (e : LockstepEngine) (p : Packet) → (accept_past e p).0.next ≡ e.next
unfolding accept_past
past-next e p = ground (arith, again-next e (get_or e.history (p.frame % 128) no_frame) p)

current-next : (e : LockstepEngine) (p : Packet) → (accept_current e p).0.next ≡ e.next
unfolding accept_current
current-next e p =
    let old = get_or e.frames (p.frame % 128) no_frame in
    let f = if holds old p.frame then old else fresh_frame p.frame in
    if-split (λ (r : LockstepEngine × Bool). r.0.next ≡ e.next) (test_bit p.peer f.received)
      (λ _. again-next (record e { frames = set e.frames (p.frame % 128) f }) f p) (λ _. refl)

accept-next : (e : LockstepEngine) (p : Packet) → (accept e p).0.next ≡ e.next
unfolding accept
accept-next e p =
    let G : LockstepEngine × Bool → Type 0 = λ r. r.0.next ≡ e.next in
    if-split G (is_fault e.fault) (λ _. refl)
      (λ _.
        if-split G (not (valid_packet p)) (λ _. fail-next e invalid_packet)
          (λ _.
            if-split G (not (same_binding p.binding e.binding)) (λ _. fail-next e binding_mismatch)
              (λ _.
                if-split G (leb e.next p.frame && leb 128 (p.frame - e.next))
                  (λ _. fail-next e window_exhausted)
                  (λ _.
                    if-split G (ltb p.frame e.next) (λ _. past-next e p) (λ _. current-next e p)))))

ready-next : (e : LockstepEngine) (d : Digest) → (ready e d).0.next ≡ e.next
unfolding ready
ready-next e d =
    let G : LockstepEngine × Option ℕ → Type 0 = λ r. r.0.next ≡ e.next in
    let f = current e in
    if-split G (is_fault e.fault) (λ _. refl)
      (λ _.
        if-split G (not (is_complete f e.next)) (λ _. refl)
          (λ _.
            if-split G
              (not (same_bytes f.packet_0.before d) || not (same_bytes f.packet_1.before d))
              (λ _. fail-next e fingerprint_mismatch) (λ _. refl)))

-- An event leaves the frame counter, or moves it on by one: the event was then `completeFrame`, the
-- engine had no fault, `ready` had been called, and both packets of the frame were there.
pub step_counts :
    (e : LockstepEngine) (x : Event)
    → ((step e x).next ≡ e.next)
      ⊎ (((step e x).next ≡ e.next + 1)
          × (x ≡ completes)
          × (e.fault ≡ no_fault)
          × (e.is_ready ≡ true)
          × (is_complete (current e) e.next ≡ true))
unfolding step complete_frame
step_counts e (accepts p) = inl (accept-next e p)
step_counts e (readies d) = inl (ready-next e d)
step_counts e (fails f) = inl (fail-next e f)
step_counts e completes =
    let C : LockstepEngine × Bool → Type 0 = λ r.
      (r.0.next ≡ e.next)
      ⊎ ((r.0.next ≡ e.next + 1)
          × (completes ≡ completes)
          × (e.fault ≡ no_fault)
          × (e.is_ready ≡ true)
          × (is_complete (current e) e.next ≡ true)) in
    if-split C (not e.is_ready || is_fault e.fault || not (is_complete (current e) e.next))
      (λ _. inl refl)
      (λ h.
        if-split C (e.next == 2 ^ 64 - 1) (λ _. inl (fail-next e window_exhausted))
          (λ _. inr (refl, refl, ground arith, ground arith, ground arith)))
