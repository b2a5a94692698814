-- ===== src/Netplay/Progress.antt =====
-- A frame whose two packets arrive is run, in whichever order they arrive; a fault stops everything.
use Prim.Native.Nat.{bit_or}
use proto_time.Base.{
  ℕ, ◌+◌, ◌-◌, ◌%◌, ◌^◌, ◌<◌, ◌≡◌, refl, sym, ap, ap₂, ◌∙◌, Bool, true, false, not, ◌||◌, Option,
  some, arith, set, get_or-set_self, ◌==◌, if-split,
}
use proto_time.Netplay.Types.{Digest, no_fault, Packet, same_bytes, same_bytes_self}
use proto_time.Netplay.Engine.{
  Frame, LockstepEngine, no_frame, fresh_frame, store, is_fault, holds, accept, current,
  is_complete, ready, complete_frame,
}
use proto_time.Netplay.Valid.{IsValid}
use proto_time.Netplay.Arrivals.{Arrives, with_frame, accept-both}

ready_complete :
    (e : LockstepEngine) (before : Digest)
    → e.fault ≡ no_fault
    → is_complete (current e) e.next ≡ true
    → (current e).packet_0.before ≡ before
    → (current e).packet_1.before ≡ before
    → ready e before ≡ (
      record e { is_ready = true },
      some (bit_or (current e).packet_0.input (current e).packet_1.input),
    )
unfolding ready
ready_complete e before n c x y =
    let f = current e in
    let G : LockstepEngine × Option ℕ → Type 0 =
      λ r. r ≡ (record e { is_ready = true }, some (bit_or f.packet_0.input f.packet_1.input)) in
    let first : same_bytes f.packet_0.before before ≡ true =
      ap (λ d. same_bytes d before) x ∙ same_bytes_self before in
    let second : same_bytes f.packet_1.before before ≡ true =
      ap (λ d. same_bytes d before) y ∙ same_bytes_self before in
    if-split G (is_fault e.fault) (λ h. ground arith)
      (λ _.
        if-split G (not (is_complete f e.next)) (λ h. ground (arith, c))
          (λ _.
            if-split G
              (not (same_bytes f.packet_0.before before)
                || not (same_bytes f.packet_1.before before))
              (λ h. ground (arith, first, second)) (λ _. refl)))

complete_frame-ready :
    (e : LockstepEngine)
    → e.fault ≡ no_fault
    → e.is_ready ≡ true
    → is_complete (current e) e.next ≡ true
    → e.next < 2 ^ 64 - 1
    → complete_frame e ≡ (
      record e {
        history = set e.history (e.next % 128) (current e);
        next = e.next + 1;
        is_ready = false;
      },
      true,
    )
unfolding complete_frame
complete_frame-ready e n r c m =
    let G : LockstepEngine × Bool → Type 0 = λ x. x ≡ (
      record e {
        history = set e.history (e.next % 128) (current e);
        next = e.next + 1;
        is_ready = false;
      },
      true,
    ) in
    if-split G (not e.is_ready || is_fault e.fault || not (is_complete (current e) e.next))
      (λ h. ground (arith, c))
      (λ _. if-split G (e.next == 2 ^ 64 - 1) (λ h. ground arith) (λ _. refl))

-- What `ready` gives, then whether `complete_frame` runs the frame, and the frame at hand after it.
abbrev pub run_frame : LockstepEngine → Digest → Option ℕ × Bool × ℕ
run_frame e before =
    let (r, mask) = ready e before in let (c, done_) = complete_frame r in (mask, done_, c.next)

frame_runs :
    (e : LockstepEngine) (before : Digest) (f : Frame)
    → e.fault ≡ no_fault
    → e.next < 2 ^ 64 - 1
    → current e ≡ f
    → is_complete f e.next ≡ true
    → f.packet_0.before ≡ before
    → f.packet_1.before ≡ before
    → run_frame e before ≡ (some (bit_or f.packet_0.input f.packet_1.input), true, e.next + 1)
frame_runs e before f n m s c x y =
    let complete : is_complete (current e) e.next ≡ true =
      ap (λ (g : Frame). is_complete g e.next) s ∙ c in
    let one =
      ready_complete e before n complete (ap (λ (g : Frame). g.packet_0.before) s ∙ x)
        (ap (λ (g : Frame). g.packet_1.before) s ∙ y) in
    let two = complete_frame-ready (record e { is_ready = true }) n refl complete m in
    ap
      (λ (r : LockstepEngine × Option ℕ).
        (r.1, (complete_frame r.0).1, (complete_frame r.0).0.next))
      one
    ∙ ap₂
        (λ (g : Frame) (r : LockstepEngine × Bool).
          (some (bit_or g.packet_0.input g.packet_1.input), r.1, r.0.next))
        s two

-- The two packets in either order make one frame.
store-both :
    (n : ℕ) (p q : Packet)
    → p.peer ≡ 0
    → q.peer ≡ 1
    → (store (store (fresh_frame n) p) q
        ≡ record (fresh_frame n) { packet_0 = p; packet_1 = q; received = 3 })
      × (store (store (fresh_frame n) q) p
          ≡ record (fresh_frame n) { packet_0 = p; packet_1 = q; received = 3 })
unfolding store
store-both n p q a b = ground arith

-- An engine without a fault has nothing yet for the frame at hand, and a packet of each peer for it
-- arrives, both from the state `before`. Then, in whichever order the two arrive, `accept` takes both
-- and leaves one and the same engine; `ready` gives that state the union of the two masks; and
-- `complete_frame` goes on to the next frame, unless the counter of 64 bits is at its end.
pub two_packets_run_the_frame :
    {Q : Packet → Type 0} (e : LockstepEngine) (before : Digest) (p q : Packet)
    → IsValid Q e
    → e.fault ≡ no_fault
    → e.next < 2 ^ 64 - 1
    → holds (current e) e.next ≡ false
    → Arrives e before 0 p
    → Arrives e before 1 q
    → ((accept e p).1 ≡ true)
      × ((accept e q).1 ≡ true)
      × (accept (accept e p).0 q ≡ accept (accept e q).0 p)
      × (run_frame (accept (accept e p).0 q).0 before
          ≡ (some (bit_or p.input q.input), true, e.next + 1))
two_packets_run_the_frame e before p q ok n m o a b =
    let f = record (fresh_frame e.next) { packet_0 = p; packet_1 = q; received = 3 } in
    let (p_first, pq) =
      accept-both e before 0 1 p q ok.frames_size n o (omega arith) (omega arith) (omega arith) a
        b in
    let (q_first, qp) =
      accept-both e before 1 0 q p ok.frames_size n o (omega arith) (omega arith) (omega arith) b
        a in
    let (left, right) = store-both e.next p q a.of_peer b.of_peer in
    let end_pq = pq ∙ ap (λ (g : Frame). (with_frame e g, true)) left in
    let end_qp = qp ∙ ap (λ (g : Frame). (with_frame e g, true)) right in
    (
      p_first,
      q_first,
      end_pq ∙ sym end_qp,
      ap (λ (r : LockstepEngine × Bool). run_frame r.0 before) end_pq
          ∙ frame_runs (with_frame e f) before f n m
              (get_or-set_self {A = Frame} e.frames (e.next % 128) f no_frame
                (omega (arith, ok.frames_size)))
              (ground arith) a.before_lem b.before_lem,
    )
