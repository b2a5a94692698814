-- ===== src/Netplay/Agreement.antt =====
-- Two machines that run the protocol apply the same input to the same frame.
use Prim.Native.Nat.{bit_or}
use proto_time.Base.{
  ℕ, ◌-◌, ◌%◌, set, ◌<◌, ◌≡◌, ◌≢◌, inl, inr, refl, sym, ap, ap₂, ◌∙◌, subst, Bool, true, false, not,
  ◌&&◌, ◌||◌, List, Option, some, arith, get_or, ltb, leb, ◌==◌, if◌then◌else◌, if-split,
  Bool-cases,
}
use proto_time.Base.Bits.{test_bit}
use proto_time.Base.Outcome.{done}
use proto_time.Netplay.Types.{
  Digest, Fault, no_fault, conflicting_input, invalid_packet, binding_mismatch, window_exhausted,
  valid_packet, same_binding, Binding, Packet, same_bytes, same_bytes_lem, same_packet,
  same_packet_self,
}
use proto_time.Netplay.Engine.{
  Frame, LockstepEngine, no_frame, fresh_frame, start, is_fault, fail, holds, packet_of,
  accept_again, accept_past, accept_current, accept, current, is_complete, ready,
}
use proto_time.Netplay.Valid.{Event, run, AllSent, PacketOk, FrameOk, IsValid}
use proto_time.Netplay.Invariant.{run-IsValid, start-IsValid}
use proto_time.Netplay.Entries.{find-Taken, valid_packet-peer}

pub started-IsValid :
    (Q : Packet → Type 0) (b : Binding) (e : LockstepEngine) → start b ≡ done e → IsValid Q e
started-IsValid Q b e s = elim (start-IsValid Q b) [
  | inl (v, t) ↦ ground arith
  | inr (e', t, ok, n, bd) ↦ subst (IsValid Q) (ground arith) ok
]

-- What `ready` lets through: a packet of either peer, checked, of this session and of the frame at
-- hand, sent from the state `before`, and the union of their masks.
pub record Admitted (Q : Packet → Type 0) (e : LockstepEngine) (before : Digest) (mask : ℕ)
    : Type 0 where
  pub first : Packet
  pub second : Packet
  pub first_ok : PacketOk Q e.binding e.next 0 first
  pub second_ok : PacketOk Q e.binding e.next 1 second
  pub first_before : first.before ≡ before
  pub second_before : second.before ≡ before
  pub mask_lem : mask ≡ bit_or first.input second.input

Admitted-frame :
    (Q : Packet → Type 0) (e : LockstepEngine) (f : Frame) (before : Digest)
    → FrameOk Q e.binding f
    → is_complete f e.next ≡ true
    → same_bytes f.packet_0.before before ≡ true
    → same_bytes f.packet_1.before before ≡ true
    → Admitted Q e before (bit_or f.packet_0.input f.packet_1.input)
Admitted-frame Q e f before ok c s t = record {
  first = f.packet_0;
  second = f.packet_1;
  first_ok = ground (arith, ok.packet_0_ok);
  second_ok = ground (arith, ok.packet_1_ok);
  first_before = same_bytes_lem f.packet_0.before before s;
  second_before = same_bytes_lem f.packet_1.before before t;
  mask_lem = refl;
}

-- When `ready` gives a mask, the engine had no fault and holds a checked packet of each peer, of this
-- session and of the frame at hand, both sent from the given state; the mask is the union of theirs.
pub ready_lem :
    {Q : Packet → Type 0} (e after : LockstepEngine) (before : Digest) (mask : ℕ)
    → IsValid Q e
    → ready e before ≡ (after, some mask)
    → (e.fault ≡ no_fault) × Admitted Q e before mask
unfolding ready
ready_lem {Q} e after before mask ok =
    let f = current e in
    let P : LockstepEngine × Option ℕ → Type 0 =
      λ r. r ≡ (after, some mask) → (e.fault ≡ no_fault) × Admitted Q e before mask in
    if-split P (is_fault e.fault) (λ _ r. ground arith)
      (λ n.
        if-split P (not (is_complete f e.next)) (λ _ r. ground arith)
          (λ c.
            if-split P
              (not (same_bytes f.packet_0.before before)
                || not (same_bytes f.packet_1.before before))
              (λ _ r. ground arith)
              (λ s r. (
                ground arith,
                subst (Admitted Q e before) (ground arith) (
                    Admitted-frame Q e f before (ok.entries (e.next % 128) (omega arith)).frame_ok
                      (ground arith) (ground arith) (ground arith)),
              ))))

-- The packets of a session in which each peer sends one packet for a frame.
abbrev pub Scheduled : (ℕ → ℕ → Packet) → Packet → Type 0
Scheduled sent p = p ≡ sent p.frame p.peer

Scheduled-mask :
    (sent : ℕ → ℕ → Packet) (e : LockstepEngine) (before : Digest) (mask : ℕ)
    → Admitted (Scheduled sent) e before mask
    → mask ≡ bit_or (sent e.next 0).input (sent e.next 1).input
Scheduled-mask sent e before mask a =
    a.mask_lem
    ∙ ap₂ (λ (p q : Packet). bit_or p.input q.input)
        (a.first_ok.known ∙ ap₂ sent a.first_ok.of_frame a.first_ok.of_peer)
        (a.second_ok.known ∙ ap₂ sent a.second_ok.of_frame a.second_ok.of_peer)

-- Two engines are started, and both live through any events in any order: packets of a session in which
-- each peer sends one packet for a frame, with losses, repetitions and delays of any kind; attempts to
-- run a frame; faults. If both then stand at the same frame and `ready` gives both a mask, the masks
-- are equal: the union of what the two peers sent for that frame.
pub lockstep_agreement :
    (sent : ℕ → ℕ → Packet) (b c : Binding) (d e r s : LockstepEngine) (xs ys : List Event)
    (before_d before_e : Digest) (mask_d mask_e : ℕ)
    → start b ≡ done d
    → start c ≡ done e
    → AllSent (Scheduled sent) xs
    → AllSent (Scheduled sent) ys
    → (run d xs).next ≡ (run e ys).next
    → ready (run d xs) before_d ≡ (r, some mask_d)
    → ready (run e ys) before_e ≡ (s, some mask_e)
    → (mask_d ≡ mask_e)
      × (mask_d ≡ bit_or (sent (run d xs).next 0).input (sent (run d xs).next 1).input)
lockstep_agreement sent b c d e r s xs ys before_d before_e mask_d mask_e sd se qx qy n rd re =
    let Q = Scheduled sent in
    let one =
      ready_lem (run d xs) r before_d mask_d (run-IsValid Q d xs (started-IsValid Q b d sd) qx)
        rd in
    let two =
      ready_lem (run e ys) s before_e mask_e (run-IsValid Q e ys (started-IsValid Q c e se) qy)
        re in
    let mask_one = Scheduled-mask sent (run d xs) before_d mask_d one.1 in
    let mask_two = Scheduled-mask sent (run e ys) before_e mask_e two.1 in (ground arith, mask_one)

-- The packet that is stored for a frame is the one that arrives again.
stored_again :
    (sent : ℕ → ℕ → Packet) (b : Binding) (f : Frame) (p : Packet)
    → FrameOk (Scheduled sent) b f
    → f.number ≡ p.frame
    → p.peer < 2
    → test_bit p.peer f.received ≡ true
    → Scheduled sent p
    → packet_of f p.peer ≡ p
stored_again sent b f p ok n h t q = elim (Bool-cases (p.peer == 0)) [
  | inl z ↦
      let zero_peer : p.peer ≡ 0 = ground arith in
      let k = ok.packet_0_ok (ap (λ k. test_bit k f.received) (sym zero_peer) ∙ t) in
      ap (packet_of f) zero_peer
      ∙ k.known
      ∙ ap₂ sent (k.of_frame ∙ n) (k.of_peer ∙ sym zero_peer)
      ∙ sym q
  | inr z ↦
      let one_peer : p.peer ≡ 1 = ground arith in
      let k = ok.packet_1_ok (ap (λ k. test_bit k f.received) (sym one_peer) ∙ t) in
      ap (packet_of f) one_peer
      ∙ k.known
      ∙ ap₂ sent (k.of_frame ∙ n) (k.of_peer ∙ sym one_peer)
      ∙ sym q
]

NoConflict : LockstepEngine × Bool → Type 0
NoConflict r = r.0.fault ≢ conflicting_input

fail-NoConflict :
    (e : LockstepEngine) (fault : Fault)
    → e.fault ≢ conflicting_input
    → fault ≢ conflicting_input
    → NoConflict (fail e fault, false)
unfolding NoConflict fail
fail-NoConflict e fault n m =
    if-split (λ (r : LockstepEngine). r.fault ≢ conflicting_input) (is_fault e.fault) (λ _. n)
      (λ _. m)

again-NoConflict :
    (e : LockstepEngine) (f : Frame) (p : Packet)
    → packet_of f p.peer ≡ p
    → e.fault ≢ conflicting_input
    → NoConflict (accept_again e f p)
unfolding accept_again NoConflict
again-NoConflict e f p same n =
    if-split NoConflict (same_packet (packet_of f p.peer) p) (λ _. n)
      (λ d. absurd (ground (arith, ap (λ r. same_packet r p) same, same_packet_self p)))

module _ (sent : ℕ → ℕ → Packet) (e : LockstepEngine) (p : Packet) (ok : IsValid (Scheduled sent) e)
    (q : Scheduled sent p) (h : p.peer < 2) (n : e.fault ≢ conflicting_input) where
  past-NoConflict : NoConflict (accept_past e p)
  unfolding accept_past NoConflict
  past-NoConflict =
      let f = get_or e.history (p.frame % 128) no_frame in
      if-split NoConflict (not (holds f p.frame)) (λ _. n)
        (λ o.
          if-split NoConflict (test_bit p.peer f.received)
            (λ t.
              again-NoConflict e f p
                (stored_again sent e.binding f p (ok.pasts (p.frame % 128) (omega arith)).frame_ok
                  (ground arith) h t q)
                n)
            (λ _. n))

  current-NoConflict : NoConflict (accept_current e p)
  unfolding accept_current NoConflict
  current-NoConflict =
      let old = get_or e.frames (p.frame % 128) no_frame in
      let f = if holds old p.frame then old else fresh_frame p.frame in
      let t = find-Taken (Scheduled sent) e p.frame ok in
      if-split NoConflict (test_bit p.peer f.received)
        (λ r.
          again-NoConflict (record e { frames = set e.frames (p.frame % 128) f }) f p
            (stored_again sent e.binding f p t.taken_ok t.taken_number h r q) n)
        (λ _. n)

-- Where each peer sends one packet for a frame, `accept` finds no conflict in any state.
accept_finds_no_conflict :
    (sent : ℕ → ℕ → Packet) (e : LockstepEngine) (p : Packet)
    → IsValid (Scheduled sent) e
    → p ≡ sent p.frame p.peer
    → e.fault ≢ conflicting_input
    → (accept e p).0.fault ≢ conflicting_input
unfolding accept NoConflict
accept_finds_no_conflict sent e p ok q n =
    if-split NoConflict (is_fault e.fault) (λ _. n)
      (λ _.
        if-split NoConflict (not (valid_packet p))
          (λ _. fail-NoConflict e invalid_packet n (ground arith))
          (λ v.
            let h = valid_packet-peer p (ground arith) in
            if-split NoConflict (not (same_binding p.binding e.binding))
              (λ _. fail-NoConflict e binding_mismatch n (ground arith))
              (λ _.
                if-split NoConflict (leb e.next p.frame && leb 128 (p.frame - e.next))
                  (λ _. fail-NoConflict e window_exhausted n (ground arith))
                  (λ _.
                    if-split NoConflict (ltb p.frame e.next)
                      (λ _. past-NoConflict sent e p ok q h n)
                      (λ _. current-NoConflict sent e p ok q h n)))))
