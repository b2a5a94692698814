-- ===== src/Netplay/Invariant.antt =====
-- Every operation of the engine keeps the invariant.
use proto_time.Base.{
  ℕ, ◌+◌, ◌⊎◌, ◌-◌, ◌%◌, ◌^◌, ◌≤◌, ◌<◌, ◌≡◌, refl, Bool, true, false, not, ◌&&◌, ◌||◌, List, [],
  ◌∷◌, Option, arith, get_or, set, replicate, ltb, leb, ◌==◌, if◌then◌else◌, length-set, if-split,
  Bool-cases, inl, inr, subst, sym, ◌∙◌,
}
use proto_time.Base.Bits.{test_bit}
use proto_time.Base.Outcome.{done, throws}
use proto_time.Netplay.Types.{
  Digest, no_fault, invalid_packet, binding_mismatch, window_exhausted, fingerprint_mismatch,
  Binding, Packet, valid, valid_packet, same_binding, same_binding_lem, same_bytes,
}
use proto_time.Netplay.Engine.{
  Frame, LockstepEngine, no_frame, fresh_frame, invalid_binding, start, is_fault, holds, store,
  accept_current, accept, current, is_complete, ready, complete_frame,
}
use proto_time.Netplay.Valid.{
  Event, accepts, readies, completes, fails, step, run, Sent, AllSent, FrameOk, EntryOk, PastOk,
  IsValid,
}
use proto_time.Netplay.Entries.{
  get_or-replicate, valid_packet-peer, store-frame, next_below, is_complete_lem, full-no_peer,
  set-All, store-FrameOk, fail-IsValid, accept_again-IsValid, accept_past-IsValid, put-IsValid,
  find-Taken,
}

module _ (Q : Packet → Type 0) where
  accept_current-IsValid :
      (e : LockstepEngine) (p : Packet)
      → IsValid Q e
      → Q p
      → valid_packet p ≡ true
      → p.binding ≡ e.binding
      → e.next ≤ p.frame
      → p.frame < e.next + 128
      → IsValid Q (accept_current e p).0
  unfolding accept_current
  accept_current-IsValid e p ok q v bd lo hi =
      let old = get_or e.frames (p.frame % 128) no_frame in
      let f = if holds old p.frame then old else fresh_frame p.frame in
      let t = find-Taken Q e p.frame ok in
      let kept =
        put-IsValid Q e p.frame f ok t.taken_ok t.taken_occupied t.taken_number lo hi
          t.taken_complete in
      if-split (λ (r : LockstepEngine × Bool). IsValid Q r.0) (test_bit p.peer f.received)
        (λ h.
          accept_again-IsValid Q (record e { frames = set e.frames (p.frame % 128) f }) f p kept)
        (λ h.
          let peers = valid_packet-peer p v in
          let same = store-frame f p in
          put-IsValid Q e p.frame (store f p) ok
            (store-FrameOk Q e.binding f p t.taken_ok q v bd (sym t.taken_number) peers h)
            (same.1 ∙ t.taken_occupied) (same.0 ∙ t.taken_number) lo hi
            (λ c n. absurd (full-no_peer f p.peer (t.taken_complete c n) peers h)))

  accept-IsValid : (e : LockstepEngine) (p : Packet) → IsValid Q e → Q p → IsValid Q (accept e p).0
  unfolding accept
  accept-IsValid e p ok q =
      let P : LockstepEngine × Bool → Type 0 = λ r. IsValid Q r.0 in
      if-split P (is_fault e.fault) (λ _. ok)
        (λ _.
          if-split P (not (valid_packet p)) (λ _. fail-IsValid Q e invalid_packet ok)
            (λ v.
              if-split P (not (same_binding p.binding e.binding))
                (λ _. fail-IsValid Q e binding_mismatch ok)
                (λ b.
                  if-split P (leb e.next p.frame && leb 128 (p.frame - e.next))
                    (λ _. fail-IsValid Q e window_exhausted ok)
                    (λ w.
                      if-split P (ltb p.frame e.next) (λ _. accept_past-IsValid Q e p ok)
                        (λ l.
                          accept_current-IsValid e p ok q (ground arith)
                            (same_binding_lem p.binding e.binding (ground arith)) (ground arith)
                            (ground arith))))))

  ready-IsValid :
      (e : LockstepEngine) (before : Digest) → IsValid Q e → IsValid Q (ready e before).0
  unfolding ready
  ready-IsValid e before ok =
      let now : is_complete (current e) e.next ≡ true → IsValid Q (record e { is_ready = true }) =
        λ c. record {
          session = ok.session;
          frames_size = ok.frames_size;
          history_size = ok.history_size;
          next_bound = ok.next_bound;
          entries = ok.entries;
          pasts = ok.pasts;
          ready_complete = λ _. c;
        } in
      let f = current e in
      let P : LockstepEngine × Option ℕ → Type 0 = λ r. IsValid Q r.0 in
      if-split P (is_fault e.fault) (λ _. ok)
        (λ _.
          if-split P (not (is_complete f e.next)) (λ _. ok)
            (λ c.
              if-split P
                (not (same_bytes f.packet_0.before before)
                  || not (same_bytes f.packet_1.before before))
                (λ _. fail-IsValid Q e fingerprint_mismatch ok) (λ _. now (ground arith))))

  complete_frame-IsValid : (e : LockstepEngine) → IsValid Q e → IsValid Q (complete_frame e).0
  unfolding complete_frame
  complete_frame-IsValid e ok =
      let f = current e in
      let P : LockstepEngine × Bool → Type 0 = λ r. IsValid Q r.0 in
      if-split P (not e.is_ready || is_fault e.fault || not (is_complete f e.next)) (λ _. ok)
        (λ c.
          if-split P (e.next == 2 ^ 64 - 1) (λ _. fail-IsValid Q e window_exhausted ok)
            (λ m.
              let slot = e.next % 128 in
              let entry = ok.entries slot (omega arith) in
              let complete = is_complete_lem f e.next (ok.ready_complete (ground arith)) in
              record {
                session = ok.session;
                frames_size = ok.frames_size;
                history_size =
                    omega (arith, ok.history_size, length-set {A = Frame} e.history slot f);
                next_bound = next_below e.next ok.next_bound m;
                entries = λ i h.
                    let o = ok.entries i h in
                    record {
                      frame_ok = o.frame_ok;
                      slot = o.slot;
                      window = λ u. omega (arith, o.window u);
                    };
                pasts =
                    set-All Q (PastOk Q e.binding (e.next + 1)) e.history slot f ok.history_size
                      (λ i h.
                        let o = ok.pasts i h in
                        record {
                          frame_ok = o.frame_ok;
                          slot = o.slot;
                          past = λ u. omega (arith, o.past u);
                          full = o.full;
                        })
                      (record {
                        frame_ok = entry.frame_ok;
                        slot = entry.slot;
                        past = λ u. omega (arith, complete.0);
                        full = λ u. complete.1;
                      });
                ready_complete = λ r. ground arith;
              }))

  pub step-IsValid :
      (e : LockstepEngine) (x : Event) → IsValid Q e → Sent Q x → IsValid Q (step e x)
  unfolding step
  step-IsValid e (accepts p) ok q = accept-IsValid e p ok q
  step-IsValid e (readies before) ok q = ready-IsValid e before ok
  step-IsValid e completes ok q = complete_frame-IsValid e ok
  step-IsValid e (fails fault) ok q = fail-IsValid Q e fault ok

  -- Every sequence of events keeps a valid engine valid: the two rings of 128 frames hold only checked
  -- packets of the session, each in the slot and frame of its number, and the history only complete
  -- frames.
  pub run-IsValid :
      (e : LockstepEngine) (xs : List Event) → IsValid Q e → AllSent Q xs → IsValid Q (run e xs)
  unfolding run
  run-IsValid e [] ok q = ok
  run-IsValid e (x ∷ xs) ok q = run-IsValid (step e x) xs (step-IsValid e x ok q.0) q.1

  no_frame-FrameOk : (b : Binding) → FrameOk Q b no_frame
  no_frame-FrameOk b = record {
    two_bits = omega arith;
    packet_0_ok = λ t. ground arith;
    packet_1_ok = λ t. ground arith;
  }

  -- `start` makes a valid engine of a valid binding, at frame zero, and refuses every other one.
  pub start-IsValid :
      (b : Binding)
      → ((valid b ≡ false) × (start b ≡ throws invalid_binding))
        ⊎ ((e : LockstepEngine) × (start b ≡ done e) × IsValid Q e × (e.next ≡ 0) × (e.binding ≡ b))
  unfolding start
  start-IsValid b = elim (Bool-cases (valid b)) [
    | inr v ↦ inl (v, ground arith)
    | inl v ↦
        let empty = get_or-replicate 128 no_frame in
        inr (
          record {
            binding = b;
            frames = replicate 128 no_frame;
            history = replicate 128 no_frame;
            next = 0;
            duplicates = 0;
            stale = 0;
            fault = no_fault;
            is_ready = false;
          },
          ground arith,
          record {
            session = v;
            frames_size = refl;
            history_size = refl;
            next_bound = omega arith;
            entries = λ i h. subst (EntryOk Q b 0 i) (sym (empty i)) (record {
              frame_ok = no_frame-FrameOk b;
              slot = λ o. ground arith;
              window = λ o. omega arith;
            });
            pasts = λ i h. subst (PastOk Q b 0 i) (sym (empty i)) (record {
              frame_ok = no_frame-FrameOk b;
              slot = λ o. ground arith;
              past = λ o. ground arith;
              full = λ o. ground arith;
            });
            ready_complete = λ r. ground arith;
          },
          refl,
          refl,
        )
  ]
