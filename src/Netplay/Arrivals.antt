-- ===== src/Netplay/Arrivals.antt =====
-- Packets for the frame at hand: what `accept` does with the first and with the second.

use proto_time.Base.{
  ℕ, zero, suc, ◌-◌, ◌%◌, ◌<◌, ◌≡◌, ◌≢◌, refl, ap, ◌∙◌, Bool, true, false, not, ◌&&◌, List, [], ◌∷◌,
  arith, get_or, set, length, get_or-set_self, ltb, leb, if◌then◌else◌, if-split, if_of_true,
  if_of_false,
}
use proto_time.Base.Bits.{test_bit}
use proto_time.Netplay.Types.{
  Digest, no_fault, Packet, valid_packet, same_binding, same_binding_self,
}
use proto_time.Netplay.Engine.{
  Frame, LockstepEngine, no_frame, fresh_frame, store, is_fault, holds, accept_again,
  accept_current, accept, current,
}
use proto_time.Netplay.Entries.{store-frame}

-- A packet of a peer that the engine takes for the frame at hand.
pub record Arrives (e : LockstepEngine) (before : Digest) (peer : ℕ) (p : Packet) : Type 0 where
  pub checked : valid_packet p ≡ true
  pub bound : p.binding ≡ e.binding
  pub of_frame : p.frame ≡ e.next
  pub of_peer : p.peer ≡ peer
  pub before_lem : p.before ≡ before

accept-current :
    (e : LockstepEngine) (before : Digest) (peer : ℕ) (p : Packet)
    → e.fault ≡ no_fault
    → Arrives e before peer p
    → accept e p ≡ accept_current e p
unfolding accept
accept-current e before peer p n a =
    let G : LockstepEngine × Bool → Type 0 = λ r. r ≡ accept_current e p in
    let bound : same_binding p.binding e.binding ≡ true =
      ap (λ b. same_binding b e.binding) a.bound ∙ same_binding_self e.binding in
    if-split G (is_fault e.fault) (λ h. ground arith)
      (λ _.
        if-split G (not (valid_packet p)) (λ h. ground (arith, a.checked))
          (λ _.
            if-split G (not (same_binding p.binding e.binding)) (λ h. ground (arith, bound))
              (λ _.
                if-split G (leb e.next p.frame && leb 128 (p.frame - e.next))
                  (λ h. ground (arith, a.of_frame))
                  (λ _.
                    if-split G (ltb p.frame e.next) (λ h. ground (arith, a.of_frame))
                      (λ _. refl)))))

-- The engine with this frame at hand.
abbrev pub with_frame : LockstepEngine → Frame → LockstepEngine
with_frame e f = record e { frames = set e.frames (e.next % 128) f }

-- `accept_current` from the frame that it found or took over.
abbrev enter : LockstepEngine → ℕ → Frame → Packet → LockstepEngine × Bool
enter e n f p =
    if test_bit p.peer f.received
    then accept_again (record e { frames = set e.frames (n % 128) f }) f p
    else (record e { frames = set e.frames (n % 128) (store f p) }, true)

abbrev found : LockstepEngine → ℕ → Frame
found e n =
    let old = get_or e.frames (n % 128) no_frame in if holds old n then old else fresh_frame n

enter_lem :
    (e : LockstepEngine) (f : Frame) (before : Digest) (peer : ℕ) (p : Packet)
    → e.fault ≡ no_fault
    → found e e.next ≡ f
    → test_bit peer f.received ≡ false
    → Arrives e before peer p
    → accept e p ≡ (with_frame e (store f p), true)
unfolding accept_current
enter_lem e f before peer p n o t a =
    let clear : test_bit p.peer f.received ≡ false =
      ap (λ k. test_bit k f.received) a.of_peer ∙ t in
    accept-current e before peer p n a
    ∙ ap (λ k. enter e k (found e k) p) a.of_frame
    ∙ ap (λ g. enter e e.next g p) o
    ∙ if-split (λ (r : LockstepEngine × Bool). r ≡ (with_frame e (store f p), true))
        (test_bit p.peer f.received) (λ h. ground (arith, clear)) (λ _. refl)

with_frame-twice : (fs : List Frame) (i : ℕ) (f g : Frame) → set (set fs i f) i g ≡ set fs i g
with_frame-twice [] i f g = refl
with_frame-twice (x ∷ fs) zero f g = refl
with_frame-twice (x ∷ fs) (suc i) f g = ap (λ r. x ∷ r) (with_frame-twice fs i f g)

found-with :
    (e : LockstepEngine) (f : Frame)
    → length e.frames ≡ 128
    → holds f e.next ≡ true
    → found (with_frame e f) e.next ≡ f
found-with e f s h =
    ap (λ (g : Frame). if holds g e.next then g else fresh_frame e.next)
      (get_or-set_self {A = Frame} e.frames (e.next % 128) f no_frame (omega (arith, s)))
    ∙ if_of_true _ h

no_bits : (k : ℕ) → k < 2 → test_bit k 0 ≡ false
no_bits zero h = refl
no_bits (suc zero) h = refl
no_bits (suc (suc k)) h = absurd (omega arith)

-- The bit of the one peer is not set by the other.
store-bit :
    (f : Frame) (p : Packet) (k l : ℕ)
    → f.received ≡ 0
    → p.peer ≡ k
    → k < 2
    → l < 2
    → k ≢ l
    → test_bit l (store f p).received ≡ false
unfolding store
store-bit f p zero zero z e h i n = absurd (n refl)
store-bit f p zero (suc zero) z e h i n = ground arith
store-bit f p (suc zero) zero z e h i n = ground arith
store-bit f p (suc zero) (suc zero) z e h i n = absurd (n refl)
store-bit f p (suc (suc k)) l z e h i n = absurd (omega arith)
store-bit f p k (suc (suc l)) z e h i n = absurd (omega arith)

holds-store : (n : ℕ) (p : Packet) → holds (store (fresh_frame n) p) n ≡ true
holds-store n p = ground (arith, store-frame (fresh_frame n) p)

pub accept-both :
    (e : LockstepEngine) (before : Digest) (k l : ℕ) (p q : Packet)
    → length e.frames ≡ 128
    → e.fault ≡ no_fault
    → holds (current e) e.next ≡ false
    → k ≢ l
    → k < 2
    → l < 2
    → Arrives e before k p
    → Arrives e before l q
    → ((accept e p).1 ≡ true)
      × (accept (accept e p).0 q ≡ (with_frame e (store (store (fresh_frame e.next) p) q), true))
accept-both e before k l p q s n o kl kb lb a b =
    let f = store (fresh_frame e.next) p in
    let e1 = with_frame e f in
    let one = enter_lem e (fresh_frame e.next) before k p n (if_of_false _ o) (no_bits k kb) a in
    let two =
      enter_lem e1 f before l q n (found-with e f s (holds-store e.next p))
        (store-bit (fresh_frame e.next) p k l refl a.of_peer kb lb kl)
        (record {
          checked = b.checked;
          bound = b.bound;
          of_frame = b.of_frame;
          of_peer = b.of_peer;
          before_lem = b.before_lem;
        }) in
    (
      ap (λ (r : LockstepEngine × Bool). r.1) one,
      ap (λ (r : LockstepEngine × Bool). accept r.0 q) one
          ∙ two
          ∙ ap (λ r. (record e { frames = r }, true))
              (with_frame-twice e.frames (e.next % 128) f (store f q)),
    )
