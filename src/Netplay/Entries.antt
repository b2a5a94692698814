-- ===== src/Netplay/Entries.antt =====
-- The entries of the two rings, and the operations on one of them.
use proto_time.Base.{
  ℕ, zero, suc, ◌+◌, ◌-◌, ◌%◌, ◌^◌, ◌≤◌, ◌<◌, ◌≡◌, ◌≢◌, refl, true, false, List, arith, length,
  get_or, set, replicate, ◌==◌, if◌then◌else◌, length-set, get_or-set_self, get_or-set_ne, if-keeps,
  if-split, ap, Bool-cases, inl, inr, subst, sym,
}
use proto_time.Base.Bits.{test_bit}
use proto_time.Netplay.Types.{Fault, conflicting_input, Binding, Packet, valid_packet}
use proto_time.Netplay.Engine.{
  Frame, LockstepEngine, no_frame, fresh_frame, is_fault, fail, holds, store, accept_again,
  accept_past, current, is_complete,
}
use proto_time.Netplay.Valid.{PacketOk, FrameOk, EntryOk, IsValid}

pub get_or-replicate : (n : ℕ) (f : Frame) (i : ℕ) → get_or (replicate n f) i f ≡ f
get_or-replicate zero f i = refl
get_or-replicate (suc n) f zero = refl
get_or-replicate (suc n) f (suc i) = get_or-replicate n f i

-- In the window of 128 frames a slot stands for one frame.
pub same_slot : (n a : ℕ) → n ≤ a → a < n + 128 → a % 128 ≡ n % 128 → a ≡ n
same_slot n a lo hi h = omega arith

pub valid_packet-peer : (p : Packet) → valid_packet p ≡ true → p.peer < 2
unfolding valid_packet
valid_packet-peer p v = ground arith

pub store-frame :
    (f : Frame) (p : Packet) → ((store f p).number ≡ f.number) × ((store f p).occupied ≡ f.occupied)
unfolding store
store-frame f p = ground arith

pub next_below : (n : ℕ) → n < 2 ^ 64 → (n == 2 ^ 64 - 1) ≡ false → n + 1 < 2 ^ 64
next_below n h m = ground arith

pub is_complete_lem :
    (f : Frame) (n : ℕ) → is_complete f n ≡ true → (f.number ≡ n) × (f.received ≡ 3)
is_complete_lem f n c = ground arith

-- In a complete frame the bit of either peer is set.
pub full-no_peer :
    (f : Frame) (peer : ℕ) → f.received ≡ 3 → peer < 2 → test_bit peer f.received ≡ false → ⊥
full-no_peer f peer e h n = elim (Bool-cases (peer == 0)) [
  | inl z ↦ ground arith
  | inr z ↦ ground (arith, one peer h (ground arith))
]
  where
    one : (k : ℕ) → k < 2 → k ≢ 0 → k ≡ 1
    one k h n = omega arith

module _ (Q : Packet → Type 0) where
  -- Setting one entry keeps what holds of all.
  pub set-All :
      (P : ℕ → Frame → Type 0) (fs : List Frame) (j : ℕ) (f : Frame)
      → length fs ≡ 128
      → ((i : ℕ) → i < 128 → P i (get_or fs i no_frame))
      → P j f
      → (i : ℕ) → i < 128
      → P i (get_or (set fs j f) i no_frame)
  set-All P fs j f s all new i h = elim (Bool-cases (i == j)) [
    | inl e ↦
        let p : i ≡ j = ground arith in
        subst (λ k. P k (get_or (set fs j f) k no_frame)) (sym p)
          (subst (P j) (sym (get_or-set_self {A = Frame} fs j f no_frame (omega arith))) new)
    | inr e ↦
        let p : j ≢ i = ground arith in
        subst (P i) (sym (get_or-set_ne {A = Frame} fs j i f no_frame p)) (all i h)
  ]

  pub store-FrameOk :
      (b : Binding) (f : Frame) (p : Packet)
      → FrameOk Q b f
      → Q p
      → valid_packet p ≡ true
      → p.binding ≡ b
      → p.frame ≡ f.number
      → p.peer < 2
      → test_bit p.peer f.received ≡ false
      → FrameOk Q b (store f p)
  unfolding store
  store-FrameOk b f p ok q v bd fr pe n =
      let here : (k : ℕ) → p.peer ≡ k → PacketOk Q b f.number k p =
        λ k e. record { known = q; checked = v; bound = bd; of_frame = fr; of_peer = e } in
      ground (arith, here 0, here 1)

  pub fail-IsValid : (e : LockstepEngine) (fault : Fault) → IsValid Q e → IsValid Q (fail e fault)
  unfolding fail
  fail-IsValid e fault ok = if-keeps (IsValid Q) (is_fault e.fault) ok (record {
    session = ok.session;
    frames_size = ok.frames_size;
    history_size = ok.history_size;
    next_bound = ok.next_bound;
    entries = ok.entries;
    pasts = ok.pasts;
    ready_complete = ok.ready_complete;
  })

  pub count-IsValid :
      (e : LockstepEngine) (duplicates stale : ℕ)
      → IsValid Q e
      → IsValid Q (record e { duplicates = duplicates; stale = stale })
  count-IsValid e duplicates stale ok = record {
    session = ok.session;
    frames_size = ok.frames_size;
    history_size = ok.history_size;
    next_bound = ok.next_bound;
    entries = ok.entries;
    pasts = ok.pasts;
    ready_complete = ok.ready_complete;
  }

  pub accept_again-IsValid :
      (e : LockstepEngine) (f : Frame) (p : Packet) → IsValid Q e → IsValid Q (accept_again e f p).0
  unfolding accept_again
  accept_again-IsValid e f p ok = ground (
    arith,
    count-IsValid e ((e.duplicates + 1) % 2 ^ 64) e.stale ok,
    fail-IsValid e conflicting_input ok,
  )

  pub accept_past-IsValid :
      (e : LockstepEngine) (p : Packet) → IsValid Q e → IsValid Q (accept_past e p).0
  unfolding accept_past
  accept_past-IsValid e p ok =
      let f = get_or e.history (p.frame % 128) no_frame in
      ground (
        arith,
        count-IsValid e e.duplicates ((e.stale + 1) % 2 ^ 64) ok,
        accept_again-IsValid e f p ok,
      )

  -- A frame that is put into its slot of `frames_` and keeps a complete frame complete.
  pub put-IsValid :
      (e : LockstepEngine) (n : ℕ) (f : Frame)
      → IsValid Q e
      → FrameOk Q e.binding f
      → f.occupied ≡ true
      → f.number ≡ n
      → e.next ≤ n
      → n < e.next + 128
      → (is_complete (current e) e.next ≡ true → n ≡ e.next → f.received ≡ 3)
      → IsValid Q (record e { frames = set e.frames (n % 128) f })
  put-IsValid e n f ok fok o num lo hi keep =
      let j = n % 128 in
      record {
        session = ok.session;
        frames_size = omega (arith, ok.frames_size, length-set {A = Frame} e.frames j f);
        history_size = ok.history_size;
        next_bound = ok.next_bound;
        entries =
            set-All (EntryOk Q e.binding e.next) e.frames j f ok.frames_size ok.entries (record {
              frame_ok = fok;
              slot = λ _. ap (λ k. k % 128) num;
              window = λ _. omega arith;
            });
        pasts = ok.pasts;
        ready_complete = λ r. ground (
          arith,
          ok.ready_complete r,
          get_or-set_self {A = Frame} e.frames j f no_frame,
          get_or-set_ne {A = Frame} e.frames j (e.next % 128) f no_frame,
          same_slot e.next n lo hi,
        );
      }

  -- The frame that `accept_current` finds or takes over.
  pub record Taken (e : LockstepEngine) (n : ℕ) (f : Frame) : Type 0 where
    pub taken_ok : FrameOk Q e.binding f
    pub taken_occupied : f.occupied ≡ true
    pub taken_number : f.number ≡ n
    pub taken_complete : is_complete (current e) e.next ≡ true → n ≡ e.next → f.received ≡ 3

  pub find-Taken :
      (e : LockstepEngine) (n : ℕ)
      → IsValid Q e
      → (let old = get_or e.frames (n % 128) no_frame in
          Taken e n (if holds old n then old else fresh_frame n))
  find-Taken e n ok =
      let old = get_or e.frames (n % 128) no_frame in
      let entry = ok.entries (n % 128) (omega arith) in
      if-split (Taken e n) (holds old n)
        (λ h. record {
          taken_ok = entry.frame_ok;
          taken_occupied = ground arith;
          taken_number = ground arith;
          taken_complete = λ c s. ground (arith, ap (λ k. get_or e.frames (k % 128) no_frame) s);
        })
        (λ h. record {
          taken_ok = record {
            two_bits = omega arith;
            packet_0_ok = λ t. ground arith;
            packet_1_ok = λ t. ground arith;
          };
          taken_occupied = refl;
          taken_number = refl;
          taken_complete = λ c s. ground (arith, ap (λ k. get_or e.frames (k % 128) no_frame) s);
        })
