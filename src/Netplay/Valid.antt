-- ===== src/Netplay/Valid.antt =====
-- The invariant of the engine: what its two rings of 128 frames hold, whatever arrives in what order.
use proto_time.Base.{ℕ, ◌+◌, ◌%◌, ◌^◌, ◌≤◌, ◌<◌, ◌≡◌, true, List, [], ◌∷◌, length, get_or}
use proto_time.Base.Bits.{test_bit}
use proto_time.Netplay.Types.{Digest, Fault, Binding, Packet, valid, valid_packet}
use proto_time.Netplay.Engine.{
  Frame, LockstepEngine, no_frame, fail, accept, current, is_complete, ready, complete_frame,
}

-- What can happen to an engine.
pub data Event : Type 0 where
  accepts : Packet → Event
  readies : Digest → Event
  completes : Event
  fails : Fault → Event

unfoldable pub step : LockstepEngine → Event → LockstepEngine
step e (accepts p) = (accept e p).0
step e (readies before) = (ready e before).0
step e completes = (complete_frame e).0
step e (fails fault) = fail e fault

unfoldable pub run : LockstepEngine → List Event → LockstepEngine
run e [] = e
run e (x ∷ xs) = run (step e x) xs

-- `Q` is what is known of the packets that arrive.
module _ (Q : Packet → Type 0) where
  abbrev pub Sent : Event → Type 0
  Sent (accepts p) = Q p
  Sent (readies before) = Unit {0}
  Sent completes = Unit {0}
  Sent (fails fault) = Unit {0}

  abbrev pub AllSent : List Event → Type 0
  AllSent [] = Unit {0}
  AllSent (x ∷ xs) = Sent x × AllSent xs

  -- The packet of a peer in the frame of a number.
  pub record PacketOk (b : Binding) (number peer : ℕ) (p : Packet) : Type 0 where
    pub known : Q p
    pub checked : valid_packet p ≡ true
    pub bound : p.binding ≡ b
    pub of_frame : p.frame ≡ number
    pub of_peer : p.peer ≡ peer

  pub record FrameOk (b : Binding) (f : Frame) : Type 0 where
    pub two_bits : f.received ≤ 3
    pub packet_0_ok : test_bit 0 f.received ≡ true → PacketOk b f.number 0 f.packet_0
    pub packet_1_ok : test_bit 1 f.received ≡ true → PacketOk b f.number 1 f.packet_1

  -- An entry of `frames_` is empty, or of its slot and below the end of the window.
  pub record EntryOk (b : Binding) (next i : ℕ) (f : Frame) : Type 0 where
    pub frame_ok : FrameOk b f
    pub slot : f.occupied ≡ true → f.number % 128 ≡ i
    pub window : f.occupied ≡ true → f.number < next + 128

  -- An entry of `history_` is empty, or a complete frame.
  pub record PastOk (b : Binding) (next i : ℕ) (f : Frame) : Type 0 where
    pub frame_ok : FrameOk b f
    pub slot : f.occupied ≡ true → f.number % 128 ≡ i
    pub past : f.occupied ≡ true → f.number < next
    pub full : f.occupied ≡ true → f.received ≡ 3

  pub record IsValid (e : LockstepEngine) : Type 0 where
    pub session : valid e.binding ≡ true
    pub frames_size : length e.frames ≡ 128
    pub history_size : length e.history ≡ 128
    pub next_bound : e.next < 2 ^ 64
    pub entries : (i : ℕ) → i < 128 → EntryOk e.binding e.next i (get_or e.frames i no_frame)
    pub pasts : (i : ℕ) → i < 128 → PastOk e.binding e.next i (get_or e.history i no_frame)
    pub ready_complete : e.is_ready ≡ true → is_complete (current e) e.next ≡ true
