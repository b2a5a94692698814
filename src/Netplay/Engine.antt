-- ===== src/Netplay/Engine.antt =====
-- machine/plugins/input/netplay/LockstepEngine.cpp: the class `LockstepEngine`.
use Prim.Native.Nat.{bit_or}
use proto_time.Base.{
  ℕ, ◌+◌, ◌-◌, ◌%◌, ◌^◌, Bool, true, false, not, ◌&&◌, ◌||◌, List, Option, none, some, get_or, set,
  replicate, ltb, leb, ◌==◌, if◌then◌else◌,
}
use proto_time.Base.Bits.{test_bit}
use proto_time.Base.Outcome.{Outcome, done, throws}
use proto_time.Netplay.Types.{
  Digest, other_core, Fault, no_fault, invalid_packet, binding_mismatch, conflicting_input,
  fingerprint_mismatch, window_exhausted, Binding, Packet, valid, valid_packet, same_binding,
  same_packet, same_bytes,
}

-- `received` has bit `k` for a packet of peer `k`; the two packets are the array `packets`.
pub record Frame : Type 0 where
  pub number : ℕ
  pub occupied : Bool
  pub received : ℕ
  pub packet_0 : Packet
  pub packet_1 : Packet

pub record LockstepEngine : Type 0 where
  pub binding : Binding
  pub frames : List Frame
  pub history : List Frame
  pub next : ℕ
  pub duplicates : ℕ
  pub stale : ℕ
  pub fault : Fault
  pub is_ready : Bool

-- `Packet{}`
abbrev pub no_packet : Packet
no_packet = record {
  binding = record {
    core = other_core 0;
    session = replicate 32 0;
    rom = replicate 32 0;
    configuration = replicate 32 0;
    generation = 0;
    ownership_0 = 0xff;
    ownership_1 = 0;
  };
  frame = 0;
  before = replicate 32 0;
  input = 0;
  peer = 0;
}

-- `Frame{}`, and a frame that is taken over for a number.
abbrev pub no_frame : Frame
no_frame = record {
  number = 0;
  occupied = false;
  received = 0;
  packet_0 = no_packet;
  packet_1 = no_packet;
}

abbrev pub fresh_frame : ℕ → Frame
fresh_frame number = record no_frame { number = number; occupied = true }

pub data EngineError : Type 0 where
  invalid_binding : EngineError

unfoldable pub start : Binding → Outcome EngineError LockstepEngine
start binding =
    if not (valid binding)
    then throws invalid_binding
    else done (record {
      binding = binding;
      frames = replicate 128 no_frame;
      history = replicate 128 no_frame;
      next = 0;
      duplicates = 0;
      stale = 0;
      fault = no_fault;
      is_ready = false;
    })

abbrev pub is_fault : Fault → Bool
is_fault no_fault = false
is_fault _ = true

-- The first fault is kept.
unfoldable pub fail : LockstepEngine → Fault → LockstepEngine
fail e fault = if is_fault e.fault then e else record e { fault = fault }

abbrev pub packet_of : Frame → ℕ → Packet
packet_of f peer = if peer == 0 then f.packet_0 else f.packet_1

abbrev pub holds : Frame → ℕ → Bool
holds f number = f.occupied && (f.number == number)

-- `frame.packets[p.peer] = p; frame.received |= bit`, where the bit is not set before.
unfoldable pub store : Frame → Packet → Frame
store f p =
    if p.peer == 0
    then record f { packet_0 = p; received = f.received + 1 }
    else record f { packet_1 = p; received = f.received + 2 }

abbrev pub count_duplicate : LockstepEngine → LockstepEngine
count_duplicate e = record e { duplicates = (e.duplicates + 1) % 2 ^ 64 }

abbrev pub count_stale : LockstepEngine → LockstepEngine
count_stale e = record e { stale = (e.stale + 1) % 2 ^ 64 }

-- A packet of a peer whose bit is set already.
unfoldable pub accept_again : LockstepEngine → Frame → Packet → LockstepEngine × Bool
accept_again e f p =
    if same_packet (packet_of f p.peer) p
    then (count_duplicate e, true)
    else (fail e conflicting_input, false)

-- A packet for a frame that is complete: `frame` is the entry of `history_`.
unfoldable pub accept_past : LockstepEngine → Packet → LockstepEngine × Bool
accept_past e p =
    let f = get_or e.history (p.frame % 128) no_frame in
    if not (holds f p.frame)
    then (count_stale e, true)
    else if test_bit p.peer f.received
    then accept_again e f p
    else (count_stale e, true)

-- A packet for the frame at hand or a later one: `frame` is the entry of `frames_`, taken over if it
-- is another frame's.
unfoldable pub accept_current : LockstepEngine → Packet → LockstepEngine × Bool
accept_current e p =
    let slot = p.frame % 128 in
    let old = get_or e.frames slot no_frame in
    let f = if holds old p.frame then old else fresh_frame p.frame in
    let taken = record e { frames = set e.frames slot f } in
    if test_bit p.peer f.received
    then accept_again taken f p
    else (record e { frames = set e.frames slot (store f p) }, true)

unfoldable pub accept : LockstepEngine → Packet → LockstepEngine × Bool
accept e p =
    if is_fault e.fault
    then (e, false)
    else if not (valid_packet p)
    then (fail e invalid_packet, false)
    else if not (same_binding p.binding e.binding)
    then (fail e binding_mismatch, false)
    else if leb e.next p.frame && leb 128 (p.frame - e.next)
    then (fail e window_exhausted, false)
    else if ltb p.frame e.next
    then accept_past e p
    else accept_current e p

abbrev pub current : LockstepEngine → Frame
current e = get_or e.frames (e.next % 128) no_frame

-- The entry is the frame at hand, with the packets of both peers.
abbrev pub is_complete : Frame → ℕ → Bool
is_complete f number = holds f number && (f.received == 3)

unfoldable pub ready : LockstepEngine → Digest → LockstepEngine × Option ℕ
ready e before =
    let f = current e in
    if is_fault e.fault
    then (e, none)
    else if not (is_complete f e.next)
    then (e, none)
    else if not (same_bytes f.packet_0.before before) || not (same_bytes f.packet_1.before before)
    then (fail e fingerprint_mismatch, none)
    else (record e { is_ready = true }, some (bit_or f.packet_0.input f.packet_1.input))

unfoldable pub complete_frame : LockstepEngine → LockstepEngine × Bool
complete_frame e =
    let f = current e in
    if not e.is_ready || is_fault e.fault || not (is_complete f e.next)
    then (e, false)
    else if e.next == 2 ^ 64 - 1
    then (fail e window_exhausted, false)
    else (
      record e { history = set e.history (e.next % 128) f; next = e.next + 1; is_ready = false },
      true,
    )
