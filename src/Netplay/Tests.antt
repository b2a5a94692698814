-- ===== src/Netplay/Tests.antt =====
-- Runs of the lockstep protocol, and each theorem at an input that meets its hypotheses.
use Prim.Native.Nat.{bit_or}
use proto_time.Base.{
  ℕ, ◌+◌, ◌≡◌, refl, true, false, List, [], ◌∷◌, some, arith, length, replicate, ◌==◌,
  if◌then◌else◌,
}
use proto_time.Base.Outcome.{done}
use proto_time.Netplay.Types.{
  Digest, game_boy, Fault, no_fault, conflicting_input, disconnected, Binding, Packet, valid,
  valid_packet,
}
use proto_time.Netplay.Engine.{
  LockstepEngine, no_frame, start, invalid_binding, accept, ready, current, holds, is_complete,
}
use proto_time.Netplay.Valid.{Event, accepts, step, run, IsValid}
use proto_time.Netplay.Invariant.{run-IsValid}
use proto_time.Netplay.Agreement.{Scheduled, started-IsValid, lockstep_agreement}
use proto_time.Netplay.Arrivals.{Arrives}
use proto_time.Netplay.Progress.{run_frame, two_packets_run_the_frame}
use proto_time.Netplay.Faults.{fault_stops}
use proto_time.Netplay.Wire.{encode, decode}
use proto_time.Netplay.Sealed.{Fits}
use proto_time.Netplay.RoundTrip.{decode-encode}

abbrev digest : ℕ → Digest
digest b = b ∷ replicate 31 0

abbrev binding : Binding
binding = record {
  core = game_boy;
  session = digest 1;
  rom = digest 2;
  configuration = digest 3;
  generation = 7;
  ownership_0 = 0x0f;
  ownership_1 = 0xf0;
}

-- Both peers press one button of theirs in every frame.
abbrev sent : ℕ → ℕ → Packet
sent frame peer = record {
  binding = binding;
  frame = frame;
  before = digest 9;
  input = if peer == 0 then 1 else 16;
  peer = peer;
}

abbrev engine : LockstepEngine
engine = record {
  binding = binding;
  frames = replicate 128 no_frame;
  history = replicate 128 no_frame;
  next = 0;
  duplicates = 0;
  stale = 0;
  fault = no_fault;
  is_ready = false;
}

binding-valid : valid binding ≡ true
unfolding valid
binding-valid = refl

engine-start : start binding ≡ done engine
unfolding start valid
engine-start = refl

abbrev both_packets : List Event
both_packets = accepts (sent 0 0) ∷ accepts (sent 0 1) ∷ []

abbrev other_order : List Event
other_order = accepts (sent 0 1) ∷ accepts (sent 0 0) ∷ accepts (sent 0 1) ∷ []

engine-IsValid : (Q : Packet → Type 0) → IsValid Q engine
engine-IsValid Q = started-IsValid Q binding engine engine-start

accept_run : (run engine both_packets).fault ≡ no_fault
unfolding run step accept proto_time.Netplay.Engine.accept_current proto_time.Netplay.Engine.store
    valid_packet valid proto_time.Netplay.Types.same_binding
accept_run = refl

run-IsValid_example : IsValid (Scheduled sent) (run engine both_packets)
run-IsValid_example =
    run-IsValid (Scheduled sent) engine both_packets (engine-IsValid (Scheduled sent))
      (refl, (refl, tt))

ready-run :
    ready (run engine both_packets) (digest 9)
    ≡ ((ready (run engine both_packets) (digest 9)).0, some 17)
unfolding ready run step accept proto_time.Netplay.Engine.accept_current
    proto_time.Netplay.Engine.store valid_packet valid proto_time.Netplay.Types.same_binding
ready-run = refl

other_run :
    ready (run engine other_order) (digest 9)
    ≡ ((ready (run engine other_order) (digest 9)).0, some 17)
unfolding ready run step accept proto_time.Netplay.Engine.accept_current
    proto_time.Netplay.Engine.accept_again proto_time.Netplay.Engine.store valid_packet valid
    proto_time.Netplay.Types.same_binding proto_time.Netplay.Types.same_packet
other_run = refl

same_next : (run engine both_packets).next ≡ (run engine other_order).next
unfolding run step accept proto_time.Netplay.Engine.accept_current
    proto_time.Netplay.Engine.accept_again proto_time.Netplay.Engine.store valid_packet valid
    proto_time.Netplay.Types.same_binding proto_time.Netplay.Types.same_packet
same_next = refl

lockstep_agreement_example :
    (◌≡◌ {A = ℕ} 17 17)
    × (17
        ≡ bit_or
            (sent (run engine both_packets).next 0).input
            (sent (run engine both_packets).next 1).input)
lockstep_agreement_example =
    lockstep_agreement sent binding binding engine engine
      (ready (run engine both_packets) (digest 9)).0 (ready (run engine other_order) (digest 9)).0
      both_packets other_order (digest 9) (digest 9) 17 17 engine-start engine-start
      (refl, (refl, tt)) (refl, (refl, (refl, tt))) same_next ready-run other_run

arrives :
    (peer : ℕ) → valid_packet (sent 0 peer) ≡ true → Arrives engine (digest 9) peer (sent 0 peer)
arrives peer v = record {
  checked = v;
  bound = refl;
  of_frame = refl;
  of_peer = refl;
  before_lem = refl;
}

sent-valid_0 : valid_packet (sent 0 0) ≡ true
unfolding valid_packet valid
sent-valid_0 = refl

sent-valid_1 : valid_packet (sent 0 1) ≡ true
unfolding valid_packet valid
sent-valid_1 = refl

two_packets_run_the_frame_example :
    ((accept engine (sent 0 0)).1 ≡ true)
    × ((accept engine (sent 0 1)).1 ≡ true)
    × (accept (accept engine (sent 0 0)).0 (sent 0 1)
        ≡ accept (accept engine (sent 0 1)).0 (sent 0 0))
    × (run_frame (accept (accept engine (sent 0 0)).0 (sent 0 1)).0 (digest 9)
        ≡ (some (bit_or 1 16), true, 0 + 1))
two_packets_run_the_frame_example =
    two_packets_run_the_frame engine (digest 9) (sent 0 0) (sent 0 1)
      (engine-IsValid (Scheduled sent)) refl (omega arith) refl (arrives 0 sent-valid_0)
      (arrives 1 sent-valid_1)

abbrev faulty : LockstepEngine
faulty = record engine { fault = disconnected }

fault_stops_example : run faulty both_packets ≡ faulty
fault_stops_example = fault_stops faulty both_packets (λ e. cc)

-- A function that gives 32 bytes, in the place of SHA-256.
abbrev sum_digest : List ℕ → Digest
sum_digest bytes = digest (length bytes)

sent-Fits : Fits (sent 0 0)
sent-Fits = record {
  session_size = refl;
  rom_size = refl;
  configuration_size = refl;
  before_size = refl;
  generation_bound = omega arith;
  frame_bound = omega arith;
}

decode-encode_example :
    (bytes : List ℕ) × (encode sum_digest (sent 0 0) ≡ done bytes)
    × (length bytes ≡ 196)
    × (decode sum_digest bytes ≡ some (sent 0 0))
decode-encode_example = decode-encode sum_digest (sent 0 0) (λ bytes. refl) sent-valid_0 sent-Fits
