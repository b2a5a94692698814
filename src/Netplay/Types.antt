-- ===== src/Netplay/Types.antt =====
-- machine/plugins/input/netplay/LockstepEngine.hpp: bindings, packets and faults, and `valid`.
use Prim.Native.Nat.{bit_and, bit_or}
use proto_time.Base.{
  ℕ, ◌-◌, ◌*◌, ◌≡◌, refl, Bool, true, false, not, ◌&&◌, ◌||◌, List, [], ◌∷◌, arith, ltb, ◌==◌,
  if◌then◌else◌,
}

-- A `Digest` is an array of 32 bytes.
abbrev pub Digest : Type 0
Digest = List ℕ

-- An enumeration of one byte: a byte that is cast to it may be none of the named values.
pub data Core : Type 0 where
  game_boy : Core
  game_gear : Core
  other_core : ℕ → Core

pub data Fault : Type 0 where
  no_fault : Fault
  invalid_packet : Fault
  binding_mismatch : Fault
  conflicting_input : Fault
  fingerprint_mismatch : Fault
  window_exhausted : Fault
  handoff_overflow : Fault
  disconnected : Fault
  generation_changed : Fault
  incompatible_machine : Fault
  execution_failure : Fault
  frame_overrun : Fault

-- The two masks of `ownership` say which buttons each peer may press.
pub record Binding : Type 0 where
  pub core : Core
  pub session : Digest
  pub rom : Digest
  pub configuration : Digest
  pub generation : ℕ
  pub ownership_0 : ℕ
  pub ownership_1 : ℕ

pub record Packet : Type 0 where
  pub binding : Binding
  pub frame : ℕ
  pub before : Digest
  pub input : ℕ
  pub peer : ℕ

abbrev pub nonzero : Digest → Bool
nonzero [] = false
nonzero (b ∷ d) = not (b == 0) || nonzero d

abbrev pub is_known : Core → Bool
is_known game_boy = true
is_known game_gear = true
is_known (other_core b) = false

unfoldable pub valid : Binding → Bool
valid b =
    is_known b.core
    && not (b.generation == 0)
    && nonzero b.session
    && nonzero b.rom
    && nonzero b.configuration
    && (bit_and b.ownership_0 b.ownership_1 == 0)
    && (bit_or b.ownership_0 b.ownership_1 == 0xff)

-- `ownership[peer]`
abbrev pub ownership : Binding → ℕ → ℕ
ownership b peer = if peer == 0 then b.ownership_0 else b.ownership_1

-- What `encode`, `decode` and `accept` ask of a packet: a valid binding, one of the two peers, and no
-- button of the other peer.
unfoldable pub valid_packet : Packet → Bool
valid_packet p =
    valid p.binding && ltb p.peer 2 && (bit_and p.input (0xff - ownership p.binding p.peer) == 0)

unfoldable pub cycles_per_frame : Core → ℕ
cycles_per_frame game_boy = 456 * 154
cycles_per_frame game_gear = 228 * 262
cycles_per_frame (other_core b) = 0

abbrev pub same_bytes : List ℕ → List ℕ → Bool
same_bytes [] [] = true
same_bytes [] (y ∷ ys) = false
same_bytes (x ∷ xs) [] = false
same_bytes (x ∷ xs) (y ∷ ys) = (x == y) && same_bytes xs ys

abbrev pub same_core : Core → Core → Bool
same_core game_boy game_boy = true
same_core game_gear game_gear = true
same_core (other_core x) (other_core y) = x == y
same_core _ _ = false

-- The two defaulted `operator==`.
unfoldable pub same_binding : Binding → Binding → Bool
same_binding a b =
    same_core a.core b.core
    && same_bytes a.session b.session
    && same_bytes a.rom b.rom
    && same_bytes a.configuration b.configuration
    && (a.generation == b.generation)
    && (a.ownership_0 == b.ownership_0)
    && (a.ownership_1 == b.ownership_1)

unfoldable pub same_packet : Packet → Packet → Bool
same_packet p q =
    same_binding p.binding q.binding
    && (p.frame == q.frame)
    && same_bytes p.before q.before
    && (p.input == q.input)
    && (p.peer == q.peer)

pub same_bytes_self : (xs : List ℕ) → same_bytes xs xs ≡ true
same_bytes_self [] = refl
same_bytes_self (x ∷ xs) = ground (arith, same_bytes_self xs)

pub same_bytes_lem : (xs ys : List ℕ) → same_bytes xs ys ≡ true → xs ≡ ys
same_bytes_lem [] [] h = refl
same_bytes_lem [] (y ∷ ys) h = ground arith
same_bytes_lem (x ∷ xs) [] h = ground arith
same_bytes_lem (x ∷ xs) (y ∷ ys) h = ground (arith, same_bytes_lem xs ys)

same_core_self : (c : Core) → same_core c c ≡ true
same_core_self game_boy = refl
same_core_self game_gear = refl
same_core_self (other_core x) = ground arith

same_core_lem : (c d : Core) → same_core c d ≡ true → c ≡ d
same_core_lem c d h = ground arith

pub same_binding_self : (b : Binding) → same_binding b b ≡ true
unfolding same_binding
same_binding_self b = ground (
  arith,
  same_core_self b.core,
  same_bytes_self b.session,
  same_bytes_self b.rom,
  same_bytes_self b.configuration,
)

pub same_binding_lem : (a b : Binding) → same_binding a b ≡ true → a ≡ b
unfolding same_binding
same_binding_lem a b h = ground (
  arith,
  same_core_lem a.core b.core,
  same_bytes_lem a.session b.session,
  same_bytes_lem a.rom b.rom,
  same_bytes_lem a.configuration b.configuration,
)

pub same_packet_self : (p : Packet) → same_packet p p ≡ true
unfolding same_packet
same_packet_self p = ground (arith, same_binding_self p.binding, same_bytes_self p.before)
