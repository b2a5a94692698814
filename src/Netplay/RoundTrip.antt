-- ===== src/Netplay/RoundTrip.antt =====
-- What `encode` writes is read back by `decode`.
use proto_time.Base.{
  ℕ, ◌≡◌, refl, sym, ap, ap₂, ◌∙◌, true, false, not, List, Option, some, arith, length, if_of_false,
  if-split,
}
use proto_time.Base.Outcome.{done}
use proto_time.Netplay.Types.{
  Digest, Packet, valid_packet, same_bytes, same_bytes_self, same_bytes_lem, nonzero,
}
use proto_time.Netplay.Wire.{slice, encode_body, encode, packet_at, header_ok, decode}
use proto_time.Netplay.Layout.{zeros}
use proto_time.Netplay.Sealed.{
  Fits, sealed, reads, length-sealed, packet_at-sealed, header_ok-sealed, sealed-head,
}

encode_lem :
    (sha256 : List ℕ → Digest) (p : Packet) (f : Fits p)
    → (s : length (sha256 (slice (encode_body p) 0 164)) ≡ 32) → valid_packet p ≡ true
    → encode sha256 p ≡ done (sealed p f (sha256 (slice (encode_body p) 0 164)) s)
unfolding encode sealed
encode_lem sha256 p f s v = if_of_false _ (ap not v)

zeros-nonzero : nonzero (zeros 9) ≡ false
unfolding zeros
zeros-nonzero = refl

decode_lem :
    (sha256 : List ℕ → Digest) (w : List ℕ) (p : Packet)
    → header_ok w ≡ true
    → nonzero (slice w 155 9) ≡ false
    → same_bytes (sha256 (slice w 0 164)) (slice w 164 32) ≡ true
    → packet_at w ≡ p
    → valid_packet p ≡ true
    → decode sha256 w ≡ some p
unfolding decode
decode_lem sha256 w p h z t e v =
    let valid_here : valid_packet (packet_at w) ≡ true = ap valid_packet e ∙ v in
    if_of_false _ (ap not h)
    ∙ if_of_false _ z
    ∙ if_of_false _ (ap not t)
    ∙ if_of_false _ (ap not valid_here)
    ∙ ap some e

-- A valid packet whose fields have the sizes of their types is encoded, in 196 bytes, and decodes to
-- the packet itself. Of SHA-256 it matters only that a digest has 32 bytes.
pub decode-encode :
    (sha256 : List ℕ → Digest) (p : Packet)
    → ((bytes : List ℕ) → length (sha256 bytes) ≡ 32)
    → valid_packet p ≡ true
    → Fits p
    → (bytes : List ℕ) × (encode sha256 p ≡ done bytes)
      × (length bytes ≡ 196)
      × (decode sha256 bytes ≡ some p)
decode-encode sha256 p size v f =
    let d = sha256 (slice (encode_body p) 0 164) in
    let s = size (slice (encode_body p) 0 164) in
    (
      sealed p f d s,
      encode_lem sha256 p f s v,
      length-sealed p f d s,
      decode_lem sha256 (sealed p f d s) p (header_ok-sealed p f d s v)
          (ap nonzero (reads p f d s).8 ∙ zeros-nonzero)
          (ap₂ same_bytes (ap sha256 (sealed-head p f d s)) (reads p f d s).9 ∙ same_bytes_self d)
          (packet_at-sealed p f d s v) v,
    )

header_ok-length : (bytes : List ℕ) → header_ok bytes ≡ true → length bytes ≡ 196
unfolding header_ok
header_ok-length bytes h = ground arith

-- `decode` gives a packet only for 196 bytes whose last 32 are the digest of the others, and only a
-- valid packet.
pub decode_checks :
    (sha256 : List ℕ → Digest) (bytes : List ℕ) (p : Packet)
    → decode sha256 bytes ≡ some p
    → (length bytes ≡ 196)
      × (sha256 (slice bytes 0 164) ≡ slice bytes 164 32)
      × (valid_packet p ≡ true)
      × (p ≡ packet_at bytes)
unfolding decode
decode_checks sha256 bytes p =
    let G : Option Packet → Type 0 = λ r.
      r ≡ some p
      → (length bytes ≡ 196)
        × (sha256 (slice bytes 0 164) ≡ slice bytes 164 32)
        × (valid_packet p ≡ true)
        × (p ≡ packet_at bytes) in
    if-split G (not (header_ok bytes)) (λ _ e. ground arith)
      (λ h.
        if-split G (nonzero (slice bytes 155 9)) (λ _ e. ground arith)
          (λ _.
            if-split G (not (same_bytes (sha256 (slice bytes 0 164)) (slice bytes 164 32)))
              (λ _ e. ground arith)
              (λ t.
                if-split G (not (valid_packet (packet_at bytes))) (λ _ e. ground arith)
                  (λ v e.
                    let same : packet_at bytes ≡ p = ground arith in
                    (
                      header_ok-length bytes (ground arith),
                      same_bytes_lem (sha256 (slice bytes 0 164)) (slice bytes 164 32)
                          (ground arith),
                      ap valid_packet (sym same) ∙ ground arith,
                      sym same,
                    )))))
