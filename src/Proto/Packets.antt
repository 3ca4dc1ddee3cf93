-- ===== src/Proto/Packets.antt =====
-- proto/proto.go: UDP packets, written and read back, one by one and as a stream.
use caochuan.Base.{
  ℕ, zero, suc, ◌%◌, ◌^◌, ◌<◌, ◌≡◌, refl, ap, ◌∙◌, false, List, [], ◌∷◌, ◌++◌, arith, length, All,
}
use mathlib.Core.List.{append-nil, append_assoc}
use caochuan.Proto.{
  Bytes, Result, ok, Writer, read_full, put_uint16, put_uint32, uint16, uint32, UdpPacket,
  write_udp_packet, read_udp_packet, read_packets, ◌>>=◌,
}
use caochuan.Proto.RoundTrip.{read_full-append}

-- What `WriteUDPPacket` puts on the wire.
abbrev encoded : UdpPacket → Bytes
encoded p = put_uint32 p.conn_id ++ (put_uint16 (length p.payload % 2 ^ 16) ++ p.payload)

abbrev pub Fits : UdpPacket → Type 0
Fits p = (p.conn_id < 2 ^ 32) × (length p.payload < 2 ^ 16)

uint16_written : (n : ℕ) → n < 2 ^ 16 → uint16 (put_uint16 (n % 2 ^ 16)) ≡ n
uint16_written n h = omega arith

uint32_written : (n : ℕ) → n < 2 ^ 32 → uint32 (put_uint32 n) ≡ n
uint32_written n h = omega arith

read-encoded :
    (p : UdpPacket) (rest : Bytes) → Fits p → read_udp_packet (encoded p ++ rest) ≡ ok (p, rest)
unfolding read_udp_packet
read-encoded p rest fits = ground (
  arith,
  read_full-append 6 (put_uint32 p.conn_id ++ put_uint16 (length p.payload % 2 ^ 16))
      (p.payload ++ rest) refl,
  read_full-append (length p.payload) p.payload rest refl,
  uint16_written (length p.payload) fits.1,
  uint32_written p.conn_id fits.0,
)

-- A packet with a 32-bit id and at most 65535 bytes is written to a working writer in one piece and
-- read back, and the reader keeps the rest.
pub read-write_udp_packet :
    (w : Writer) (p : UdpPacket) (rest : Bytes)
    → w.is_broken ≡ false
    → p.conn_id < 2 ^ 32
    → length p.payload < 2 ^ 16
    → (frame : Bytes) × (write_udp_packet w p ≡ ok (record w { sent = w.sent ++ frame }))
      × (read_udp_packet (frame ++ rest) ≡ ok (p, rest))
unfolding write_udp_packet
read-write_udp_packet w p rest works id32 fits =
    (encoded p, ground arith, read-encoded p rest (id32, fits))

-- The calls of `WriteUDPPacket` that send a sequence of packets.
pub write_all : Writer → List UdpPacket → Result Writer
write_all w [] = ok w
write_all w (p ∷ ps) = write_udp_packet w p >>= λ w'. write_all w' ps

wire : List UdpPacket → Bytes
wire [] = []
wire (p ∷ ps) = encoded p ++ wire ps

write_udp_packet-sent :
    (w : Writer) (p : UdpPacket)
    → w.is_broken ≡ false
    → Fits p
    → write_udp_packet w p ≡ ok (record w { sent = w.sent ++ encoded p })
unfolding write_udp_packet
write_udp_packet-sent w p works fits = ground arith

write_all-wire :
    (w : Writer) (ps : List UdpPacket)
    → w.is_broken ≡ false
    → All Fits ps
    → write_all w ps ≡ ok (record w { sent = w.sent ++ wire ps })
unfolding write_all wire
write_all-wire w [] works fits = ground (arith, append-nil w.sent)
write_all-wire w (p ∷ ps) works fits = ground (
  arith,
  write_udp_packet-sent w p works fits.0,
  write_all-wire (record w { sent = w.sent ++ encoded p }) ps works fits.1,
  append_assoc w.sent (encoded p) (wire ps),
)

read_packets-step :
    (fuel : ℕ) (r rest : Bytes) (p : UdpPacket)
    → read_udp_packet r ≡ ok (p, rest)
    → read_packets (suc fuel) r ≡ p ∷ read_packets fuel rest
unfolding read_packets
read_packets-step fuel r rest p e = rw (e, read_packets)

read_packets-wire :
    (fuel : ℕ) (ps : List UdpPacket)
    → length ps < fuel
    → All Fits ps
    → read_packets fuel (wire ps) ≡ ps
unfolding read_packets wire read_udp_packet read_full
read_packets-wire zero ps small fits = absurd (omega arith)
read_packets-wire (suc fuel) [] small fits = refl
read_packets-wire (suc fuel) (p ∷ ps) small fits =
    read_packets-step fuel (encoded p ++ wire ps) (wire ps) p (read-encoded p (wire ps) fits.0)
    ∙ ap (◌∷◌ p) (read_packets-wire fuel ps (omega arith) fits.1)

-- Any sequence of packets with 32-bit ids and at most 65535 bytes, written one after the other to
-- a fresh stream, comes out of the reading loop as the same sequence, in order, when the loop has
-- fuel for more rounds than there are packets.
pub read_packets-write_all :
    (fuel : ℕ) (ps : List UdpPacket)
    → length ps < fuel
    → All Fits ps
    → (w : Writer) × (write_all (record { sent = []; is_broken = false }) ps ≡ ok w)
      × (read_packets fuel w.sent ≡ ps)
read_packets-write_all fuel ps small fits = (
  record { sent = wire ps; is_broken = false },
  write_all-wire _ ps refl fits,
  read_packets-wire fuel ps small fits,
)
