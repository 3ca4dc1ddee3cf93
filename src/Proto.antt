-- ===== src/Proto.antt =====
-- proto/proto.go: the frames of the tunnel.
--
-- A byte is a number below 256. `io.Reader` is the list of the bytes still to come, and `io.ReadFull`
-- splits it; `io.Writer` is a sink that keeps what was written, or is broken and refuses. JSON is a
-- parameter: `marshal` and `unmarshal` of `encoding/json` at the frame's type.
pub mod RoundTrip
pub mod Packets
mod Tests
use caochuan.Base.{
  ℕ, zero, suc, ◌+◌, ◌*◌, ◌/◌, ◌%◌, ◌^◌, Bool, List, [], ◌∷◌, ◌++◌, Option, none, some, ltb, ◌==◌,
  if◌then◌else◌, length, take, drop,
}

abbrev pub Bytes : Type 0
Bytes = List ℕ

pub data FrameError : Type 0 where
  eof unexpected_eof too_large bad_json broken_pipe : FrameError

pub data Result {ℓ} (A : Type ℓ) : Type ℓ where
  ok : A → Result A
  err : FrameError → Result A

infixl 5 ◌>>=◌
abbrev pub ◌>>=◌ {ℓ κ} : {A : Type ℓ} {B : Type κ} → Result A → (A → Result B) → Result B
ok a >>= f = f a
err e >>= f = err e

-- `encoding/json` at one type.
pub record Codec (V : Type 0) : Type 0 where
  pub marshal : V → Option Bytes
  pub unmarshal : Bytes → Option V

pub record Writer : Type 0 where
  pub sent : Bytes
  pub is_broken : Bool

-- `w.Write(p)`
abbrev pub write : Writer → Bytes → Result Writer
write w p = if w.is_broken then err broken_pipe else ok (record w { sent = w.sent ++ p })

-- `io.ReadFull(r, buf)` with `len(buf) == n`
pub read_full : ℕ → Bytes → Result (Bytes × Bytes)
read_full n r =
    if ltb (length r) n
    then err (if length r == 0 then eof else unexpected_eof)
    else ok (take n r, drop n r)

-- `binary.BigEndian`
abbrev pub put_uint16 : ℕ → Bytes
put_uint16 n = (n / 256 % 256) ∷ (n % 256) ∷ []

abbrev pub uint16 : Bytes → ℕ
uint16 (a ∷ b ∷ _) = a * 256 + b
uint16 _ = 0

abbrev pub put_uint32 : ℕ → Bytes
put_uint32 n = (n / 16777216 % 256) ∷ (n / 65536 % 256) ∷ (n / 256 % 256) ∷ (n % 256) ∷ []

abbrev pub uint32 : Bytes → ℕ
uint32 (a ∷ b ∷ c ∷ d ∷ _) = a * 16777216 + b * 65536 + c * 256 + d
uint32 _ = 0

abbrev pub max_frame : ℕ
max_frame = 2 ^ 16

module _ {V : Type 0} (json : Codec V) where
  decode_body : Bytes → Bytes → Result (V × Bytes)
  decode_body buf rest = elim (json.unmarshal buf) [ none ↦ err bad_json | some v ↦ ok (v, rest) ]

  -- `ReadJSONFrame`, with what is left of the stream.
  pub read_json_frame : Bytes → Result (V × Bytes)
  unfolding decode_body
  read_json_frame r = do
    (head, r₁) ← read_full 2 r
    let n = uint16 head
    (buf, r₂) ← if n == 0 then err unexpected_eof else read_full n r₁
    decode_body buf r₂

  write_body : Writer → Bytes → Result Writer
  write_body w b =
      if ltb max_frame (length b)
      then err too_large
      else write w (put_uint16 (length b % 2 ^ 16) ++ b)

  -- `WriteJSONFrame`
  pub write_json_frame : Writer → V → Result Writer
  unfolding write_body
  write_json_frame w v = elim (json.marshal v) [ none ↦ err bad_json | some b ↦ write_body w b ]

pub record UdpPacket : Type 0 where
  pub conn_id : ℕ
  pub payload : Bytes

-- `WriteUDPPacket`
pub write_udp_packet : Writer → UdpPacket → Result Writer
write_udp_packet w p =
    if ltb 0xffff (length p.payload)
    then err too_large
    else write w (put_uint32 p.conn_id ++ (put_uint16 (length p.payload % 2 ^ 16) ++ p.payload))

-- `ReadUDPPacket`
pub read_udp_packet : Bytes → Result (UdpPacket × Bytes)
read_udp_packet r = do
  (head, r₁) ← read_full 6 r
  (payload, r₂) ← read_full (uint16 (drop 4 head)) r₁
  ok (record { conn_id = uint32 (take 4 head); payload = payload }, r₂)

-- The loop of the goroutines that read a UDP stream: packets until the first error.
pub read_packets : ℕ → Bytes → List UdpPacket
read_packets zero r = []
read_packets (suc fuel) r = elim (read_udp_packet r) [
  | err e ↦ []
  | ok (p, rest) ↦ p ∷ read_packets fuel rest
]
