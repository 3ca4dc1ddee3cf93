-- ===== src/Relay/Backends.antt =====
-- server/reverse.go and client/client.go: the sockets towards the targets of a stream of UDP packets,
-- which `udpBackendFromStream` and `handleUDPStream` keep in the same way. Only the server counts.
--
-- Sockets are numbered as they are dialled. Each has a goroutine that reads it. The loop's handling of a
-- packet, a reply on a socket and the end of a goroutine are steps: between the lock's sections of one
-- step nothing else reads what they change.
pub mod Readers
mod Owned
pub mod Sockets
use caochuan.Base.{
  ℕ, zero, suc, ◌+◌, ◌-◌, Bool, true, false, Option, none, some, List, [], ◌∷◌, ◌++◌, ◌==◌,
  if◌then◌else◌, length, get_elem?,
}
use caochuan.Proto.{Bytes, UdpPacket}

-- The sockets by identifier (`backends`), those that are open, the goroutines with what they were
-- started with, the counters, what has been written back, and whether the loop has ended.
pub record Backends : Type 0 where
  pub backends : List (ℕ × ℕ)
  pub dialed : ℕ
  pub live : List ℕ
  pub readers : List (ℕ × ℕ)
  pub conns : ℕ
  pub bytes_in : ℕ
  pub bytes_out : ℕ
  pub written : List UdpPacket
  pub ended : Bool

unfoldable pub new_backends : ℕ → Backends
new_backends conns = record {
  backends = [];
  dialed = 0;
  live = [];
  readers = [];
  conns = conns;
  bytes_in = 0;
  bytes_out = 0;
  written = [];
  ended = false;
}

-- `backends[connID]`
unfoldable pub socket_of : ℕ → List (ℕ × ℕ) → Option ℕ
socket_of id [] = none
socket_of id ((j, b) ∷ m) = let rest = socket_of id m in if j == id then some b else rest

-- `delete(backends, connID)`
unfoldable pub forget : ℕ → List (ℕ × ℕ) → List (ℕ × ℕ)
forget id [] = []
forget id ((j, b) ∷ m) = let rest = forget id m in if j == id then rest else (j, b) ∷ rest

-- `b.Close()`
unfoldable pub close : ℕ → List ℕ → List ℕ
close b [] = []
close b (c ∷ cs) = let rest = close b cs in if c == b then rest else c ∷ rest

-- A new socket with its goroutine.
unfoldable pub add_backend : ℕ → Backends → Backends
add_backend id s = record s {
  backends = (id, s.dialed) ∷ s.backends;
  dialed = s.dialed + 1;
  live = s.dialed ∷ s.live;
  readers = (id, s.dialed) ∷ s.readers;
  conns = s.conns + 1;
}

-- The write of a packet to the socket of its identifier.
unfoldable pub write_to : Bool → UdpPacket → ℕ → Backends → Backends
write_to writes p b s =
    if writes
    then record s { bytes_in = s.bytes_in + length p.payload }
    else record s { backends = forget p.conn_id s.backends; live = close b s.live }

-- One round of the loop: whether a target can be dialled, and whether the write succeeds.
unfoldable pub on_packet : Bool → Bool → UdpPacket → Backends → Backends
on_packet dials writes p s = elim (socket_of p.conn_id s.backends) [
  | some b ↦ write_to writes p b s
  | none ↦ if dials then write_to writes p s.dialed (add_backend p.conn_id s) else s
]

-- A packet of a target, on the socket of a goroutine.
unfoldable pub on_reply : ℕ → Bytes → Backends → Backends
on_reply i payload s = elim (get_elem? s.readers i) [
  | none ↦ s
  | some r ↦ record s {
    written = s.written ++ (record { conn_id = r.0; payload = payload } ∷ []);
    bytes_out = s.bytes_out + length payload;
  }
]

-- The end of a goroutine.
unfoldable pub without : ℕ → List (ℕ × ℕ) → List (ℕ × ℕ)
without i [] = []
without zero (r ∷ rs) = rs
without (suc i) (r ∷ rs) = r ∷ without i rs

unfoldable pub on_reader_end : ℕ → Backends → Backends
on_reader_end i s = elim (get_elem? s.readers i) [
  | none ↦ s
  | some r ↦ record s {
    backends = forget r.0 s.backends;
    live = close r.1 s.live;
    readers = without i s.readers;
    conns = s.conns - 1;
  }
]

-- The deferred closing of all sockets.
unfoldable pub close_all : List (ℕ × ℕ) → List ℕ → List ℕ
close_all [] live = live
close_all ((id, b) ∷ m) live = close_all m (close b live)

-- The end of the loop.
unfoldable pub on_end : Backends → Backends
on_end s = record s { live = close_all s.backends s.live; ended = true }

pub data Event : Type 0 where
  packet : Bool → Bool → UdpPacket → Event
  reply : ℕ → Bytes → Event
  reader_end : ℕ → Event
  stream_end : Event

unfoldable pub handle_event : Event → Backends → Backends
handle_event (packet dials writes p) s = if s.ended then s else on_packet dials writes p s
handle_event (reply i payload) s = on_reply i payload s
handle_event (reader_end i) s = on_reader_end i s
handle_event stream_end s = if s.ended then s else on_end s

unfoldable pub events : List Event → Backends → Backends
events [] s = s
events (e ∷ es) s = events es (handle_event e s)
