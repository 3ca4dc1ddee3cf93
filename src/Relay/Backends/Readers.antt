-- ===== src/Relay/Backends/Readers.antt =====
-- server/reverse.go and client/client.go: no socket outlives its goroutine.
use caochuan.Base.{
  ℕ, zero, suc, ◌+◌, ◌≡◌, inl, inr, Bool, true, false, ◌||◌, some, List, [], ◌∷◌, arith, ◌==◌,
  if◌then◌else◌, Bool-cases, Option-cases, length, get_elem?, All, All-map,
}
use caochuan.Proto.{UdpPacket}
use caochuan.Relay.Backends.{
  Backends, new_backends, socket_of, close, add_backend, write_to, on_packet, on_reply, without,
  on_reader_end, close_all, on_end, Event, packet, reply, reader_end, stream_end, handle_event,
  events,
}

-- Some goroutine reads a socket.
pub reads : ℕ → List (ℕ × ℕ) → Bool
reads b [] = false
reads b ((id, c) ∷ rs) = c == b || reads b rs

reads-without :
    (i : ℕ) (rs : List (ℕ × ℕ)) (r : ℕ × ℕ) (c : ℕ)
    → get_elem? rs i ≡ some r
    → (c == r.1) ≡ false
    → reads c rs ≡ true
    → reads c (without i rs) ≡ true
unfolding reads without
reads-without i [] r c g n h = cc
reads-without zero (q ∷ rs) r c g n h = ground (arith, g, n, h)
reads-without (suc i) (q ∷ rs) r c g n h = ground (arith, reads-without i rs r c g n)

length-without :
    (i : ℕ) (rs : List (ℕ × ℕ)) (r : ℕ × ℕ)
    → get_elem? rs i ≡ some r
    → length rs ≡ length (without i rs) + 1
unfolding without
length-without i [] r g = cc
length-without zero (q ∷ rs) r g = omega arith
length-without (suc i) (q ∷ rs) r g = ground (arith, length-without i rs r g)

-- What is left open after a close.
All-close :
    (P Q : ℕ → Type 0) (b : ℕ) (cs : List ℕ)
    → ((c : ℕ) → (c == b) ≡ false → P c → Q c)
    → All P cs
    → All Q (close b cs)
unfolding close
All-close P Q b [] f h = tt
All-close P Q b (c ∷ cs) f h = elim (Bool-cases (c == b)) [
  | inl e ↦ rw (close, e) (All-close P Q b cs f h.1)
  | inr e ↦ rw (close, e) (f c e h.0, All-close P Q b cs f h.1)
]

All-close_all :
    (P : ℕ → Type 0) (m : List (ℕ × ℕ)) (cs : List ℕ) → All P cs → All P (close_all m cs)
unfolding close_all
All-close_all P [] cs h = h
All-close_all P ((id, b) ∷ m) cs h =
    All-close_all P m (close b cs) (All-close P P b cs (λ c e p. p) h)

module _ (base : ℕ) where
  -- Each open socket has its goroutine, and each goroutine is counted.
  record Inv (s : Backends) : Type 0 where
    covered : All (λ b. reads b s.readers ≡ true) s.live
    counted : s.conns ≡ base + length s.readers

  new_backends-Inv : Inv (new_backends base)
  unfolding new_backends
  new_backends-Inv = record { covered = tt; counted = omega arith }

  write_to-Inv :
      (writes : Bool) (p : UdpPacket) (b : ℕ) (s : Backends) → Inv s → Inv (write_to writes p b s)
  unfolding write_to
  write_to-Inv true p b s v = record { covered = v.covered; counted = v.counted }
  write_to-Inv false p b s v = record {
    covered =
        All-close (λ c. reads c s.readers ≡ true) (λ c. reads c s.readers ≡ true) b s.live
          (λ c e h. h) v.covered;
    counted = v.counted;
  }

  add_backend-Inv : (id : ℕ) (s : Backends) → Inv s → Inv (add_backend id s)
  unfolding add_backend reads
  add_backend-Inv id s v = record {
    covered = (
      ground arith,
      All-map {P = λ b. reads b s.readers ≡ true}
          {Q = λ b. reads b ((id, s.dialed) ∷ s.readers) ≡ true} (λ b h. ground (arith, h)) s.live
          v.covered,
    );
    counted = omega (arith, v.counted);
  }

  on_packet-Inv :
      (dials writes : Bool) (p : UdpPacket) (s : Backends)
      → Inv s
      → Inv (on_packet dials writes p s)
  unfolding on_packet
  on_packet-Inv dials writes p s v = elim (Option-cases (socket_of p.conn_id s.backends)) [
    | inr (b, e) ↦ rw (on_packet, e) (write_to-Inv writes p b s v)
    | inl e ↦ elim (Bool-cases dials) [
      | inl d ↦
          rw (on_packet, e, d)
            (write_to-Inv writes p s.dialed (add_backend p.conn_id s)
              (add_backend-Inv p.conn_id s v))
      | inr d ↦ rw (on_packet, e, d) v
    ]
  ]

  on_reader_end-Inv : (i : ℕ) (s : Backends) → Inv s → Inv (on_reader_end i s)
  unfolding on_reader_end
  on_reader_end-Inv i s v = elim (Option-cases (get_elem? s.readers i)) [
    | inl e ↦ rw (on_reader_end, e) v
    | inr (r, e) ↦
        rw (on_reader_end, e)
          (record {
            covered =
                All-close (λ c. reads c s.readers ≡ true)
                  (λ c. reads c (without i s.readers) ≡ true) r.1 s.live
                  (λ c n h. reads-without i s.readers r c e n h) v.covered;
            counted = omega (arith, v.counted, length-without i s.readers r e);
          })
  ]

  if-Inv : (b : Bool) (x y : Backends) → Inv x → Inv y → Inv (if b then x else y)
  if-Inv true x y v w = v
  if-Inv false x y v w = w

  handle_event-Inv : (e : Event) (s : Backends) → Inv s → Inv (handle_event e s)
  unfolding handle_event on_reply on_end
  handle_event-Inv (packet dials writes p) s v =
      if-Inv s.ended s (on_packet dials writes p s) v (on_packet-Inv dials writes p s v)
  handle_event-Inv (reply i payload) s v = elim (Option-cases (get_elem? s.readers i)) [
    | inl e ↦ rw (on_reply, e) v
    | inr (r, e) ↦ rw (on_reply, e) (record { covered = v.covered; counted = v.counted })
  ]
  handle_event-Inv (reader_end i) s v = on_reader_end-Inv i s v
  handle_event-Inv stream_end s v = if-Inv s.ended s (on_end s) v (record {
    covered = All-close_all (λ c. reads c s.readers ≡ true) s.backends s.live v.covered;
    counted = v.counted;
  })

  events-Inv : (es : List Event) (s : Backends) → Inv s → Inv (events es s)
  unfolding events
  events-Inv [] s v = v
  events-Inv (e ∷ es) s v = events-Inv es (handle_event e s) (handle_event-Inv e s v)

-- Over any history of packets, replies, failures and ends, the end of the stream included: each socket
-- that is open is read by a goroutine that runs, which closes it when it ends; and the connections
-- counted, besides those counted before, are the goroutines that run.
pub events-read :
    (base : ℕ) (es : List Event)
    → let s = events es (new_backends base) in
      All (λ b. reads b s.readers ≡ true) s.live × (s.conns ≡ base + length s.readers)
events-read base es =
    let v = events-Inv base es (new_backends base) (new_backends-Inv base) in (v.covered, v.counted)
