-- ===== src/Relay/Backends/Sockets.antt =====
-- server/reverse.go and client/client.go: a socket serves one identifier for as long as it lives.
use caochuan.Base.{
  ℕ, ◌≡◌, refl, inl, inr, some, List, [], ◌∷◌, arith, Bool-cases, Option-cases, get_elem?, All-map,
  All-get_elem?,
}
use caochuan.Relay.Backends.{
  Backends, new_backends, socket_of, on_reply, on_end, Event, packet, reply, reader_end, stream_end,
  handle_event, events,
}
use caochuan.Relay.Backends.Owned.{
  Serves, Inv, All-socket_of, on_packet-Serves, on_packet-Inv, on_reader_end-Serves,
  on_reader_end-Inv,
}

event-Serves :
    (id b : ℕ) (e : Event) (s : Backends) → Serves id b s → Serves id b (handle_event e s)
unfolding handle_event on_reply on_end
event-Serves id b (packet dials writes p) s v = elim (Bool-cases s.ended) [
  | inl e ↦ simp e v
  | inr e ↦ simp e (on_packet-Serves id b dials writes p s v)
]
event-Serves id b (reply i payload) s v = elim (Option-cases (get_elem? s.readers i)) [
  | inl e ↦ rw (e, on_reply) v
  | inr (r, e) ↦ rw (e, on_reply) (record { dialed = v.dialed; owned = v.owned })
]
event-Serves id b (reader_end i) s v = on_reader_end-Serves id b i s v
event-Serves id b stream_end s v = elim (Bool-cases s.ended) [
  | inl e ↦ simp e v
  | inr e ↦ simp e (record { dialed = v.dialed; owned = v.owned })
]

events-Serves :
    (id b : ℕ) (es : List Event) (s : Backends) → Serves id b s → Serves id b (events es s)
unfolding events
events-Serves id b [] s v = v
events-Serves id b (e ∷ es) s v = events-Serves id b es (handle_event e s) (event-Serves id b e s v)

-- What changes nothing of sockets and goroutines.
alike-Inv :
    (s t : Backends)
    → t.readers ≡ s.readers
    → t.backends ≡ s.backends
    → t.dialed ≡ s.dialed
    → Inv s
    → Inv t
alike-Inv s t e f g v = record {
  fresh = rw (e, g) v.fresh;
  entries = rw f (
      All-map (λ x h. record { dialed = rw g h.dialed; owned = rw e h.owned }) s.backends
        v.entries);
}

event-Inv : (e : Event) (s : Backends) → Inv s → Inv (handle_event e s)
unfolding handle_event on_reply on_end
event-Inv (packet dials writes p) s v = elim (Bool-cases s.ended) [
  | inl e ↦ simp e v
  | inr e ↦ simp e (on_packet-Inv dials writes p s v)
]
event-Inv (reply i payload) s v =
    alike-Inv s (on_reply i payload s) (ground arith) (ground arith) (ground arith) v
event-Inv (reader_end i) s v = on_reader_end-Inv i s v
event-Inv stream_end s v = elim (Bool-cases s.ended) [
  | inl e ↦ simp e v
  | inr e ↦ simp e (alike-Inv s (on_end s) refl refl refl v)
]

events-Inv : (es : List Event) (s : Backends) → Inv s → Inv (events es s)
unfolding events
events-Inv [] s v = v
events-Inv (e ∷ es) s v = events-Inv es (handle_event e s) (event-Inv e s v)

new_backends-Inv : (base : ℕ) → Inv (new_backends base)
unfolding new_backends
new_backends-Inv base = record { fresh = tt; entries = tt }

-- A socket that packets of an identifier go to at some time is only ever read under that identifier.
pub events-socket :
    (base : ℕ) (es later : List Event) (id b i : ℕ) (r : ℕ × ℕ)
    → let s = events es (new_backends base) in
      socket_of id s.backends ≡ some b
      → get_elem? (events later s).readers i ≡ some r
      → r.1 ≡ b
      → r.0 ≡ id
events-socket base es later id b i r e f g =
    let s = events es (new_backends base) in
    let v = events-Inv es (new_backends base) (new_backends-Inv base) in
    let h : Serves id b s = All-socket_of (λ x. Serves x.0 x.1 s) id b s.backends v.entries e in
    All-get_elem? (λ q. q.1 ≡ b → q.0 ≡ id) (events later s).readers i r
      (events-Serves id b later s h).owned f g
