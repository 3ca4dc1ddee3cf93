-- ===== src/Relay/Backends/Owned.antt =====
-- server/reverse.go and client/client.go: a socket is read under the identifier that it was dialled for.
use caochuan.Base.{
  ℕ, zero, suc, ◌-◌, ◌<◌, ◌≡◌, refl, subst, inl, inr, Bool, true, false, some, List, [], ◌∷◌, arith,
  ◌==◌, Bool-cases, Option-cases, get_elem?, All, All-map,
}
use caochuan.Proto.{UdpPacket}
use caochuan.Relay.Backends.{
  Backends, socket_of, forget, close, add_backend, write_to, on_packet, without, on_reader_end,
}

-- The goroutines that read a socket, which has been dialled, answer under one identifier.
pub record Serves (id b : ℕ) (s : Backends) : Type 0 where
  pub dialed : b < s.dialed
  pub owned : All (λ r. r.1 ≡ b → r.0 ≡ id) s.readers

pub record Inv (s : Backends) : Type 0 where
  pub fresh : All (λ r. r.1 < s.dialed) s.readers
  pub entries : All (λ e. Serves e.0 e.1 s) s.backends

module _ {κ} (P : ℕ × ℕ → Type κ) where
  All-forget : (id : ℕ) (m : List (ℕ × ℕ)) → All P m → All P (forget id m)
  unfolding forget
  All-forget id [] h = tt
  All-forget id ((j, b) ∷ m) h = elim (Bool-cases (j == id)) [
    | inl e ↦ rw (e, forget) (All-forget id m h.1)
    | inr e ↦ rw (e, forget) ((h.0, All-forget id m h.1))
  ]

  All-without : (i : ℕ) (rs : List (ℕ × ℕ)) → All P rs → All P (without i rs)
  unfolding without
  All-without i [] h = tt
  All-without zero (r ∷ rs) h = h.1
  All-without (suc i) (r ∷ rs) h = (h.0, All-without i rs h.1)

  pub All-socket_of : (id b : ℕ) (m : List (ℕ × ℕ)) → All P m → socket_of id m ≡ some b → P (id, b)
  unfolding socket_of
  All-socket_of id b [] h e = cc
  All-socket_of id b ((j, c) ∷ m) h e = elim (Bool-cases (j == id)) [
    | inl p ↦ let q : ◌≡◌ {A = ℕ × ℕ} (j, c) (id, b) = ground (arith, p, e) in subst P q h.0
    | inr p ↦ All-socket_of id b m h.1 (ground (arith, p, e))
  ]

add_backend-Serves : (id b new : ℕ) (s : Backends) → Serves id b s → Serves id b (add_backend new s)
unfolding add_backend
add_backend-Serves id b new s v = record {
  dialed = omega (arith, v.dialed);
  owned = (λ e. absurd (omega (arith, e, v.dialed)), v.owned);
}

add_backend-Inv : (id : ℕ) (s : Backends) → Inv s → Inv (add_backend id s)
unfolding add_backend
add_backend-Inv id s v = record {
  fresh = (omega arith, All-map (λ r h. omega (arith, h)) s.readers v.fresh);
  entries = (
    record {
      dialed = omega arith;
      owned = (λ e. refl, All-map (λ r h e. absurd (omega (arith, h, e))) s.readers v.fresh);
    },
    All-map (λ e h. add_backend-Serves e.0 e.1 id s h) s.backends v.entries,
  );
}

write_to-Serves :
    (id b : ℕ) (writes : Bool) (p : UdpPacket) (c : ℕ) (s : Backends)
    → Serves id b s
    → Serves id b (write_to writes p c s)
unfolding write_to
write_to-Serves id b true p c s v = record { dialed = v.dialed; owned = v.owned }
write_to-Serves id b false p c s v = record { dialed = v.dialed; owned = v.owned }

write_to-Inv :
    (writes : Bool) (p : UdpPacket) (c : ℕ) (s : Backends) → Inv s → Inv (write_to writes p c s)
unfolding write_to
write_to-Inv true p c s v = record {
  fresh = v.fresh;
  entries = All-map (λ e. write_to-Serves e.0 e.1 true p c s) s.backends v.entries;
}
write_to-Inv false p c s v = record {
  fresh = v.fresh;
  entries =
      All-map (λ e. write_to-Serves e.0 e.1 false p c s) (forget p.conn_id s.backends)
        (All-forget (λ e. Serves e.0 e.1 s) p.conn_id s.backends v.entries);
}

pub on_packet-Serves :
    (id b : ℕ) (dials writes : Bool) (p : UdpPacket) (s : Backends)
    → Serves id b s
    → Serves id b (on_packet dials writes p s)
unfolding on_packet
on_packet-Serves id b dials writes p s v = elim (Option-cases (socket_of p.conn_id s.backends)) [
  | inr (c, e) ↦ rw (e, on_packet) (write_to-Serves id b writes p c s v)
  | inl e ↦ elim (Bool-cases dials) [
    | inr f ↦ rw (e, on_packet) (rw f v)
    | inl f ↦
        rw (e, on_packet)
          (rw f (
            write_to-Serves id b writes p s.dialed (add_backend p.conn_id s)
              (add_backend-Serves id b p.conn_id s v)))
  ]
]

pub on_packet-Inv :
    (dials writes : Bool) (p : UdpPacket) (s : Backends) → Inv s → Inv (on_packet dials writes p s)
unfolding on_packet
on_packet-Inv dials writes p s v = elim (Option-cases (socket_of p.conn_id s.backends)) [
  | inr (c, e) ↦ rw (e, on_packet) (write_to-Inv writes p c s v)
  | inl e ↦ elim (Bool-cases dials) [
    | inr f ↦ rw (e, on_packet) (rw f v)
    | inl f ↦
        rw (e, on_packet)
          (rw f (
            write_to-Inv writes p s.dialed (add_backend p.conn_id s)
              (add_backend-Inv p.conn_id s v)))
  ]
]

pub on_reader_end-Serves :
    (id b i : ℕ) (s : Backends) → Serves id b s → Serves id b (on_reader_end i s)
unfolding on_reader_end
on_reader_end-Serves id b i s v = elim (Option-cases (get_elem? s.readers i)) [
  | inl e ↦ rw (e, on_reader_end) v
  | inr (r, e) ↦
      rw (e, on_reader_end)
        (record {
          dialed = v.dialed;
          owned = All-without (λ q. q.1 ≡ b → q.0 ≡ id) i s.readers v.owned;
        })
]

-- The state after the end of a goroutine that there is.
abbrev ended_reader : ℕ → ℕ × ℕ → Backends → Backends
ended_reader i r s = record s {
  backends = forget r.0 s.backends;
  live = close r.1 s.live;
  readers = without i s.readers;
  conns = s.conns - 1;
}

pub on_reader_end-Inv : (i : ℕ) (s : Backends) → Inv s → Inv (on_reader_end i s)
unfolding on_reader_end
on_reader_end-Inv i s v = elim (Option-cases (get_elem? s.readers i)) [
  | inl e ↦ rw (e, on_reader_end) v
  | inr (r, e) ↦
      let after : All (λ x. Serves x.0 x.1 (on_reader_end i s)) (forget r.0 s.backends) =
        All-map (λ x. on_reader_end-Serves x.0 x.1 i s) (forget r.0 s.backends)
          (All-forget (λ x. Serves x.0 x.1 s) r.0 s.backends v.entries) in
      let same : on_reader_end i s ≡ ended_reader i r s = rw (e, on_reader_end) refl in
      rw same (record {
        fresh = All-without (λ q. q.1 < s.dialed) i s.readers v.fresh;
        entries = subst (λ t. All (λ x. Serves x.0 x.1 t) (forget r.0 s.backends)) same after;
      })
]
