-- ===== src/Server/UdpLocal/Sockets.antt =====
-- server/forward.go: the sockets of `udpLocalRelay` over a history of packets.
use caochuan.Base.{
  ℕ, ◌+◌, ◌-◌, ◌<◌, String, ◌≡◌, refl, sym, ap, ◌∙◌, inl, inr, Bool, false, none, some, List, [],
  ◌∷◌, arith, Bool-cases, Option-cases, length,
}
use caochuan.Base.Int.{pos, ◌≤ℤ◌}
use caochuan.Base.Dict.{
  lookup, insert, erase, Distinct, lookup-insert, lookup-erase, insert-Distinct, erase-Distinct,
  length-insert, length-erase,
}
use caochuan.Config.{Netip, Rule}
use caochuan.Proto.{Bytes}
use caochuan.Relay.Visitors.{is_full}
use caochuan.Server.State.{Server}
use caochuan.Server.Listener.{accept_packet}
use caochuan.Server.UdpTunnel.Replies.{IsWithin, within}
use caochuan.Server.UdpLocal.{
  Local, new_local, Datagram, get_backend, write_datagram, on_datagram, on_socket_end, on_answer,
}

module _ (n : Netip) (rule : Rule) (others : ℕ) where
  record Inv (l : Local n) : Type 0 where
    once : Distinct l.sockets
    dialed : (k : String) (b : ℕ) → lookup k l.sockets ≡ some b → b < l.dialed
    apart :
        (j k : String) (b : ℕ) → lookup j l.sockets ≡ some b → lookup k l.sockets ≡ some b → j ≡ k
    counted : l.conns ≡ others + length l.sockets
    room : pos 1 ≤ℤ rule.max_conns → pos (length l.sockets) ≤ℤ rule.max_conns

  -- A socket for a new visitor.
  added-Inv :
      (key : String) (l : Local n)
      → lookup key l.sockets ≡ none
      → is_full rule.max_conns key l.sockets ≡ false
      → Inv l
      → Inv (record l {
        sockets = insert key l.dialed l.sockets;
        dialed = l.dialed + 1;
        conns = l.conns + 1;
      })
  unfolding is_full
  added-Inv key l e free v = record {
    once = insert-Distinct key l.dialed l.sockets v.once;
    dialed = λ k b h. ground (arith, h, lookup-insert key k l.dialed l.sockets, v.dialed k b);
    apart = λ j k b g h. ground (
      arith,
      g,
      h,
      lookup-insert key j l.dialed l.sockets,
      lookup-insert key k l.dialed l.sockets,
      v.dialed j b,
      v.dialed k b,
      v.apart j k b,
    );
    counted = ground (arith, e, v.counted, length-insert key l.dialed l.sockets);
    room = λ h. ground (arith, h, e, free, length-insert key l.dialed l.sockets);
  }

  removed-Inv :
      (key : String) (b : ℕ) (l : Local n)
      → lookup key l.sockets ≡ some b
      → Inv l
      → Inv (record l { sockets = erase key l.sockets; conns = l.conns - 1 })
  removed-Inv key b l e v = record {
    once = erase-Distinct key l.sockets v.once;
    dialed = λ k c h. ground (arith, h, lookup-erase key k l.sockets, v.dialed k c);
    apart = λ j k c g h.
        ground
          (arith, g, h, lookup-erase key j l.sockets, lookup-erase key k l.sockets, v.apart j k c);
    counted = ground (arith, e, v.counted, length-erase key l.sockets v.once);
    room = λ h. ground (arith, h, e, v.room h, length-erase key l.sockets v.once);
  }

  -- A step leaves the sockets and the counter as they are.
  kept-Inv :
      (l l' : Local n)
      → l'.sockets ≡ l.sockets
      → l'.dialed ≡ l.dialed
      → l'.conns ≡ l.conns
      → Inv l
      → Inv l'
  kept-Inv l l' e f g v = record {
    once = rw e v.once;
    dialed = λ k b h. rw f (v.dialed k b (ap (lookup k) (sym e) ∙ h));
    apart = λ j k b g h. v.apart j k b (ap (lookup j) (sym e) ∙ g) (ap (lookup k) (sym e) ∙ h);
    counted = rw (e, g) v.counted;
    room = λ h. rw e (v.room h);
  }

  get_backend-Inv :
      (dials : Bool) (key : String) (l : Local n)
      → is_full rule.max_conns key l.sockets ≡ false
      → Inv l
      → Inv (get_backend n dials key l)
  unfolding get_backend
  get_backend-Inv dials key l free v = elim (Option-cases (lookup key l.sockets)) [
    | inr (b, e) ↦ rw (e, get_backend) v
    | inl e ↦ elim (Bool-cases dials) [
      | inl d ↦ rw (e, get_backend, d) (added-Inv key l e free v)
      | inr d ↦ rw (e, get_backend, d) v
    ]
  ]

  write_datagram-Inv :
      (writes : Bool) (key : String) (payload : Bytes) (l : Local n)
      → Inv l
      → Inv (write_datagram n writes key payload l)
  unfolding write_datagram
  write_datagram-Inv writes key payload l v =
      kept-Inv l (write_datagram n writes key payload l) (ground arith) (ground arith)
        (ground arith) v

  on_datagram-Inv :
      (s : Server) (p : Datagram n) (l : Local n) → Inv l → Inv (on_datagram n s rule p l)
  unfolding on_datagram
  on_datagram-Inv s p l₀ v₀ =
      let g = accept_packet n s p.addr l₀.guard in
      let l : Local n = record l₀ { guard = g.0 } in
      let v = kept-Inv l₀ l refl refl refl v₀ in
      elim (Bool-cases g.1) [
        | inr e ↦ rw (e, on_datagram) v
        | inl e ↦ elim (Bool-cases (is_full rule.max_conns p.key l.sockets)) [
          | inl f ↦ rw (e, f, on_datagram) v
          | inr f ↦
              rw (e, f, on_datagram)
                (write_datagram-Inv p.writes p.key p.payload (get_backend n p.dials p.key l)
                  (get_backend-Inv p.dials p.key l f v))
        ]
      ]

  on_socket_end-Inv : (key : String) (l : Local n) → Inv l → Inv (on_socket_end n key l)
  unfolding on_socket_end
  on_socket_end-Inv key l v = elim (Option-cases (lookup key l.sockets)) [
    | inl e ↦ rw (e, on_socket_end) v
    | inr (b, e) ↦ rw (e, on_socket_end) (removed-Inv key b l e v)
  ]

  on_answer-Inv :
      (writes : Bool) (key : String) (payload : Bytes) (l : Local n)
      → Inv l
      → Inv (on_answer n writes key payload l)
  unfolding on_answer
  on_answer-Inv writes key payload l v = elim (Option-cases (lookup key l.sockets)) [
    | inl e ↦ rw (e, on_answer) v
    | inr (b, e) ↦ elim (Bool-cases writes) [
      | inl w ↦
          rw (e, on_answer, w)
            (record {
              once = v.once;
              dialed = v.dialed;
              apart = v.apart;
              counted = v.counted;
              room = v.room;
            })
      | inr w ↦ rw (e, on_answer, w) (on_socket_end-Inv key l v)
    ]
  ]

  -- What can happen while the listener runs.
  pub data Event : Type 1 where
    datagram : Server → Datagram n → Event
    answer : Bool → String → Bytes → Event
    socket_end : String → Event

  unfoldable pub handle_event : Event → Local n → Local n
  handle_event (datagram s p) l = on_datagram n s rule p l
  handle_event (answer writes key payload) l = on_answer n writes key payload l
  handle_event (socket_end key) l = on_socket_end n key l

  unfoldable pub events : List Event → Local n → Local n
  events [] l = l
  events (e ∷ es) l = events es (handle_event e l)

  events-Inv : (es : List Event) (l : Local n) → Inv l → Inv (events es l)
  unfolding events handle_event
  events-Inv [] l v = v
  events-Inv (datagram s p ∷ es) l v =
      events-Inv es (on_datagram n s rule p l) (on_datagram-Inv s p l v)
  events-Inv (answer writes key payload ∷ es) l v =
      events-Inv es (on_answer n writes key payload l) (on_answer-Inv writes key payload l v)
  events-Inv (socket_end key ∷ es) l v =
      events-Inv es (on_socket_end n key l) (on_socket_end-Inv key l v)

  new_local-Inv : (s : Server) → Inv (new_local n rule s others)
  unfolding new_local
  new_local-Inv s = record {
    once = tt;
    dialed = λ k b h. ground (arith, h);
    apart = λ j k b g h. ground (arith, g);
    counted = omega arith;
    room = λ h. ground (arith, h);
  }

  -- Over any history of packets, replies and ends of goroutines, whatever calls of the panel change
  -- meanwhile: two visitors that have one socket are the same visitor, so that each socket serves one;
  -- the connections counted are the visitors with a socket, besides those counted before; and there are
  -- no more of them than the rule's limit, if it has one.
  pub events-apart :
      (s : Server) (es : List Event) (j k : String) (b : ℕ)
      → lookup j (events es (new_local n rule s others)).sockets ≡ some b
      → lookup k (events es (new_local n rule s others)).sockets ≡ some b
      → (j ≡ k)
        × ((events es (new_local n rule s others)).conns
            ≡ others + length (events es (new_local n rule s others)).sockets)
        × IsWithin rule.max_conns (length (events es (new_local n rule s others)).sockets)
  events-apart s es j k b g h =
      let v = events-Inv es (new_local n rule s others) (new_local-Inv s) in
      (
        v.apart j k b g h,
        v.counted,
        within rule.max_conns (length (events es (new_local n rule s others)).sockets) v.room,
      )
