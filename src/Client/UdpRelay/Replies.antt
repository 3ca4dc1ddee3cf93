-- ===== src/Client/UdpRelay/Replies.antt =====
-- client/reverse.go: who gets the replies of `udpRelay`, over a history of packets.
use caochuan.Base.{
  ℕ, ◌+◌, ◌^◌, ◌<◌, String, ◌≡◌, refl, subst, ◌≢◌, ◌⊎◌, inl, inr, Bool, true, false, not, none,
  some, List, [], ◌∷◌, ◌++◌, arith, ℕ_discrete, Bool-cases, Option-cases, if◌then◌else◌, length,
}
use caochuan.Base.Dict.{Dict, lookup, Distinct}
use caochuan.Config.{Netip}
use caochuan.Proto.{Bytes, UdpPacket}
use caochuan.Relay.Visitors.{Visitor, Table, is_full, visitor_of}
use caochuan.Relay.Visitors.Ids.{AreApart, beyond, visitor_of-lookup}
use caochuan.Server.State.{ReverseRule}
use caochuan.Client.UdpRelay.{
  Relay, Packet, is_allowed, on_packet, on_read_error, on_reply, on_closed,
}
use caochuan.Client.UdpRelay.Owners.{IsOwn, Inv, keeps-Inv, let_in-Inv}

-- The visitor that is found is in the table under the identifier.
visitor_of_sound :
    (id : ℕ) (l : String) (m : Dict Visitor)
    → Distinct m
    → visitor_of id m ≡ some l
    → (u : Visitor) × (lookup l m ≡ some u) × (u.id ≡ id)
unfolding visitor_of
visitor_of_sound id l [] d e = cc
visitor_of_sound id l ((j, w) ∷ m) (h, d) e = elim (ℕ_discrete w.id id) [
  | yes p ↦ (w, ground (arith, p, e), p)
  | no n ↦
      let (u, f, g) = visitor_of_sound id l m d (ground (arith, n, e)) in
      (u, beyond j l w u m h f, g)
]

module _ (n : Netip) (rule : ReverseRule) where
  pub data Event : Type 0 where
    packet : Packet n → Event
    reply : UdpPacket → Event
    closed read_error : Event

  unfoldable pub handle_event : Event → Relay n → Relay n
  handle_event (packet p) r = on_packet n rule p r
  handle_event (reply pkt) r = on_reply n pkt r
  handle_event closed r = on_closed n r
  handle_event read_error r = on_read_error n r

  unfoldable pub events : List Event → Relay n → Relay n
  events [] r = r
  events (e ∷ es) r = events es (handle_event e r)

  if-Inv :
      (m : ℕ) (b : Bool) {x y : Relay n}
      → Inv n rule m x
      → Inv n rule m y
      → Inv n rule m (if b then x else y)
  if-Inv m true v w = v
  if-Inv m false v w = w

  on_packet-Inv :
      (m : ℕ) (p : Packet n) (r : Relay n)
      → m + 1 < 2 ^ 32
      → Inv n rule m r
      → Inv n rule (m + 1) (on_packet n rule p r)
  unfolding on_packet
  on_packet-Inv m p r lt v =
      let same = keeps-Inv n rule m r r refl refl v in
      if-Inv (m + 1) (not r.is_running) same (
        if-Inv (m + 1) (not (is_allowed n r.acl p.addr)) same (
          if-Inv (m + 1) (is_full rule.max_conns p.key r.table.visitors) same
            (let_in-Inv n rule m p r lt v)))

  event-Inv :
      (m : ℕ) (e : Event) (r : Relay n)
      → m + 1 < 2 ^ 32
      → Inv n rule m r
      → Inv n rule (m + 1) (handle_event e r)
  unfolding handle_event on_reply on_closed on_read_error
  event-Inv m (packet p) r lt v = on_packet-Inv m p r lt v
  event-Inv m (reply pkt) r lt v =
      keeps-Inv n rule m r (on_reply n pkt r) (ground arith) (ground arith) v
  event-Inv m closed r lt v = keeps-Inv n rule m r (on_closed n r) refl refl v
  event-Inv m read_error r lt v = keeps-Inv n rule m r (on_read_error n r) refl refl v

  pub events-Inv :
      (m : ℕ) (es : List Event) (r : Relay n)
      → m + length es < 2 ^ 32
      → Inv n rule m r
      → (k : ℕ) × Inv n rule k (events es r)
  unfolding events
  events-Inv m [] r lt v = (m, v)
  events-Inv m (e ∷ es) r lt v =
      events-Inv (m + 1) es (handle_event e r) (omega arith) (event-Inv m e r (omega arith) v)

  -- The socket is closed, or the table has forgotten the visitor under the identifier.
  abbrev pub IsGone : Relay n → String → ℕ → Type 0
  IsGone r key id =
      (r.is_open ≡ false) ⊎ ((v : Visitor) → lookup key r.table.visitors ≡ some v → v.id ≢ id)

  visitor_of-none :
      (t : Table) (key : String) (id : ℕ)
      → AreApart t
      → visitor_of id t.visitors ≡ none
      → (v : Visitor) → lookup key t.visitors ≡ some v
      → v.id ≢ id
  visitor_of-none t key id a e v f g =
      cc (e, subst (λ x. visitor_of x t.visitors ≡ some key) g (visitor_of-lookup t key v a f))

  -- What a reply does where an identifier belongs to a visitor.
  pub on_reply-own :
      (m : ℕ) (r : Relay n) (key : String) (pkt : UdpPacket) (payload : Bytes)
      → Inv n rule m r
      → IsOwn r.table (key, pkt)
      → let r' = on_reply n (record { conn_id = pkt.conn_id; payload = payload }) r in
        (r'.delivered ≡ r.delivered ++ ((key, payload) ∷ []))
        ⊎ (r'.delivered ≡ r.delivered) × IsGone r key pkt.conn_id
  unfolding on_reply
  on_reply-own m r key pkt payload v h =
      elim (Option-cases (visitor_of pkt.conn_id r.table.visitors)) [
        | inl e ↦
            inr (rw (e, on_reply) refl, inr (visitor_of-none r.table key pkt.conn_id v.apart e))
        | inr (l, e) ↦
            let (u, f, g) = visitor_of_sound pkt.conn_id l r.table.visitors v.apart.once e in
            let p = h.1 l u f g in
            elim (Bool-cases r.is_open) [
              | inl o ↦ inl (rw (e, on_reply) (rw (o, p) refl))
              | inr o ↦ inr (rw (e, on_reply) (rw o refl), inl o)
            ]
      ]
