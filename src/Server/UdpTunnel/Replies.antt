-- ===== src/Server/UdpTunnel/Replies.antt =====
-- server/forward.go: the visitors of `udpTunnelRelay` over a history of packets.
use caochuan.Base.{
  ℕ, ◌+◌, ◌^◌, ◌≤◌, ◌<◌, String, ◌≡◌, refl, ◌∙◌, ◌⊎◌, inl, inr, Bool, true, false, some, List, [],
  ◌∷◌, ◌++◌, arith, dec_le, Bool-cases, length,
}
use caochuan.Base.Int.{ℤ, pos, pos_part, neg_part, ◌≤ℤ◌}
use caochuan.Base.Dict.{lookup}
use caochuan.Config.{Netip, Rule}
use caochuan.Proto.{Bytes, UdpPacket}
use caochuan.Relay.Visitors.{Visitor, is_full, enter}
use caochuan.Relay.Visitors.Ids.{
  AreApart, new_table-AreApart, enter-AreApart, tick-AreApart, visitor_of-lookup,
}
use caochuan.Relay.Visitors.Size.{length-enter, next_id-enter, length-tick, next_id-tick}
use caochuan.Server.State.{Server}
use caochuan.Server.Listener.{accept_packet}
use caochuan.Server.UdpTunnel.{
  Relay, Packet, new_relay, register, id_of, ensure_stream, forward, on_packet, on_reply, on_lost,
  on_done,
}

-- No limit, or a number within it.
abbrev pub IsWithin : ℤ → ℕ → Type 0
IsWithin max k = (max ≤ℤ pos 0) ⊎ (pos k ≤ℤ max)

pub within : (max : ℤ) (k : ℕ) → (pos 1 ≤ℤ max → pos k ≤ℤ max) → IsWithin max k
within max k h = elim (dec_le (pos_part max) (neg_part max)) [
  | yes p ↦ inl (omega arith)
  | no p ↦ inr (h (omega arith))
]

module _ (n : Netip) (rule : Rule) (others : ℕ) where
  -- After `k` steps.
  record Inv (k : ℕ) (r : Relay n) : Type 0 where
    apart : AreApart r.table
    few : r.table.next_id ≤ k
    counted : r.conns ≡ others + length r.table.visitors
    room : pos 1 ≤ℤ rule.max_conns → pos (length r.table.visitors) ≤ℤ rule.max_conns

  register-Inv :
      (k now : ℕ) (key : String) (r : Relay n)
      → k + 1 < 2 ^ 32
      → is_full rule.max_conns key r.table.visitors ≡ false
      → Inv k r
      → Inv (k + 1) (register n now key r)
  unfolding register is_full
  register-Inv k now key r lt free v =
      let t = enter now key r.table in
      record {
        apart = tick-AreApart now t (enter-AreApart now key r.table (omega (arith, v.few)) v.apart);
        few = omega (arith, v.few, next_id-enter now key r.table, next_id-tick now t);
        counted = ground (arith, v.counted, length-enter now key r.table, length-tick now t);
        room =
            λ h. ground (arith, h, free, v.room h, length-enter now key r.table, length-tick now t);
      }

  -- A step leaves the table and the counter as they are.
  keeps-Inv :
      (k : ℕ) (r r' : Relay n) → r'.table ≡ r.table → r'.conns ≡ r.conns → Inv k r → Inv (k + 1) r'
  keeps-Inv k r r' e f v = record {
    apart = rw e v.apart;
    few = rw e (omega (arith, v.few));
    counted = rw (e, f) v.counted;
    room = λ h. rw e (v.room h);
  }

  table-forward :
      (writes : Bool) (p : UdpPacket) (r : Relay n) → (forward n writes p r).table ≡ r.table
  unfolding forward
  table-forward writes p r = ground arith

  conns-forward :
      (writes : Bool) (p : UdpPacket) (r : Relay n) → (forward n writes p r).conns ≡ r.conns
  unfolding forward
  conns-forward writes p r = ground arith

  table-ensure_stream :
      (s : Server) (opens : ℕ → Bool) (r : Relay n)
      → (ensure_stream n s rule opens r).table ≡ r.table
  unfolding ensure_stream
  table-ensure_stream s opens r = ground arith

  conns-ensure_stream :
      (s : Server) (opens : ℕ → Bool) (r : Relay n)
      → (ensure_stream n s rule opens r).conns ≡ r.conns
  unfolding ensure_stream
  conns-ensure_stream s opens r = ground arith

  moved-Inv :
      (k : ℕ) (r r' : Relay n) → r'.table ≡ r.table → r'.conns ≡ r.conns → Inv k r → Inv k r'
  moved-Inv k r r' e f v = record {
    apart = rw e v.apart;
    few = rw e v.few;
    counted = rw (e, f) v.counted;
    room = λ h. rw e (v.room h);
  }

  new_relay-Inv : (s : Server) → Inv 0 (new_relay n rule s others)
  unfolding new_relay
  new_relay-Inv s = record {
    apart = new_table-AreApart;
    few = omega arith;
    counted = omega arith;
    room = λ h. ground (arith, h);
  }

  -- What can happen to a relay that runs.
  pub data Event : Type 1 where
    packet : Server → Packet n → Event
    reply : Bool → UdpPacket → Event
    lost : ℕ → Event

  unfoldable pub handle_event : Event → Relay n → Relay n
  handle_event (packet s p) r = on_packet n s rule p r
  handle_event (reply writes p) r = on_reply n writes p r
  handle_event (lost j) r = on_lost n j r

  unfoldable pub events : List Event → Relay n → Relay n
  events [] r = r
  events (e ∷ es) r = events es (handle_event e r)

  packet-Inv :
      (k : ℕ) (s : Server) (p : Packet n) (r : Relay n)
      → k + 1 < 2 ^ 32
      → Inv k r
      → Inv (k + 1) (on_packet n s rule p r)
  unfolding on_packet
  packet-Inv k s p r₀ lt v =
      let g = accept_packet n s p.addr r₀.guard in
      let r : Relay n = record r₀ { guard = g.0 } in
      let pkt : UdpPacket = record { conn_id = id_of n p.now p.key r.table; payload = p.payload } in
      let r' = register n p.now p.key r in
      let r'' = ensure_stream n s rule p.opens r' in
      elim (Bool-cases g.1) [
        | inr e ↦ rw (e, on_packet) (keeps-Inv k r₀ r refl refl v)
        | inl e ↦ elim (Bool-cases (is_full rule.max_conns p.key r.table.visitors)) [
          | inl f ↦ rw (e, f, on_packet) (keeps-Inv k r₀ r refl refl v)
          | inr f ↦
              rw (e, f, on_packet)
                (moved-Inv (k + 1) r' (forward n p.writes pkt r'')
                  (table-forward p.writes pkt r'' ∙ table-ensure_stream s p.opens r')
                  (conns-forward p.writes pkt r'' ∙ conns-ensure_stream s p.opens r')
                  (register-Inv k p.now p.key r lt f (moved-Inv k r₀ r refl refl v)))
        ]
      ]

  event-Inv :
      (k : ℕ) (e : Event) (r : Relay n) → k + 1 < 2 ^ 32 → Inv k r → Inv (k + 1) (handle_event e r)
  unfolding handle_event on_reply on_lost
  event-Inv k (packet s p) r lt v = packet-Inv k s p r lt v
  event-Inv k (reply writes p) r lt v =
      keeps-Inv k r (on_reply n writes p r) (ground arith) (ground arith) v
  event-Inv k (lost j) r lt v = keeps-Inv k r (on_lost n j r) (ground arith) (ground arith) v

  events-Inv :
      (k : ℕ) (es : List Event) (r : Relay n)
      → k + length es < 2 ^ 32
      → Inv k r
      → (m : ℕ) × Inv m (events es r)
  unfolding events
  events-Inv k [] r lt v = (k, v)
  events-Inv k (e ∷ es) r lt v =
      events-Inv (k + 1) es (handle_event e r) (omega arith) (event-Inv k e r (omega arith) v)

  -- After fewer than 2^32 packets, replies and losses of the stream: a reply that carries the identifier
  -- of a visitor goes to that visitor; the connections counted are the visitors in the table, besides
  -- those counted before; and there are no more visitors than the rule's limit, if it has one.
  pub events-replies :
      (s : Server) (es : List Event) (key : String) (v : Visitor) (payload : Bytes)
      → length es < 2 ^ 32
      → lookup key (events es (new_relay n rule s others)).table.visitors ≡ some v
      → let r = events es (new_relay n rule s others) in
        ((on_reply n true (record { conn_id = v.id; payload = payload }) r).delivered
          ≡ r.delivered ++ ((key, payload) ∷ []))
        × (r.conns ≡ others + length r.table.visitors)
        × IsWithin rule.max_conns (length r.table.visitors)
  unfolding on_reply
  events-replies s es key v payload lt e =
      let (m, inv) = events-Inv 0 es (new_relay n rule s others) (omega arith) (new_relay-Inv s) in
      let r = events es (new_relay n rule s others) in
      (
        ground (arith, visitor_of-lookup r.table key v inv.apart e),
        inv.counted,
        within rule.max_conns (length r.table.visitors) inv.room,
      )

  -- When the listener is stopped, every visitor in the table stays counted under the rule.
  pub conns-on_done :
      (s : Server) (es : List Event)
      → length es < 2 ^ 32
      → let r = events es (new_relay n rule s others) in
        (on_done n r).conns ≡ others + length r.table.visitors
  unfolding on_done
  conns-on_done s es lt =
      let (m, inv) = events-Inv 0 es (new_relay n rule s others) (omega arith) (new_relay-Inv s) in
      inv.counted
