-- ===== src/Client/UdpRelay/Owners.antt =====
-- client/reverse.go: an identifier belongs to one visitor, over the whole life of `udpRelay`.
use caochuan.Base.{
  ℕ, ◌+◌, ◌%◌, ◌^◌, ◌≤◌, ◌<◌, String, ◌≡◌, sym, ap, ◌∙◌, inl, inr, Bool, true, false, some, arith,
  Bool-cases, Option-cases, All, All-map, All-snoc,
}
use caochuan.Base.Dict.{lookup, lookup-insert}
use caochuan.Config.{Netip}
use caochuan.Proto.{Bytes, UdpPacket}
use caochuan.Relay.Visitors.{Visitor, Table, enter, is_sweep_due, tick}
use caochuan.Relay.Visitors.Ids.{
  AreApart, new_table-AreApart, enter-AreApart, tick-AreApart, lookup-sweep, lookup_inserted,
}
use caochuan.Server.State.{ReverseRule}
use caochuan.Relay.Visitors.Size.{next_id-enter, next_id-tick}
use caochuan.Client.UdpRelay.{Relay, Packet, new_relay, id_of, write_frame, let_in}

-- A frame that was sent for a visitor carries an identifier that the table gives to no other visitor.
abbrev pub IsOwn : Table → String × UdpPacket → Type 0
IsOwn t (key, pkt) =
    (pkt.conn_id ≤ t.next_id)
    × ((k : String) (v : Visitor) → lookup k t.visitors ≡ some v → v.id ≡ pkt.conn_id → k ≡ key)

-- A table that has kept or forgotten what another one had.
enter-IsOwn :
    (now : ℕ) (k : String) (t : Table) (s : String × UdpPacket)
    → t.next_id + 1 < 2 ^ 32
    → IsOwn t s
    → IsOwn (enter now k t) s
unfolding enter
enter-IsOwn now k t (key, pkt) lt h = elim (Option-cases (lookup k t.visitors)) [
  | inl e ↦
      let w : Visitor = record { id = (t.next_id + 1) % 2 ^ 32; last_seen = now } in
      rw (e, enter)
        ((
          omega (arith, h.0),
          λ j v f same. elim (lookup_inserted j k v w t.visitors f) [
            | inl (p, q) ↦ absurd (omega (arith, h.0, same, ap (λ (z : Visitor). z.id) q))
            | inr g ↦ h.1 j v g same
          ],
        ))
  | inr (u, e) ↦
      let w : Visitor = record u { last_seen = now } in
      rw (e, enter)
        ((
          h.0,
          λ j v f same. elim (lookup_inserted j k v w t.visitors f) [
            | inl (p, q) ↦ sym p ∙ h.1 k u e (ap (λ (z : Visitor). z.id) q ∙ same)
            | inr g ↦ h.1 j v g same
          ],
        ))
]

tick-IsOwn :
    (now : ℕ) (t : Table) (s : String × UdpPacket) → AreApart t → IsOwn t s → IsOwn (tick now t) s
unfolding tick
tick-IsOwn now t (key, pkt) a h = elim (Bool-cases (is_sweep_due t)) [
  | inr e ↦ rw (e, tick) h
  | inl e ↦
      rw (e, tick) ((h.0, λ j v f same. h.1 j v (lookup-sweep now j v t.visitors a.once f).0 same))
]

-- The entry of a visitor whose packet is let in.
lookup-enter :
    (now : ℕ) (k : String) (t : Table)
    → (v : Visitor) × (lookup k (enter now k t).visitors ≡ some v)
unfolding enter
lookup-enter now k t = elim (Option-cases (lookup k t.visitors)) [
  | inl e ↦
      let w : Visitor = record { id = (t.next_id + 1) % 2 ^ 32; last_seen = now } in
      (w, rw (e, enter) (ground (arith, lookup-insert k k w t.visitors)))
  | inr (u, e) ↦
      let w : Visitor = record u { last_seen = now } in
      (w, rw (e, enter) (ground (arith, lookup-insert k k w t.visitors)))
]

entry-IsOwn :
    (now : ℕ) (n : Netip) (key : String) (payload : Bytes) (t : Table)
    → AreApart (enter now key t)
    → IsOwn
        (enter now key t)
        (key, record { conn_id = id_of n key (enter now key t); payload = payload })
entry-IsOwn now n key payload t a =
    let (u, e) = lookup-enter now key t in
    (
      ground (arith, e, a.bounded key u e),
      λ k v f same. a.unique k key v u f e (ground (arith, e, same)),
    )

module _ (n : Netip) (rule : ReverseRule) where
  -- After `m` steps.
  pub record Inv (m : ℕ) (r : Relay n) : Type 0 where
    pub apart : AreApart r.table
    pub few : r.table.next_id ≤ m
    pub own : All (IsOwn r.table) r.sent

  pub new_relay-Inv : Inv 0 (new_relay n rule)
  unfolding new_relay
  new_relay-Inv = record { apart = new_table-AreApart; few = omega arith; own = tt }

  pub keeps-Inv :
      (m : ℕ) (r r' : Relay n) → r'.table ≡ r.table → r'.sent ≡ r.sent → Inv m r → Inv (m + 1) r'
  keeps-Inv m r r' e f v = record {
    apart = rw e v.apart;
    few = rw e (omega (arith, v.few));
    own = rw (e, f) v.own;
  }

  write_frame-Inv :
      (m : ℕ) (writes : Bool) (key : String) (pkt : UdpPacket) (r : Relay n)
      → IsOwn r.table (key, pkt)
      → Inv m r
      → Inv m (write_frame n writes key pkt r)
  unfolding write_frame
  write_frame-Inv m false key pkt r h v = record { apart = v.apart; few = v.few; own = v.own }
  write_frame-Inv m true key pkt r h v = record {
    apart = v.apart;
    few = v.few;
    own = All-snoc (IsOwn r.table) r.sent (key, pkt) v.own h;
  }

  pub let_in-Inv :
      (m : ℕ) (p : Packet n) (r : Relay n) → m + 1 < 2 ^ 32 → Inv m r → Inv (m + 1) (let_in n p r)
  unfolding let_in
  let_in-Inv m p r lt v =
      let t = enter p.now p.key r.table in
      let t' = tick p.now t in
      let a : AreApart t = enter-AreApart p.now p.key r.table (omega (arith, v.few)) v.apart in
      let pkt : UdpPacket = record { conn_id = id_of n p.key t; payload = p.payload } in
      let kept : All (IsOwn t) r.sent =
        All-map (λ s. enter-IsOwn p.now p.key r.table s (omega (arith, v.few))) r.sent v.own in
      write_frame-Inv (m + 1) p.writes p.key pkt (record r { table = t' })
        (tick-IsOwn p.now t (p.key, pkt) a (entry-IsOwn p.now n p.key p.payload r.table a))
        (record {
          apart = tick-AreApart p.now t a;
          few = omega (arith, v.few, next_id-enter p.now p.key r.table, next_id-tick p.now t);
          own = All-map (λ s. tick-IsOwn p.now t s a) r.sent kept;
        })
