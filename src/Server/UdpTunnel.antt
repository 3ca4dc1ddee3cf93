-- ===== src/Server/UdpTunnel.antt =====
-- server/forward.go: `udpTunnelRelay`, the listener of a UDP rule whose target is behind a client.
--
-- Each packet, reply and loss of the stream is one step: the code holds the lock where it reads or
-- writes the table, and one goroutine reads packets. The limit on the rate delays packets only.
pub mod Replies
pub mod Leak
use caochuan.Base.{
  ℕ, ◌+◌, ◌-◌, String, Bool, not, Option, none, some, List, [], ◌∷◌, ◌++◌, ◌==◌, if◌then◌else◌,
  length,
}
use caochuan.Base.Dict.{lookup, contains}
use caochuan.Config.{Netip, Rule}
use caochuan.Proto.{Bytes, UdpPacket}
use caochuan.Relay.Visitors.{
  Table, new_table, is_full, enter, expired, is_sweep_due, tick, visitor_of,
}
use caochuan.Server.State.{Server}
use caochuan.Server.Listener.{Guard, new_guard, accept_packet}
use caochuan.Server.Streams.{open_stream_to}

module _ (n : Netip) where
  -- The variables of the relay, the counters of the rule, and what went out on either side.
  pub record Relay : Type 0 where
    pub guard : Guard n
    pub table : Table
    pub stream : Option ℕ
    pub conns : ℕ
    pub bytes_in : ℕ
    pub bytes_out : ℕ
    pub sent : List (ℕ × UdpPacket)
    pub delivered : List (String × Bytes)

  unfoldable pub new_relay : Rule → Server → ℕ → Relay
  new_relay rule s conns = record {
    guard = new_guard n rule s;
    table = new_table;
    stream = none;
    conns = conns;
    bytes_in = 0;
    bytes_out = 0;
    sent = [];
    delivered = [];
  }

  -- A packet: when and from where it comes, whether sessions open streams now, and whether the frame can
  -- be written.
  pub record Packet : Type 0 where
    pub now : ℕ
    pub addr : Netip.Addr n
    pub key : String
    pub payload : Bytes
    pub opens : ℕ → Bool
    pub writes : Bool

  -- The table and the counter, for a visitor that is let in.
  unfoldable pub register : ℕ → String → Relay → Relay
  register now key r =
      let t = enter now key r.table in
      let conns = if contains key r.table.visitors then r.conns else r.conns + 1 in
      record r {
        table = tick now t;
        conns = if is_sweep_due t then conns - expired now t.visitors else conns;
      }

  -- `v.id` of the visitor that is entered.
  pub id_of : ℕ → String → Table → ℕ
  id_of now key t = elim (lookup key (enter now key t).visitors) [ none ↦ 0 | some v ↦ v.id ]

  -- `ensure`
  unfoldable pub ensure_stream : Server → Rule → (ℕ → Bool) → Relay → Relay
  ensure_stream s rule opens r = elim r.stream [
    | some k ↦ r
    | none ↦ record r { stream = open_stream_to opens rule.client s }
  ]

  -- `WriteUDPPacket` to the stream, if there is one.
  unfoldable pub forward : Bool → UdpPacket → Relay → Relay
  forward writes pkt r = elim r.stream [
    | none ↦ r
    | some k ↦
        if writes
        then record r {
          sent = r.sent ++ ((k, pkt) ∷ []);
          bytes_in = r.bytes_in + length pkt.payload;
        }
        else r
  ]

  -- One round of the loop.
  unfoldable pub on_packet : Server → Rule → Packet → Relay → Relay
  on_packet s rule p r₀ =
      let (g, allowed) = accept_packet n s p.addr r₀.guard in
      let r = record r₀ { guard = g } in
      if not allowed
      then r
      else if is_full rule.max_conns p.key r.table.visitors
      then r
      else forward p.writes (record { conn_id = id_of p.now p.key r.table; payload = p.payload })
          (ensure_stream s rule p.opens (register p.now p.key r))

  -- A frame from the tunnel.
  unfoldable pub on_reply : Bool → UdpPacket → Relay → Relay
  on_reply writes pkt r = elim (visitor_of pkt.conn_id r.table.visitors) [
    | none ↦ r
    | some key ↦
        if writes
        then record r {
          delivered = r.delivered ++ ((key, pkt.payload) ∷ []);
          bytes_out = r.bytes_out + length pkt.payload;
        }
        else r
  ]

  -- The reader of a stream meets its end.
  unfoldable pub on_lost : ℕ → Relay → Relay
  on_lost k r = elim r.stream [
    | none ↦ r
    | some j ↦ if j == k then record r { stream = none } else r
  ]

  -- The listener is stopped: `done` is closed, and the loop ends.
  unfoldable pub on_done : Relay → Relay
  on_done r = record r { stream = none }
