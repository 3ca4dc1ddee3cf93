-- ===== src/Client/UdpRelay.antt =====
-- client/reverse.go: `udpRelay`, the listener of a UDP rule that the client runs.
--
-- Each packet, reply, loss of the stream and failed read is one step. The loop runs in one goroutine, and
-- the reader of the stream in another; the limit on the rate delays packets only. `sent` is what the relay
-- writes to the stream, each frame with the visitor that its packet is from.
pub mod Owners
pub mod Replies
use caochuan.Base.{
  ℕ, String, Bool, true, false, not, Option, none, some, List, [], ◌∷◌, ◌++◌, if◌then◌else◌,
}
use caochuan.Base.Dict.{lookup}
use caochuan.Config.{Netip}
use caochuan.Config.Acl.{Acl, allows}
use caochuan.Proto.{Bytes, UdpPacket}
use caochuan.Relay.Visitors.{Table, new_table, is_full, enter, tick, visitor_of}
use caochuan.Server.State.{ReverseRule}
use caochuan.Server.Listener.{compiled}

module _ (n : Netip) where
  -- The variables of the relay: the compiled list of the rule, the table, whether the socket is open, and
  -- whether the loop runs, which has the stream open.
  pub record Relay : Type 0 where
    pub acl : Option (Acl n)
    pub table : Table
    pub is_open : Bool
    pub is_running : Bool
    pub sent : List (String × UdpPacket)
    pub delivered : List (String × Bytes)

  unfoldable pub new_relay : ReverseRule → Relay
  new_relay rule = record {
    acl = compiled n rule.allow_from;
    table = new_table;
    is_open = true;
    is_running = true;
    sent = [];
    delivered = [];
  }

  pub record Packet : Type 0 where
    pub now : ℕ
    pub addr : Netip.Addr n
    pub key : String
    pub payload : Bytes
    pub writes : Bool

  -- `udpIP`, tested against the rule's list.
  abbrev pub is_allowed : Option (Acl n) → Netip.Addr n → Bool
  is_allowed acl addr = allows n acl (n.unmap addr)

  abbrev pub id_of : String → Table → ℕ
  id_of key t = elim (lookup key t.visitors) [ none ↦ 0 | some v ↦ v.id ]

  -- The frame of a packet; where it cannot be written, both ends are closed and the loop ends.
  unfoldable pub write_frame : Bool → String → UdpPacket → Relay → Relay
  write_frame writes key pkt r =
      if writes
      then record r { sent = r.sent ++ ((key, pkt) ∷ []) }
      else record r { is_open = false; is_running = false }

  -- The table after a packet of a visitor that is let in; its entry is read before the sweep.
  unfoldable pub let_in : Packet → Relay → Relay
  let_in p r =
      let t = enter p.now p.key r.table in
      write_frame p.writes p.key (record { conn_id = id_of p.key t; payload = p.payload })
        (record r { table = tick p.now t })

  -- One round of the loop that has read a packet.
  unfoldable pub on_packet : ReverseRule → Packet → Relay → Relay
  on_packet rule p r =
      if not r.is_running
      then r
      else if not (is_allowed r.acl p.addr)
      then r
      else if is_full rule.max_conns p.key r.table.visitors
      then r
      else let_in p r

  -- A round in which the read fails.
  unfoldable pub on_read_error : Relay → Relay
  on_read_error r = record r { is_running = false }

  -- A frame from the tunnel.
  unfoldable pub on_reply : UdpPacket → Relay → Relay
  on_reply pkt r = elim (visitor_of pkt.conn_id r.table.visitors) [
    | none ↦ r
    | some key ↦
        if r.is_open then record r { delivered = r.delivered ++ ((key, pkt.payload) ∷ []) } else r
  ]

  -- The reader of the stream meets its end and closes the socket, or the manager stops the rule.
  unfoldable pub on_closed : Relay → Relay
  on_closed r = record r { is_open = false }
