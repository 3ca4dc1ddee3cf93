-- ===== src/Server/UdpLocal.antt =====
-- server/forward.go: `udpLocalRelay`, the listener of a UDP rule whose target the server reaches itself.
--
-- Each visitor has a socket towards a target and a goroutine that reads it. Sockets are numbered as they
-- are dialled. A packet, a reply and the end of a goroutine are one step each; only the loop adds
-- sockets.
pub mod Sockets
use caochuan.Base.{
  ℕ, ◌+◌, ◌-◌, String, Bool, not, none, some, List, [], ◌∷◌, ◌++◌, if◌then◌else◌, length,
}
use caochuan.Base.Dict.{Dict, lookup, insert, erase}
use caochuan.Config.{Netip, Rule}
use caochuan.Proto.{Bytes}
use caochuan.Relay.Visitors.{is_full}
use caochuan.Server.State.{Server}
use caochuan.Server.Listener.{Guard, new_guard, accept_packet}

module _ (n : Netip) where
  -- The variables of the relay, the counters of the rule, and what went out on either side.
  pub record Local : Type 0 where
    pub guard : Guard n
    pub sockets : Dict ℕ
    pub dialed : ℕ
    pub conns : ℕ
    pub bytes_in : ℕ
    pub bytes_out : ℕ
    pub sent : List (ℕ × Bytes)
    pub delivered : List (String × Bytes)

  unfoldable pub new_local : Rule → Server → ℕ → Local
  new_local rule s conns = record {
    guard = new_guard n rule s;
    sockets = [];
    dialed = 0;
    conns = conns;
    bytes_in = 0;
    bytes_out = 0;
    sent = [];
    delivered = [];
  }

  -- A packet, whether a target can be dialled, and whether the socket takes the packet.
  pub record Datagram : Type 0 where
    pub addr : Netip.Addr n
    pub key : String
    pub payload : Bytes
    pub dials : Bool
    pub writes : Bool

  -- `getBackend`
  unfoldable pub get_backend : Bool → String → Local → Local
  get_backend dials key l = elim (lookup key l.sockets) [
    | some b ↦ l
    | none ↦
        if dials
        then record l {
          sockets = insert key l.dialed l.sockets;
          dialed = l.dialed + 1;
          conns = l.conns + 1;
        }
        else l
  ]

  -- The write to the visitor's socket, if it has one.
  unfoldable pub write_datagram : Bool → String → Bytes → Local → Local
  write_datagram writes key payload l = elim (lookup key l.sockets) [
    | none ↦ l
    | some b ↦
        if writes
        then record l {
          sent = l.sent ++ ((b, payload) ∷ []);
          bytes_in = l.bytes_in + length payload;
        }
        else l
  ]

  -- One round of the loop.
  unfoldable pub on_datagram : Server → Rule → Datagram → Local → Local
  on_datagram s rule p l₀ =
      let (g, allowed) = accept_packet n s p.addr l₀.guard in
      let l = record l₀ { guard = g } in
      if not allowed
      then l
      else if is_full rule.max_conns p.key l.sockets
      then l
      else write_datagram p.writes p.key p.payload (get_backend p.dials p.key l)

  -- The end of the goroutine of a visitor.
  unfoldable pub on_socket_end : String → Local → Local
  on_socket_end key l = elim (lookup key l.sockets) [
    | none ↦ l
    | some b ↦ record l { sockets = erase key l.sockets; conns = l.conns - 1 }
  ]

  -- A packet of the target on the socket of a visitor: a goroutine that cannot hand it on ends.
  unfoldable pub on_answer : Bool → String → Bytes → Local → Local
  on_answer writes key payload l = elim (lookup key l.sockets) [
    | none ↦ l
    | some b ↦
        if writes
        then record l {
          delivered = l.delivered ++ ((key, payload) ∷ []);
          bytes_out = l.bytes_out + length payload;
        }
        else on_socket_end key l
  ]
