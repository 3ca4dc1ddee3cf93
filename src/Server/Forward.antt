-- ===== src/Server/Forward.antt =====
-- server/forward.go and server/reverse.go: what becomes of a connection of a visitor on the server.
--
-- `Net` is the network as one machine meets it: which targets it can dial now, which sessions open a
-- stream, whether a target takes the PROXY header, the text of an address and its reverse
-- (`net.ResolveTCPAddr`). The copying that follows is in Relay/Pipe.
use caochuan.Base.{ℕ, String, Bool, false, not, ◌&&◌, Option, none, some, [], if◌then◌else◌, str_eq}
use caochuan.Base.Int.{ℤ, pos, ltb_ℤ}
use caochuan.Base.Text.{Text, codes}
use caochuan.Config.{Rule}
use caochuan.Proto.{Bytes}
use caochuan.Relay.Proxy.{TcpAddr, Printer, proxy_header}
use caochuan.Relay.Dial.{Dialed, reached, unreachable, no_target, panicked, dial_balanced}
use caochuan.Server.Admission.{is_over}
use caochuan.Server.State.{Server}
use caochuan.Server.Streams.{StreamHeader, plain_header, control_id, open_stream_to}

-- `net.Addr`: a `*net.TCPAddr`, or another one.
pub data Addr : Type 0 where
  tcp_addr : TcpAddr → Addr
  other_addr : String → Addr

pub record Net : Type 0 where
  pub dial : Text → Bool
  pub opens : ℕ → Bool
  pub takes : Bool
  pub print : Printer
  pub text : Addr → String
  pub resolve : String → Option TcpAddr

-- A connection: where it comes from, and where it was made to.
pub record Conn : Type 0 where
  pub remote : Addr
  pub local : Addr

-- What a connection is piped with.
pub data Backend : Type 0 where
  target : Text → Backend
  stream : ℕ → StreamHeader → Backend

-- How the handling of a connection ends: refused at the limit, closed, given over to the control stream
-- or to the relay of UDP packets, or piped, after some bytes have been written to the backend.
pub data Fate : Type 0 where
  over_limit closed control crashed : Fate
  udp_relay : String → Fate
  piped : Backend → Bytes → Fate

-- `proxyHeaderFor`: none for `nil`.
unfoldable pub proxy_header_for : Printer → ℤ → Conn → Option Bytes
proxy_header_for print version c = elim c.remote [
  | other_addr _ ↦ none
  | tcp_addr src ↦ elim c.local [
    | other_addr _ ↦ none
    | tcp_addr dst ↦ proxy_header print version src dst
  ]
]

-- The direct forwarding, when the target has been reached.
unfoldable pub forward_to : Net → Rule → Conn → Text → Fate
forward_to n rule c t =
    if ltb_ℤ (pos 0) rule.proxy_proto
    then elim (proxy_header_for n.print rule.proxy_proto c) [
      | none ↦ piped (target t) []
      | some hdr ↦ if n.takes then piped (target t) hdr else closed
    ]
    else piped (target t) []

unfoldable pub dialed_fate : (Text → Fate) → Dialed → Fate
dialed_fate next (reached t) = next t
dialed_fate next unreachable = closed
dialed_fate next no_target = closed
dialed_fate next panicked = crashed

-- A rule without a client.
unfoldable pub forward_directly : Net → Rule → Conn → ℕ → Fate × ℕ
forward_directly n rule c rr =
    let (d, rr') = dial_balanced n.dial (codes rule.target) rr in
    (dialed_fate (forward_to n rule c) d, rr')

-- The header of the stream to a client.
unfoldable pub tunnel_header : Net → Rule → Conn → StreamHeader
tunnel_header n rule c =
    if ltb_ℤ (pos 0) rule.proxy_proto
    then record (plain_header rule.id rule.target false) {
      visitor = n.text c.remote;
      dst_addr = n.text c.local;
      proxy_proto = rule.proxy_proto;
    }
    else plain_header rule.id rule.target false

-- `handleTCP`, with the count of connections that `Load` gives and the counter of the dial, which is
-- given back.
unfoldable pub handle_tcp : Net → Server → Rule → ℕ → Conn → ℕ → Fate × ℕ
handle_tcp n s rule conns c rr =
    if is_over rule.max_conns conns
    then (over_limit, rr)
    else if str_eq rule.client ""
    then forward_directly n rule c rr
    else elim (open_stream_to n.opens rule.client s) [
      | none ↦ (closed, rr)
      | some k ↦ (piped (stream k (tunnel_header n rule c)) [], rr)
    ]

-- The PROXY header for the addresses in the header of a stream; its write may fail unnoticed.
unfoldable pub header_of_stream : Net → StreamHeader → Bytes
header_of_stream n hdr = elim (n.resolve hdr.visitor) [
  | none ↦ []
  | some src ↦ elim (n.resolve hdr.dst_addr) [
    | none ↦ []
    | some dst ↦ elim (proxy_header n.print hdr.proxy_proto src dst) [
      | none ↦ []
      | some b ↦ if n.takes then b else []
    ]
  ]
]

-- `handleReverseStream`, from the header on.
unfoldable pub handle_reverse_stream : Net → StreamHeader → ℕ → Fate × ℕ
handle_reverse_stream n hdr rr =
    if str_eq hdr.id control_id
    then (closed, rr)
    else if hdr.udp
    then (udp_relay hdr.target, rr)
    else let (d, rr') = dial_balanced n.dial (codes hdr.target) rr in
      let first =
        if ltb_ℤ (pos 0) hdr.proxy_proto && not (str_eq hdr.visitor "")
        then header_of_stream n hdr
        else [] in
      (dialed_fate (λ t. piped (target t) first) d, rr')
