-- ===== src/Client/Streams.antt =====
-- client/client.go and client/reverse.go: what becomes of a stream from the server, and of a connection
-- of a visitor on the client. The `Net` of these functions is the network as the client meets it.
use caochuan.Base.{ℕ, Bool, false, Option, none, some, [], if◌then◌else◌, str_eq}
use caochuan.Base.Int.{pos, ltb_ℤ}
use caochuan.Base.Text.{codes}
use caochuan.Relay.Dial.{dial_balanced}
use caochuan.Server.Admission.{is_over}
use caochuan.Server.State.{ReverseRule}
use caochuan.Server.Streams.{StreamHeader, plain_header, control_id}
use caochuan.Server.Forward.{
  Net, Conn, target, stream, Fate, over_limit, closed, control, udp_relay, piped, dialed_fate,
  header_of_stream,
}

-- `handleStream`, from the header on; `rev` is never nil.
unfoldable pub handle_stream : Net → StreamHeader → ℕ → Fate × ℕ
handle_stream n hdr rr =
    if str_eq hdr.id control_id
    then (control, rr)
    else if hdr.udp
    then (udp_relay hdr.target, rr)
    else let (d, rr') = dial_balanced n.dial (codes hdr.target) rr in
      let first = if ltb_ℤ (pos 0) hdr.proxy_proto then header_of_stream n hdr else [] in
      (dialed_fate (λ t. piped (target t) first) d, rr')

-- `openReverseHDR`, over the session of the manager, if it has one.
unfoldable pub open_reverse_hdr : (ℕ → Bool) → Option ℕ → StreamHeader → Fate
open_reverse_hdr opens session hdr = elim session [
  | none ↦ closed
  | some k ↦ if opens k then piped (stream k hdr) [] else closed
]

-- `openReverse`
unfoldable pub open_reverse : (ℕ → Bool) → Option ℕ → ReverseRule → Bool → Fate
open_reverse opens session r udp = open_reverse_hdr opens session (plain_header r.id r.target udp)

-- `handleTCP` of the client, behind the test of the address.
unfoldable pub handle_visitor : Net → Option ℕ → ReverseRule → ℕ → Conn → Fate
handle_visitor n session r conns c =
    if is_over r.max_conns conns
    then over_limit
    else if ltb_ℤ (pos 0) r.proxy_proto
    then open_reverse_hdr n.opens session (record (plain_header r.id r.target false) {
      visitor = n.text c.remote;
      dst_addr = n.text c.local;
      proxy_proto = r.proxy_proto;
    })
    else open_reverse n.opens session r false
