-- ===== src/EndToEnd/Routes.antt =====
-- server/forward.go, client/client.go, client/reverse.go and server/reverse.go: the three routes from a
-- visitor to a target.
use caochuan.Base.{ℕ, Bool, ◌≡◌, refl, ap, ◌∙◌, ◌≢◌, true, false, some, arith, str_eq}
use caochuan.Base.Text.{Text}
use caochuan.Config.{Rule}
use caochuan.Relay.Proxy.{TcpAddr}
use caochuan.Server.State.{Server}
use caochuan.Server.Rules.{reverse_rule}
use caochuan.Server.Streams.{control_id, open_stream_to}
use caochuan.Server.Forward.{
  Net, Conn, tcp_addr, Fate, tunnel_header, handle_tcp, handle_reverse_stream,
}
use caochuan.Client.Streams.{handle_stream, handle_visitor, open_reverse, open_reverse_hdr}
use caochuan.EndToEnd.Through.{through, directly, tunnel-directly, reverse-directly}

-- The network of another machine: it dials for itself.
abbrev pub dialling : (Text → Bool) → Net → Net
dialling dial n = record n { dial = dial }

-- What the server does with a visitor of a client's rule does not depend on what it can dial.
handle_tcp-dialling :
    (n : Net) (far : Text → Bool) (s : Server) (rule : Rule) (conns rr : ℕ) (c : Conn)
    → str_eq rule.client "" ≡ false
    → handle_tcp n s rule conns c rr ≡ handle_tcp (dialling far n) s rule conns c rr
unfolding handle_tcp tunnel_header
handle_tcp-dialling n far s rule conns rr c e = rw (handle_tcp, e) refl

-- The server and the client, which each dial what they can reach. A visitor has TCP addresses that can be
-- read back from their texts, a rule has an id that is not that of the control stream, its client has a
-- session that opens streams, and targets take what is written first. Then the visitor of a tunnel rule is
-- turned away at the limit, closed, or piped with the target and after the PROXY header exactly as if the
-- rule were forwarded directly by a server that dials what the client can reach, at the counter of the
-- client's dial; and that of a rule that the client runs for the server exactly as if the server forwarded
-- the rule directly, at the counter of the server's dial.
pub routes-directly :
    (n : Net) (far : Text → Bool) (src dst : TcpAddr) (s : Server) (rule : Rule)
    (k conns rr rr' : ℕ)
    → n.takes ≡ true
    → n.resolve (n.text (tcp_addr src)) ≡ some src
    → n.resolve (n.text (tcp_addr dst)) ≡ some dst
    → rule.id ≢ control_id
    → rule.client ≢ ""
    → open_stream_to n.opens rule.client s ≡ some k
    → n.opens k ≡ true
    → n.text (tcp_addr src) ≢ ""
    → let c : Conn = record { remote = tcp_addr src; local = tcp_addr dst } in
      (through (handle_stream (dialling far n)) (handle_tcp n s rule conns c rr').0 rr
        ≡ handle_tcp (dialling far n) s (directly rule) conns c rr)
      × (through
            (handle_reverse_stream n)
            (handle_visitor (dialling far n) (some k) (reverse_rule rule) conns c)
            rr
          ≡ handle_tcp n s (directly rule) conns c rr)
unfolding handle_visitor open_reverse open_reverse_hdr
routes-directly n far src dst s rule k conns rr rr' takes back back' i c o live t =
    let away = dialling far n in
    let v : Conn = record { remote = tcp_addr src; local = tcp_addr dst } in
    let named : str_eq rule.client "" ≡ false = ground (arith, c) in
    (
      ap (λ (f : Fate × ℕ). through (handle_stream away) f.0 rr)
            (handle_tcp-dialling n far s rule conns rr' v named)
          ∙ tunnel-directly away src dst takes back back' s rule k conns rr rr' (ground (arith, i))
              named o,
      reverse-directly n src dst takes back back' s rule k conns rr (ground (arith, i)) live
          (ground (arith, t)),
    )
