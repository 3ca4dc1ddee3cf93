-- ===== src/EndToEnd/Through.antt =====
-- server/forward.go, client/client.go, client/reverse.go and server/reverse.go: a visitor who goes on
-- through a stream, where both sides dial alike.
use caochuan.Base.{
  ℕ, String, ◌≡◌, refl, sym, ap, ◌∙◌, inl, inr, true, false, Option, none, some, [], arith,
  if◌then◌else◌, Bool-cases, Option-cases, str_eq,
}
use caochuan.Base.Int.{ℤ, pos, ltb_ℤ}
use caochuan.Base.Text.{Text, codes}
use caochuan.Config.{Rule}
use caochuan.Proto.{Bytes}
use caochuan.Relay.Proxy.{TcpAddr, proxy_header}
use caochuan.Relay.Dial.{Dialed, reached, unreachable, no_target, panicked, dial_balanced}
use caochuan.Server.Admission.{is_over}
use caochuan.Server.State.{Server}
use caochuan.Server.Rules.{reverse_rule}
use caochuan.Server.Streams.{StreamHeader, plain_header, control_id, open_stream_to}
use caochuan.Server.Forward.{
  Net, Conn, tcp_addr, target, stream, Fate, over_limit, closed, control, udp_relay, piped, crashed,
  dialed_fate, header_of_stream, proxy_header_for, forward_to, forward_directly, tunnel_header,
  handle_tcp, handle_reverse_stream,
}
use caochuan.Client.Streams.{handle_stream, handle_visitor, open_reverse, open_reverse_hdr}

-- A connection that is piped with a stream goes on as the other side handles that stream.
unfoldable pub through : (StreamHeader → ℕ → Fate × ℕ) → Fate → ℕ → Fate × ℕ
through next (piped (stream k hdr) _) rr = next hdr rr
through next (piped (target t) b) rr = (piped (target t) b, rr)
through next over_limit rr = (over_limit, rr)
through next closed rr = (closed, rr)
through next control rr = (control, rr)
through next crashed rr = (crashed, rr)
through next (udp_relay t) rr = (udp_relay t, rr)

-- The rule with no client.
abbrev pub directly : Rule → Rule
directly rule = record rule { client = "" }

dialed_fate-ext :
    (f g : Text → Fate)
    → ((t : Text) → f t ≡ g t)
    → (d : Dialed) → dialed_fate f d ≡ dialed_fate g d
unfolding dialed_fate
dialed_fate-ext f g h (reached t) = h t
dialed_fate-ext f g h unreachable = refl
dialed_fate-ext f g h no_target = refl
dialed_fate-ext f g h panicked = refl

module _ (n : Net) (src dst : TcpAddr) (takes : n.takes ≡ true)
    (back : n.resolve (n.text (tcp_addr src)) ≡ some src)
    (back' : n.resolve (n.text (tcp_addr dst)) ≡ some dst) where
  abbrev visitor : Conn
  visitor = record { remote = tcp_addr src; local = tcp_addr dst }

  first_bytes : Option Bytes → Bytes
  first_bytes none = []
  first_bytes (some b) = b

  header_of_stream_lem :
      (hdr : StreamHeader)
      → hdr.visitor ≡ n.text (tcp_addr src)
      → hdr.dst_addr ≡ n.text (tcp_addr dst)
      → header_of_stream n hdr ≡ first_bytes (proxy_header n.print hdr.proxy_proto src dst)
  unfolding header_of_stream first_bytes
  header_of_stream_lem hdr e f =
      elim (Option-cases (proxy_header n.print hdr.proxy_proto src dst)) [
        | inl g ↦ rw (header_of_stream, e, back, f, back', g) refl
        | inr (b, g) ↦ rw (header_of_stream, e, back, f, back', g, takes) refl
      ]

  -- Whether the header is asked for, and then what it is.
  first_of : ℤ → Bytes
  first_of version =
      if ltb_ℤ (pos 0) version then first_bytes (proxy_header n.print version src dst) else []

  forward_to-first :
      (rule : Rule) (t : Text)
      → forward_to n rule visitor t ≡ piped (target t) (first_of rule.proxy_proto)
  unfolding forward_to first_of proxy_header_for first_bytes
  forward_to-first rule t = elim (Bool-cases (ltb_ℤ (pos 0) rule.proxy_proto)) [
    | inr e ↦ rw (forward_to, first_of, e) refl
    | inl e ↦ elim (Option-cases (proxy_header n.print rule.proxy_proto src dst)) [
      | inl g ↦ ground (arith, e, g)
      | inr (b, g) ↦ ground (arith, e, g, takes)
    ]
  ]

  -- A dial of the targets after which some bytes go first.
  dialed : Bytes → String → ℕ → Fate × ℕ
  dialed first targets rr =
      let (d, rr') = dial_balanced n.dial (codes targets) rr in
      (dialed_fate (λ t. piped (target t) first) d, rr')

  forward_directly-first :
      (rule : Rule) (rr : ℕ)
      → forward_directly n rule visitor rr ≡ dialed (first_of rule.proxy_proto) rule.target rr
  unfolding forward_directly dialed
  forward_directly-first rule rr =
      let d = dial_balanced n.dial (codes rule.target) rr in
      ap (λ (f : Fate). (f, d.1))
        (dialed_fate-ext (forward_to n rule visitor)
          (λ t. piped (target t) (first_of rule.proxy_proto)) (forward_to-first rule) d.0)

  -- The header of a stream that tells the visitor's addresses.
  abbrev told : ℤ → String → String → StreamHeader
  told version id targets = record (plain_header id targets false) {
    visitor = n.text (tcp_addr src);
    dst_addr = n.text (tcp_addr dst);
    proxy_proto = version;
  }

  first_of-told :
      (version : ℤ) (id targets : String)
      → (if ltb_ℤ (pos 0) version then header_of_stream n (told version id targets) else [])
        ≡ first_of version
  unfolding first_of
  first_of-told version id targets = elim (Bool-cases (ltb_ℤ (pos 0) version)) [
    | inl g ↦ rw (g, first_of) (header_of_stream_lem (told version id targets) refl refl)
    | inr g ↦ rw (g, first_of) refl
  ]

  handle_stream-told :
      (version : ℤ) (id targets : String) (rr : ℕ)
      → str_eq id control_id ≡ false
      → handle_stream n (told version id targets) rr ≡ dialed (first_of version) targets rr
  unfolding dialed handle_stream
  handle_stream-told version id targets rr i =
      rw (handle_stream, i, dialed, first_of-told version id targets) refl

  handle_stream-plain :
      (id targets : String) (rr : ℕ)
      → str_eq id control_id ≡ false
      → handle_stream n (plain_header id targets false) rr ≡ dialed [] targets rr
  unfolding dialed handle_stream
  handle_stream-plain id targets rr i = rw (handle_stream, i, dialed) refl

  handle_reverse_stream-told :
      (version : ℤ) (id targets : String) (rr : ℕ)
      → str_eq id control_id ≡ false
      → str_eq (n.text (tcp_addr src)) "" ≡ false
      → handle_reverse_stream n (told version id targets) rr ≡ dialed (first_of version) targets rr
  unfolding dialed handle_reverse_stream
  handle_reverse_stream-told version id targets rr i t =
      rw (handle_reverse_stream, i, dialed, sym (first_of-told version id targets))
        (ground (arith, t))

  handle_reverse_stream-plain :
      (id targets : String) (rr : ℕ)
      → str_eq id control_id ≡ false
      → handle_reverse_stream n (plain_header id targets false) rr ≡ dialed [] targets rr
  unfolding dialed handle_reverse_stream
  handle_reverse_stream-plain id targets rr i = rw (handle_reverse_stream, i, dialed) refl

  first_of-none : (version : ℤ) → ltb_ℤ (pos 0) version ≡ false → [] ≡ first_of version
  unfolding first_of
  first_of-none version e = rw (first_of, e) refl

  handle_tcp-directly :
      (s : Server) (rule : Rule) (conns rr : ℕ)
      → is_over rule.max_conns conns ≡ false
      → handle_tcp n s (directly rule) conns visitor rr
        ≡ dialed (first_of rule.proxy_proto) rule.target rr
  unfolding handle_tcp
  handle_tcp-directly s rule conns rr f =
      rw (handle_tcp, f) (ground arith ∙ forward_directly-first (directly rule) rr)

  tunnel_header-fate :
      (rule : Rule) (rr : ℕ)
      → str_eq rule.id control_id ≡ false
      → handle_stream n (tunnel_header n rule visitor) rr
        ≡ dialed (first_of rule.proxy_proto) rule.target rr
  unfolding tunnel_header
  tunnel_header-fate rule rr i = elim (Bool-cases (ltb_ℤ (pos 0) rule.proxy_proto)) [
    | inl e ↦ rw (tunnel_header, e) (handle_stream-told rule.proxy_proto rule.id rule.target rr i)
    | inr e ↦
        rw (tunnel_header, e)
          (handle_stream-plain rule.id rule.target rr i
            ∙ ap (λ b. dialed b rule.target rr) (first_of-none rule.proxy_proto e))
  ]

  pub tunnel-directly :
      (s : Server) (rule : Rule) (k conns rr rr' : ℕ)
      → str_eq rule.id control_id ≡ false
      → str_eq rule.client "" ≡ false
      → open_stream_to n.opens rule.client s ≡ some k
      → through (handle_stream n) (handle_tcp n s rule conns visitor rr').0 rr
        ≡ handle_tcp n s (directly rule) conns visitor rr
  unfolding handle_tcp through
  tunnel-directly s rule k conns rr rr' i c o = elim (Bool-cases (is_over rule.max_conns conns)) [
    | inl f ↦ rw (handle_tcp, f) refl
    | inr f ↦
        rw (handle_tcp-directly s rule conns rr f, handle_tcp, f, c, o)
          (tunnel_header-fate rule rr i)
  ]

  pub reverse-directly :
      (s : Server) (rule : Rule) (k conns rr : ℕ)
      → str_eq rule.id control_id ≡ false
      → n.opens k ≡ true
      → str_eq (n.text (tcp_addr src)) "" ≡ false
      → through
          (handle_reverse_stream n)
          (handle_visitor n (some k) (reverse_rule rule) conns visitor)
          rr
        ≡ handle_tcp n s (directly rule) conns visitor rr
  unfolding handle_tcp through handle_visitor open_reverse open_reverse_hdr
  reverse-directly s rule k conns rr i o t = elim (Bool-cases (is_over rule.max_conns conns)) [
    | inl f ↦ rw (handle_tcp, handle_visitor, f) refl
    | inr f ↦ elim (Bool-cases (ltb_ℤ (pos 0) rule.proxy_proto)) [
      | inl e ↦
          rw (handle_tcp-directly s rule conns rr f, handle_visitor, f, e, o)
            (handle_reverse_stream-told rule.proxy_proto rule.id rule.target rr i t)
      | inr e ↦
          rw (handle_tcp-directly s rule conns rr f, handle_visitor, f, e, o)
            (handle_reverse_stream-plain rule.id rule.target rr i
              ∙ ap (λ b. dialed b rule.target rr) (first_of-none rule.proxy_proto e))
    ]
  ]
