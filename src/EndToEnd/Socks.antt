-- ===== src/EndToEnd/Socks.antt =====
-- client/socks5.go, server/reverse.go: a program that uses the SOCKS5 proxy of a client, up to the target
-- that the server dials.
use caochuan.Base.{
  ℕ, ◌+◌, ◌%◌, ◌^◌, ◌<◌, String, String-discrete, ◌≡◌, refl, ap, ◌∙◌, Bool, true, false, some, [],
  ◌∷◌, ◌++◌, arith, ◌==◌, if◌then◌else◌, any, Bool-cases, inl, inr,
}
use caochuan.Base.Text.{Text, codes}
use caochuan.Proto.{Bytes}
use caochuan.Relay.Targets.Clean.{IsClean, parse_targets_one}
use caochuan.Relay.Dial.{reached, unreachable, dial_balanced, dial_loop, index}
use caochuan.Server.Streams.{plain_header}
use caochuan.Server.Forward.{Net, target, stream, closed, piped, dialed_fate, handle_reverse_stream}
use caochuan.Client.Socks.{Target, socks_reply}
use caochuan.Client.Socks.Handshake.{greeting, ask, HasSize, handle_socks-ask}
use caochuan.Client.Socks.Served.{Served, open_socks, is_open, open_for, served_end, serve_socks}
use caochuan.EndToEnd.Through.{through}

-- The dial of a text that is one target.
dial_loop-one :
    (dial : Text → Bool) (t : Text) (rr : ℕ)
    → dial_loop dial (t ∷ []) rr 0 1 ≡ (if dial t then reached t else unreachable)
unfolding dial_loop index
dial_loop-one dial t rr = ground arith

dial_balanced-one :
    (dial : Text → Bool) (t : Text) (rr : ℕ)
    → IsClean t
    → dial_balanced dial t rr ≡ (if dial t then reached t else unreachable, (rr + 1) % 2 ^ 64)
unfolding dial_balanced
dial_balanced-one dial t rr c =
    rw (dial_balanced, parse_targets_one t c, dial_loop-one dial t rr) refl

reverse-one :
    (n : Net) (text : String) (rr : ℕ)
    → IsClean (codes text)
    → handle_reverse_stream n (plain_header "socks5" text false) rr
      ≡ (if n.dial (codes text) then piped (target (codes text)) [] else closed, (rr + 1) % 2 ^ 64)
unfolding handle_reverse_stream dialed_fate String-discrete
reverse-one n text rr c = elim (Bool-cases (n.dial (codes text))) [
  | inl d ↦ rw (handle_reverse_stream, dial_balanced-one n.dial (codes text) rr c, d) refl
  | inr d ↦ rw (handle_reverse_stream, dial_balanced-one n.dial (codes text) rr c, d) refl
]

serve_socks-ask :
    (join : Target → String) (opens : ℕ → Bool) (k : ℕ) (t : Target) (methods rest : Bytes)
    → any (λ m. m == 0) methods ≡ true
    → HasSize t.host
    → t.port < 2 ^ 16
    → opens k ≡ true
    → serve_socks join opens (some k) true (greeting methods ++ (ask t ++ rest)) ≡ record {
      out = 5 ∷ 0 ∷ socks_reply 0;
      fate = piped (stream k (plain_header "socks5" (join t) false)) [];
      beyond = rest;
    }
unfolding serve_socks served_end open_socks
serve_socks-ask join opens k t methods rest m s p o =
    ap (λ e. served_end join opens (some k) e.0 e.1)
      (handle_socks-ask (λ u. is_open (open_for join opens (some k) u)) t methods rest m s p
        (rw (open_socks, o) refl))
    ∙ rw (o, served_end) refl

-- A program offers the method without login and asks the proxy of a client for a host, with as many bytes
-- as its type has, and a port of 16 bits, whose text is one target: filled, with no comma, and with no
-- space at its ends. While the client has a session that opens streams, the program is told of success
-- whether the target can be reached or not. What it sends beyond the request goes into the stream, and
-- the server then dials that one target: it pipes the stream with it, or else closes the stream. The
-- counter of the server's dial advances by one.
pub serve_socks-dials :
    (n : Net) (join : Target → String) (k rr : ℕ) (t : Target) (methods rest : Bytes)
    → any (λ m. m == 0) methods ≡ true
    → HasSize t.host
    → t.port < 2 ^ 16
    → n.opens k ≡ true
    → IsClean (codes (join t))
    → let served = serve_socks join n.opens (some k) true (greeting methods ++ (ask t ++ rest)) in
      (served.out ≡ 5 ∷ 0 ∷ socks_reply 0)
      × (served.beyond ≡ rest)
      × (through (handle_reverse_stream n) served.fate rr ≡ (
        if n.dial (codes (join t)) then piped (target (codes (join t))) [] else closed,
        (rr + 1) % 2 ^ 64,
      ))
unfolding through
serve_socks-dials n join k rr t methods rest m s p o c =
    let e = serve_socks-ask join n.opens k t methods rest m s p o in
    (
      ap Served.out e,
      ap Served.beyond e,
      ap (λ v. through (handle_reverse_stream n) (Served.fate v) rr) e
          ∙ reverse-one n (join t) rr c,
    )
