-- ===== src/Client/Socks/Served.antt =====
-- client/socks5.go: the stream behind a connection of the SOCKS5 proxy, and what becomes of it.
--
-- `join` is the text that `net.JoinHostPort` makes of a target. `opens` says whether a session opens a
-- stream and takes the header.
use caochuan.Base.{ℕ, String, Bool, true, false, Option, none, some, [], if◌then◌else◌}
use caochuan.Proto.{Bytes}
use caochuan.Server.Streams.{StreamHeader, plain_header}
use caochuan.Server.Forward.{stream, Fate, closed, piped as piped_with}
use caochuan.Client.Socks.{Target, End, dropped, piped, handle_socks}

-- `openSocks`, over the session of the manager, if it has one.
unfoldable pub open_socks : (ℕ → Bool) → Option ℕ → String → Option (ℕ × StreamHeader)
open_socks opens session target = elim session [
  | none ↦ none
  | some k ↦ if opens k then some (k, plain_header "socks5" target false) else none
]

-- A connection of the proxy: what it is sent, what becomes of it, and what it has sent beyond.
pub record Served : Type 0 where
  pub out : Bytes
  pub fate : Fate
  pub beyond : Bytes

abbrev pub is_open : Option (ℕ × StreamHeader) → Bool
is_open none = false
is_open (some s) = true

abbrev stream_fate : Option (ℕ × StreamHeader) → Fate
stream_fate none = closed
stream_fate (some (k, hdr)) = piped_with (stream k hdr) []

module _ (join : Target → String) (opens : ℕ → Bool) (session : Option ℕ) where
  abbrev pub open_for : Target → Option (ℕ × StreamHeader)
  open_for t = open_socks opens session (join t)

  unfoldable pub served_end : Bytes → End → Served
  served_end out dropped = record { out = out; fate = closed; beyond = [] }
  served_end out (piped t rest) = record {
    out = out;
    fate = stream_fate (open_for t);
    beyond = rest;
  }

  -- `handleSocks` with its stream.
  unfoldable pub serve_socks : Bool → Bytes → Served
  serve_socks writes r =
      let (out, end) = handle_socks writes (λ t. is_open (open_for t)) r in served_end out end
