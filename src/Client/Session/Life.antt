-- ===== src/Client/Session/Life.antt =====
-- client/client.go and client/socks5.go: a session of the client, from its set-up in `serveOnce` until
-- that function returns, with the goroutines around it.
--
-- Each event is a section of one goroutine; an event of a goroutine that does not exist changes nothing.
use caochuan.Base.{
  String, Bool, true, false, Option, none, some, List, [], ◌∷◌, ◌++◌, if◌then◌else◌, ◌==◌, any,
  str_eq, ℕ, zero, suc, get_elem?,
}
use caochuan.Base.Text.{Text, codes}
use caochuan.Config.Client.{ClientConfig}
use caochuan.Server.State.{ReverseRule}
use caochuan.Server.Streams.{StreamHeader, control_id}
use caochuan.Client.Reverse.{Manager, new_manager, apply, start, control_closed}

-- The SOCKS5 listener of a session: not asked for, with a goroutine that is to listen, with a goroutine
-- that waits for the session's end to close it, or closed. A listener that cannot be had is closed.
pub data Proxy : Type 0 where
  no_proxy closed_proxy : Proxy
  to_listen listening : Text → Proxy

pub record SessionLife : Type 0 where
  -- `sess` and `conn` are not closed.
  pub is_open : Bool
  -- `gone` is closed: `serveOnce` has returned.
  pub is_gone : Bool
  pub proxy : Proxy
  pub manager : Manager
  -- Rules that goroutines of `apply` are to start.
  pub to_start : List ReverseRule
  -- The streams that were accepted, newest first.
  pub accepted : List StreamHeader

-- The address of the SOCKS5 listener.
unfoldable pub proxy_address : Text → Text
proxy_address a = if any (λ c. c == b':') a then a else codes "0.0.0.0:" ++ a

-- `serveOnce`, behind the set-up of `smux`.
unfoldable pub begin_life : ClientConfig → SessionLife
begin_life cfg = record {
  is_open = true;
  is_gone = false;
  proxy =
      if str_eq cfg.socks5_listen ""
      then no_proxy
      else to_listen (proxy_address (codes cfg.socks5_listen));
  manager = new_manager;
  to_start = [];
  accepted = [];
}

pub data Event : Type 0 where
  -- `startSocks5` listens, or cannot; its goroutine behind `gone` gets its turn.
  listens : Bool → Event
  proxy_closes : Event
  -- The goroutine that waits for the context or for `gone` sees the context cancelled.
  cancelled : Event
  -- `AcceptStream` gives a stream, whose header is read in time; or it fails.
  accepts : StreamHeader → Event
  accept_fails : Event
  -- `handleControl` begins, reads a frame, and ends.
  control_begins control_ends : Event
  pushed : List ReverseRule → Event
  -- One of the goroutines of `start` gets its turn.
  starts : Option String → ℕ → Event

-- `startSocks5`, as far as its accept loop.
unfoldable pub start_socks : Bool → Proxy → Proxy
start_socks binds (to_listen a) = if binds then listening a else closed_proxy
start_socks binds p = p

-- The goroutine of `startSocks5`.
unfoldable pub close_proxy : Bool → Proxy → Proxy
close_proxy gone (listening a) = if gone then closed_proxy else listening a
close_proxy gone p = p

-- A control stream has been accepted.
unfoldable pub has_controller : SessionLife → Bool
has_controller l = any (λ hdr. str_eq hdr.id control_id) l.accepted

unfoldable pub take_push : List ReverseRule → SessionLife → SessionLife
take_push rules l =
    let (m, more) = apply rules l.manager in record l { manager = m; to_start = l.to_start ++ more }

unfoldable pub without : ℕ → List ReverseRule → List ReverseRule
without i [] = []
without zero (r ∷ rs) = rs
without (suc i) (r ∷ rs) = r ∷ without i rs

unfoldable pub start_one : Option String → ℕ → SessionLife → SessionLife
start_one binds i l = elim (get_elem? l.to_start i) [
  | none ↦ l
  | some r ↦ record l { manager = start binds r l.manager; to_start = without i l.to_start }
]

unfoldable pub handle_event : Event → SessionLife → SessionLife
handle_event (listens binds) l = record l { proxy = start_socks binds l.proxy }
handle_event proxy_closes l = record l { proxy = close_proxy l.is_gone l.proxy }
handle_event cancelled l = record l { is_open = false }
handle_event (accepts hdr) l = if l.is_gone then l else record l { accepted = hdr ∷ l.accepted }
handle_event accept_fails l = record l { is_open = false; is_gone = true }
handle_event control_begins l =
    if has_controller l then record l { manager = record (l.manager) { has_control = true } } else l
handle_event (pushed rules) l = if has_controller l then take_push rules l else l
handle_event control_ends l =
    if has_controller l then record l { manager = control_closed l.manager } else l
handle_event (starts binds i) l = start_one binds i l

unfoldable pub events : List Event → SessionLife → SessionLife
events [] l = l
events (e ∷ es) l = events es (handle_event e l)
