-- ===== src/Client/Session/Tests.antt =====
-- A session of the client on concrete inputs.
use caochuan.Base.{◌≡◌, ◌≢◌, refl, ap, true, false, none, some, List, [], ◌∷◌, String-discrete}
use caochuan.Base.Int.{pos}
use caochuan.Base.Text.{codes}
use caochuan.Base.Dict.{lookup}
use caochuan.Config.Client.{ClientConfig}
use caochuan.Server.State.{ReverseRule}
use caochuan.Server.Streams.{plain_header, control_id}
use caochuan.Server.Forward.{closed}
use caochuan.Client.Reverse.{
  apply, take_missing, by_id, stop_changed, start, stop_all, stop_each, same_listener,
  control_closed,
}
use caochuan.Client.Socks.Served.{serve_socks}
use caochuan.Client.Session.Life.{
  SessionLife, begin_life, Event, listening, listens, proxy_closes, cancelled, accepts,
  accept_fails, control_begins, pushed, control_ends, starts, start_socks, has_controller,
  take_push, without, start_one, handle_event, events, proxy_address,
}
use caochuan.Client.Session.Over.{waits_to_listen, events-over}

abbrev proxied : ClientConfig
proxied = record {
  server_addr = "198.51.100.1:7000";
  token = "token-of-pc";
  no_tls = true;
  tls_fingerprint = "";
  log_file = "";
  socks5_listen = "1080";
}

abbrev ssh : ReverseRule
ssh = record {
  id = "r1";
  name = "ssh";
  proto = "tcp";
  listen = pos 2222;
  target = "10.0.0.9:22";
  allow_from = [];
  max_mbps = pos 0;
  max_conns = pos 0;
  idle_min = pos 0;
  proxy_proto = pos 0;
}

-- The proxy listens, a rule is pushed and started, and the context is cancelled.
abbrev history : List Event
history =
    listens true
    ∷ accepts (plain_header control_id "control" false)
    ∷ control_begins
    ∷ pushed (ssh ∷ [])
    ∷ starts none 0
    ∷ cancelled
    ∷ accept_fails
    ∷ []

abbrev after : List Event
after = control_ends ∷ accepts (plain_header "r1" "10.0.0.9:22" false) ∷ listens true ∷ []

default_host : proxy_address (codes "1080") ≡ codes "0.0.0.0:1080"
unfolding proxy_address
default_host = refl

own_host : proxy_address (codes "127.0.0.1:1080") ≡ codes "127.0.0.1:1080"
unfolding proxy_address
own_host = refl

abbrev at_end : SessionLife
at_end = events history (begin_life proxied)

still_listens : at_end.proxy ≡ listening (codes "0.0.0.0:1080")
unfolding events handle_event begin_life start_socks proxy_address take_push start_one
    has_controller String-discrete without apply take_missing by_id stop_changed
still_listens = refl

rule_runs : lookup "r1" at_end.manager.tcp_lns ≡ some ssh
unfolding events handle_event begin_life start_socks proxy_address take_push start_one
    has_controller String-discrete without apply take_missing by_id stop_changed start
rule_runs = refl

rule_stopped : (events after (handle_event proxy_closes at_end)).manager.tcp_lns ≡ []
unfolding events handle_event begin_life start_socks proxy_address take_push start_one
    has_controller String-discrete without apply take_missing by_id stop_changed start same_listener
    control_closed stop_all stop_each
rule_stopped = refl

returned : at_end.is_gone ≡ true
unfolding events handle_event begin_life start_socks proxy_address take_push start_one
    has_controller String-discrete without apply take_missing by_id stop_changed
returned = refl

events-over_example :
    ((events after (handle_event proxy_closes at_end)).is_open ≡ false)
    × ((events after (handle_event proxy_closes at_end)).accepted ≡ at_end.accepted)
    × ((events after (handle_event proxy_closes at_end)).proxy ≢ listening (codes "0.0.0.0:1080"))
    × ((serve_socks
          (λ t. "")
          (λ i. (events after (handle_event proxy_closes at_end)).is_open)
          (some 0)
          true
          (5 ∷ 1 ∷ 0 ∷ [])).fate
        ≡ closed)
events-over_example =
    events-over proxied history after (λ t. "") 0 true (5 ∷ 1 ∷ 0 ∷ []) (codes "0.0.0.0:1080")
      returned (ap waits_to_listen still_listens)
