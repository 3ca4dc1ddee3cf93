-- ===== src/Client/Tests.antt =====
-- client/: pushes, SOCKS5 and connections on concrete inputs.
use caochuan.Base.{◌≡◌, refl, true, false, none, some, List, [], ◌∷◌, ◌++◌, arith}
use caochuan.Base.Int.{pos}
use caochuan.Base.Dict.{lookup}
use caochuan.Server.State.{ReverseRule}
use caochuan.Client.Reverse.{new_manager, apply, start, control_closed}
use caochuan.Config.Client.{ClientConfig}
use caochuan.Base.Text.{codes, Text, text_eq}
use caochuan.Proto.{Bytes}
use caochuan.Client.Socks.{Target, domain, piped, socks_reply, handle_socks}
use caochuan.Client.Socks.Handshake.{greeting, ask, handle_socks-ask}
use caochuan.Client.Session.{
  Wire, to_lower, pin_error, dial_server, request_of, serve_once, waited, doubled, run_loop, run,
}
use caochuan.Client.Session.Pinned.{serve_once-Pinned}
use caochuan.Client.Reverse.Pushes.{control_closed-leaves}

abbrev ssh : ReverseRule
ssh = record {
  id = "r1";
  name = "ssh";
  proto = "tcp";
  listen = pos 2222;
  target = "10.0.0.9:22";
  allow_from = [];
  max_mbps = pos 0;
  max_conns = pos 0;
  idle_min = pos 0;
  proxy_proto = pos 0;
}

rule_leaks :
    ((start none ssh (apply [] (apply (ssh ∷ []) new_manager).0).0).rules ≡ [])
    × (lookup "r1"
          (control_closed (start none ssh (apply [] (apply (ssh ∷ []) new_manager).0).0)).tcp_lns
        ≡ some ssh)
rule_leaks = control_closed-leaves ssh new_manager refl refl

-- A program offers two methods and asks for a host by name.
abbrev host_name : Bytes
host_name = 97 ∷ 46 ∷ 98 ∷ []

abbrev web : Target
web = record { host = domain host_name; port = 443 }

web_asked_for :
    handle_socks true (λ t. true) (greeting (2 ∷ 0 ∷ []) ++ (ask web ++ (1 ∷ [])))
    ≡ (5 ∷ 0 ∷ socks_reply 0, piped web (1 ∷ []))
web_asked_for =
    handle_socks-ask (λ t. true) web (2 ∷ 0 ∷ []) (1 ∷ []) refl (omega arith) (omega arith) refl

abbrev pinned : ClientConfig
pinned = record {
  server_addr = "198.51.100.1:7000";
  token = "token-of-pc";
  no_tls = false;
  tls_fingerprint = "A";
  log_file = "";
  socks5_listen = "";
}

abbrev good_wire : Wire
good_wire = record {
  dials = true;
  shakes = true;
  certs = (1 ∷ []) ∷ [];
  sends = true;
  reply = some (record { ok = true; message = "" });
  muxes = true;
}

abbrev hash : Bytes → Text
hash b = b'a' ∷ []

token_sent : (serve_once hash pinned "h" "1" good_wire).1 ≡ some (request_of hash pinned "h" "1")
unfolding serve_once dial_server pin_error text_eq to_lower
token_sent = refl

serve_once-Pinned_example :
    (cert : Bytes) × (rest : List Bytes) × (good_wire.certs ≡ cert ∷ rest)
    × (hash cert ≡ to_lower (codes pinned.tls_fingerprint))
serve_once-Pinned_example =
    serve_once-Pinned hash pinned "h" "1" good_wire (request_of hash pinned "h" "1") refl (λ e. cc)
      token_sent

-- Short attempts are followed by waits of 1, 2, 4, 8, 16, 30 and 30 seconds.
run_test :
    run (1 ∷ 1 ∷ 1 ∷ 1 ∷ 1 ∷ 1 ∷ 1 ∷ [])
    ≡ 1_000_000_000 ∷ 2_000_000_000 ∷ 4_000_000_000 ∷ 8_000_000_000 ∷ 16_000_000_000
      ∷ 30_000_000_000 ∷ 30_000_000_000 ∷ []
unfolding run_loop waited doubled
run_test = refl
