-- ===== src/Config/Fixtures.antt =====
-- A concrete `net/netip` and configuration for the tests.
use caochuan.Base.{String, true, false, none, some, [], ◌∷◌, if◌then◌else◌, String-discrete, str_eq}
use caochuan.Base.Int.{pos}
use caochuan.Config.{Netip, ServerConfig, Rule}

-- Addresses are their texts, and there is one prefix.
abbrev pub some_netip : Netip
some_netip = record {
  Addr = String;
  Prefix = String;
  parse_prefix = λ s. if str_eq s "10.0.0.0/8" then some s else none;
  parse_addr = λ s. if str_eq s "10.0.0.0/8" then none else some s;
  prefix_contains = λ p a. str_eq a "10.1.2.3";
  unmap = λ a. a;
  is_loopback = λ a. str_eq a "127.0.0.1";
  Addr-discrete = String-discrete;
}

abbrev pub some_rule : Rule
some_rule = record {
  id = "r1";
  name = "web";
  side = "";
  proto = "tcp";
  listen = pos 8080;
  client = "";
  target = "10.0.0.5:80";
  allow_from = [];
  max_mbps = pos 0;
  max_conns = pos 0;
  idle_min = pos 0;
  proxy_proto = pos 0;
  enabled = true;
}

abbrev pub some_config : ServerConfig
some_config = record {
  tunnel_addr = "0.0.0.0:7000";
  panel_addr = "0.0.0.0:7500";
  password = "secret";
  no_auth = false;
  panel_prefix = "";
  ip_whitelist = [];
  secret = "key";
  no_tls = true;
  tls_cert = "";
  tls_key = "";
  log_file = "";
  notify_url = "";
  notify_format = "generic";
  ip_blacklist = [];
  clients = [];
  rules = some_rule ∷ [];
}
