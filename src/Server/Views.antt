-- ===== src/Server/Views.antt =====
-- server/state.go and server/health.go: what the panel shows of the rules and the clients.
--
-- The order of the rules (`sort.Slice`) is an argument. The result of a probe is kept as its error, if any;
-- the times and texts of the overview are not modelled.
pub mod Running
pub mod Calls
use caochuan.Base.{
  ℕ, ◌+◌, String, Bool, true, false, not, ◌&&◌, Option, none, some, List, [], ◌∷◌, map,
  if◌then◌else◌, str_eq, is_some, length,
}
use caochuan.Base.Dict.{Dict, lookup, contains}
use caochuan.Base.Text.{Text, codes}
use caochuan.Config.{Rule, ClientUser, side_of}
use caochuan.Server.State.{Server, ClientConn, ReverseStatus}
use caochuan.Server.History.{Stat}
use caochuan.Server.Streams.{open_stream_to}
use caochuan.Relay.Dial.{Dialed, reached, unreachable, no_target, panicked, dial_balanced}

-- `RuleView`; the texts are empty where there is nothing to say.
pub record RuleView : Type 0 where
  pub rule : Rule
  pub stat : Stat
  pub running : Bool
  pub note : String
  pub health : String
  pub health_err : String

abbrev pub no_stat : Stat
no_stat = record { bytes_in = 0; bytes_out = 0; conns = 0; conns_total = 0 }

abbrev pub or_no_stat : Option Stat → Stat
or_no_stat none = no_stat
or_no_stat (some st) = st

-- `Health` and `HealthErr`
unfoldable pub health_of : Rule → Dict (Option String) → String × String
health_of r health =
    if str_eq r.proto "tcp"
    then elim (lookup r.id health) [
      | none ↦ ("", "")
      | some result ↦ elim result [ none ↦ ("ok", "") | some e ↦ ("fail", e) ]
    ]
    else ("", "")

-- `Running` and `Note` from what the client has sent.
unfoldable pub reported : Rule → Option ReverseStatus → Bool × String
reported r none = (false, "")
reported r (some st) = (r.enabled && st.ok, if st.ok then "" else st.err)

unfoldable pub running_of : Server → Rule → Bool × String
running_of s r =
    if str_eq (side_of r) "server"
    then (contains r.id s.runners, "")
    else elim (lookup r.client s.clients) [
      | none ↦ (false, "")
      | some cc ↦ reported r (lookup r.id cc.status)
    ]

-- One round of the loop of `ListRules`.
unfoldable pub rule_view : Server → Dict Stat → Dict (Option String) → Rule → RuleView
rule_view s stats health r =
    let (running, note) = running_of s r in
    let (state, e) = health_of r health in
    record {
      rule = r;
      stat = or_no_stat (lookup r.id stats);
      running = running;
      note = note;
      health = state;
      health_err = e;
    }

-- `ListRules`
unfoldable pub list_rules :
    (List RuleView → List RuleView) → Server → Dict Stat → Dict (Option String) → List RuleView
list_rules order s stats health = order (map (rule_view s stats health) s.cfg.rules)

-- `ClientView`
pub record ClientView : Type 0 where
  pub user : ClientUser
  pub online : Bool
  pub addr : String
  pub since : Option ℕ
  pub version : String

unfoldable pub client_view : Server → ClientUser → ClientView
client_view s c = elim (lookup c.name s.clients) [
  | none ↦ record { user = c; online = false; addr = ""; since = none; version = "" }
  | some cc ↦ record {
    user = c;
    online = true;
    addr = cc.addr;
    since = some cc.since;
    version = cc.version;
  }
]

-- `ListClients`
unfoldable pub list_clients : Server → List ClientView
list_clients s = map (client_view s) s.cfg.clients

-- The loop of `Overview` that counts, and the three numbers of the answer.
unfoldable pub count_online : Dict ClientConn → List ClientUser → ℕ
count_online m [] = 0
count_online m (c ∷ cs) =
    let rest = count_online m cs in if contains c.name m then rest + 1 else rest

pub record Overview : Type 0 where
  pub clients : ℕ
  pub clients_online : ℕ
  pub rules : ℕ

unfoldable pub overview : Server → Overview
overview s = record {
  clients = length s.cfg.clients;
  clients_online = count_online s.clients s.cfg.clients;
  rules = length s.cfg.rules;
}

-- `probeRule`: whether the target answers, and the counter of the dial.
unfoldable pub dialed_ok : Dialed → Bool
dialed_ok (reached t) = true
dialed_ok unreachable = false
dialed_ok no_target = false
dialed_ok panicked = false

unfoldable pub probe_rule : (Text → Bool) → (ℕ → Bool) → Server → Rule → ℕ → Bool × ℕ
probe_rule dial opens s r rr =
    if str_eq (side_of r) "server" && not (str_eq r.client "")
    then (is_some (open_stream_to opens r.client s), rr)
    else let (d, rr') = dial_balanced dial (codes r.target) rr in (dialed_ok d, rr')

-- The rules that `probeAll` probes.
unfoldable pub probed : List Rule → List Rule
probed [] = []
probed (r ∷ rs) =
    let rest = probed rs in if r.enabled && str_eq r.proto "tcp" then r ∷ rest else rest
