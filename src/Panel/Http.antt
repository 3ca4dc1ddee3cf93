-- ===== src/Panel/Http.antt =====
-- panel/panel.go: `Handler` and `apiHandler`, from an HTTP request to its answer.
--
-- A path is the list of its segments as `ServeMux` has cleaned them ("/" ends a path with an empty one),
-- and the panel's prefix is the list of its own. `Bodies` is `json.Decoder` at the type that each handler
-- decodes. What a handler writes is an `Answer` with its status; headers for caches, log lines and the
-- encoding of values are left out.
pub mod Paths
pub mod Serve
pub mod Guarded
pub mod Hidden
pub mod Imports
mod Tests
use caochuan.Base.{ℕ, ◌*◌, String, Bool, Option, none, some, List}
use caochuan.Base.Int.{ℤ}
use caochuan.Base.Dict.{Dict}
use caochuan.Base.Text.{Text}
use caochuan.Config.{Netip, Rule, ServerConfig}
use caochuan.Logbuf.Ring.{Ring}
use caochuan.Server.State.{World, Server, ServerError, not_found, conflict}
use caochuan.Server.History.{Stat, HistPoint, Histories}
use caochuan.Server.Views.{RuleView, ClientView, Overview}
use caochuan.Server.Notify.Message.{Remote, Sent}
use caochuan.Panel.Session.{Codec}
use caochuan.Panel.Login.{Panel, Host}

pub data Method : Type 0 where
  get head post put delete other_method : Method

pub record HttpRequest : Type 0 where
  pub remote : String
  pub method : Method
  pub path : List String
  pub cookie : Option Text
  pub body : Text
  pub wanted_lines : ℕ

pub record Bodies : Type 0 where
  pub rule : Text → Option Rule
  pub enabled : Text → Option Bool
  pub client : Text → Option (String × String)
  pub entries : Text → Option (List String)
  pub config : Text → Option ServerConfig
  pub password : Text → Option String
  pub notify : Text → Option (String × String)

-- What lies outside: the world of the server's calls, the machine's addresses, the form of cookies, bodies
-- and notifications, the order in which the rules are listed, and `net.SplitHostPort`.
pub record Site : Type 1 where
  pub world : World
  pub parse_addr_port : String → Option (Netip.Addr world.netip)
  pub local : List (Netip.Addr world.netip)
  pub split_host : String → Option String
  pub codec : Codec
  pub mac : ℤ → Text
  pub unix : ℕ
  pub bodies : Bodies
  pub remote : Remote
  pub order : List RuleView → List RuleView

abbrev pub host_of : Site → Host
host_of w = record {
  netip = w.world.netip;
  parse_addr_port = w.parse_addr_port;
  local = w.local;
  now = w.world.now;
}

-- The panel and what it shows, with the prefix of its paths and whether it has a user interface.
pub record Program : Type 0 where
  pub server : Server
  pub panel : Panel
  pub ring : Ring
  pub stats : Dict Stat
  pub health : Dict (Option String)
  pub hist : Histories
  pub prefix : List String
  pub has_ui : Bool

pub data Answer : Type 0 where
  done denied not_logged_in undecodable locked wrong_password missing no_ui moved : Answer
  failed : ServerError → Answer
  not_notified : Sent → Answer
  rules : List RuleView → Answer
  clients : List ClientView → Answer
  points : List HistPoint → Answer
  numbers : Overview → Answer
  entries : List String → Answer
  config : ServerConfig → Answer
  settings : String → String → Answer
  lines : List Text → Answer
  metrics : Overview → List RuleView → List ClientView → Answer
  page : List String → Answer

pub record Response : Type 0 where
  pub status : ℕ
  pub answer : Answer
  pub cookie : Option Text

abbrev pub reply : ℕ → Answer → Response
reply status answer = record { status = status; answer = answer; cookie = none }

-- `writeErr` of an error of the server.
unfoldable pub error_status : ServerError → ℕ
error_status not_found = 404
error_status conflict = 409
error_status _ = 500

-- `clientIP`
abbrev pub client_ip : Site → HttpRequest → String
client_ip w q = elim (w.split_host q.remote) [ none ↦ q.remote | some host ↦ host ]

abbrev pub max_body : ℕ
max_body = 64 * 1024
