-- ===== src/Panel/Http/Tests.antt =====
-- panel/panel.go: requests over HTTP on concrete inputs.
use caochuan.Base.{
  ◌+◌, ◌-◌, ◌≡◌, refl, ◌≢◌, ◌↔◌, ◌⊎◌, true, false, String, Option, none, some, List, [], ◌∷◌, arith,
  String-discrete, differ,
}
use caochuan.Base.Int.{ℤ, pos, pos_part}
use caochuan.Base.Text.{Text, codes, text_eq}
use caochuan.Config.File.{no_fault, save}
use caochuan.Server.State.{Server}
use caochuan.Server.Fixtures.{live, world_at}
use caochuan.Server.Access.{ip_allowed}
use caochuan.Server.Notify.Message.{Remote, send_now, deliver, deliver-send_now}
use caochuan.Server.Notify.{Post, Notifier, send}
use caochuan.Server.Requests.{Request, handle}
use caochuan.Server.Rules.{set_rule_enabled, at_rule, find_index, commit_rules}
use caochuan.Panel.Session.{Codec, valid_session, split_bar}
use caochuan.Panel.Login.{auth}
use caochuan.Panel.Login
use caochuan.Config.Acl.{new_acl}
use caochuan.Server.Settings.{export_config}
use caochuan.Server.Requests.Importable.{IsValidConfig}
use caochuan.Server.Validate.{validate_rule, check_limits, check_peers}
use caochuan.Relay.Targets.{
  parse_targets, split, collect, trim_space, trim_left, trim_right, keep, is_space,
}
use caochuan.Panel.Http.{
  host_of, client_ip, Method, HttpRequest, Site, Program, reply, missing, done, not_logged_in,
}
use caochuan.Panel.Http.Paths.{route, login, show_metrics, toggle_rule}
use caochuan.Panel.Http.Serve.{calls, action, perform, guarded, called, serve_at, below, serve_http}
use caochuan.Panel.Http.Guarded.{IsAuthorised, serve_http-Guarded}
use caochuan.Panel.Http.Imports.{serve_http-imports}
use caochuan.Panel.Http.Hidden.{elsewhere, serve_http-hides}

-- A number is one character, from 1000 on.
abbrev codec : Codec
codec = record {
  print = λ n. (1000 + pos_part n) ∷ [];
  parse = λ t. elim t [ [] ↦ none | c ∷ _ ↦ some (pos (c - 1000)) ];
}

abbrev mac : ℤ → Text
mac n = (7 + pos_part n) ∷ []

-- A remote that takes every message of the formats with a text as it stands.
abbrev remote : Remote
remote = record { marshal = λ j. some (1 ∷ []); post = λ url b. some 200; print = λ t. [] }

abbrev site : Site
site = record {
  world = world_at 5 no_fault;
  parse_addr_port = λ t. none;
  local = [];
  split_host = λ t. none;
  codec = codec;
  mac = mac;
  unix = 60;
  bodies = record {
    rule = λ t. none;
    enabled = λ t. elim t [ [] ↦ none | c ∷ _ ↦ some false ];
    client = λ t. none;
    entries = λ t. none;
    config = λ t. none;
    password = λ t. none;
    notify = λ t. none;
  };
  remote = remote;
  order = λ v. v;
}

abbrev program : Program
program = record {
  server = live;
  panel = record { no_auth = false; fails = [] };
  ring = record { lines = []; max = 3 };
  stats = [];
  health = [];
  hist = [];
  prefix = "p" ∷ [];
  has_ui = true;
}

abbrev ask : Method → List String → Option Text → HttpRequest
ask m path cookie = record {
  remote = "127.0.0.1";
  method = m;
  path = path;
  cookie = cookie;
  body = 1 ∷ [];
  wanted_lines = 0;
}

abbrev cookie : Option Text
cookie = some (1110 ∷ b'|' ∷ 117 ∷ [])

abbrev toggle : Option Text → HttpRequest
toggle c = ask Method.post ("p" ∷ "api" ∷ "rules" ∷ "r1" ∷ "toggle" ∷ []) c

serve_http-Guarded_example :
    ((serve_http site (toggle cookie) program).1.server ≡ live)
    ⊎ IsAuthorised site (toggle cookie) program
      × ((r : Request) × (path : List String) × (below ("p" ∷ []) (toggle cookie).path ≡ some path)
          × (action site (toggle cookie) program (route Method.post path) ≡ calls (some r))
          × ((serve_http site (toggle cookie) program).1.server ≡ (handle site.world r live).1)
          × ((serve_http site (toggle cookie) program).0.status ≡ 200
              ↔ (handle site.world r live).0 ≡ none))
serve_http-Guarded_example = serve_http-Guarded site (toggle cookie) program

-- With a session the call is made, and without one it is not.
toggled : (serve_http site (toggle cookie) program).0 ≡ reply 200 done
unfolding serve_http serve_at route guarded below action perform called handle auth valid_session
    split_bar ip_allowed String-discrete text_eq set_rule_enabled at_rule find_index commit_rules
    save
toggled = refl

stranger : (serve_http site (toggle none) program).0 ≡ reply 401 not_logged_in
unfolding serve_http serve_at route guarded below action auth valid_session ip_allowed
    String-discrete
stranger = refl

outside :
    (serve_http site (ask Method.get ("api" ∷ "rules" ∷ []) cookie) program).0 ≡ reply 404 missing
unfolding serve_http below String-discrete
outside = refl

abbrev bare : Server
bare = record live { runners = [] }

no_session : valid_session codec mac 60 none ≡ false
unfolding valid_session
no_session = refl

toggles : route Method.post ("api" ∷ "rules" ∷ "r1" ∷ "toggle" ∷ []) ≡ toggle_rule "r1"
unfolding route String-discrete
toggles = refl

below_prefix : below ("p" ∷ []) (toggle none).path ≡ some ("api" ∷ "rules" ∷ "r1" ∷ "toggle" ∷ [])
unfolding below String-discrete
below_prefix = refl

asks_to_toggle :
    (path : List String)
    → below ("p" ∷ []) (toggle none).path ≡ some path
    → (route Method.post path ≢ login) × (route Method.post path ≢ show_metrics)
asks_to_toggle path e =
    let f : path ≡ "api" ∷ "rules" ∷ "r1" ∷ "toggle" ∷ [] = ground (arith, below_prefix, e) in
    rw (f, toggles) ((λ h. cc), (λ h. cc))

serve_http-hides_example :
    (serve_http site (toggle none) program).0
    ≡ (serve_http site (toggle none) (elsewhere program (record program { server = bare }))).0
unfolding ip_allowed
serve_http-hides_example =
    serve_http-hides site (toggle none) program (record program { server = bare }) refl no_session
      refl asks_to_toggle

-- A notifier with an address.
abbrev with_address : Notifier
with_address = record { url = "http://hook"; format = "feishu"; last = []; posted = [] }

one_message :
    (p : Post) × ((send 90_000_000_000 "k" with_address).posted ≡ p ∷ [])
    × (deliver remote (codes "e") (codes "m") 9 p
        ≡ send_now remote (codes "e") (codes "m") 9 with_address)
unfolding String-discrete
one_message =
    deliver-send_now remote (codes "e") (codes "m") "k" 90_000_000_000 9 with_address
      (differ "http://hook" "" refl) (omega arith)

-- A body stands for what the server of the tests exports; it is imported by one with other addresses.
abbrev import_site : Site
import_site = record site {
  bodies = record (site.bodies) { config = λ t. some (export_config live) };
}

abbrev other_program : Program
other_program = record program {
  server = record live { cfg = record live.cfg { tunnel_addr = "0.0.0.0:9000"; rules = [] } };
}

abbrev upload : HttpRequest
upload = ask Method.post ("p" ∷ "api" ∷ "config" ∷ "import" ∷ []) cookie

upload_below : below ("p" ∷ []) upload.path ≡ some ("api" ∷ "config" ∷ "import" ∷ [])
unfolding below String-discrete
upload_below = refl

upload_may :
    auth
      (host_of import_site)
      other_program.server
      (client_ip import_site upload)
      (valid_session codec mac 60 upload.cookie)
      other_program.panel
    ≡ Login.next
unfolding auth valid_session split_bar ip_allowed String-discrete text_eq
upload_may = refl

live-IsValidConfig : IsValidConfig import_site.world live.cfg
unfolding validate_rule check_limits check_peers new_acl parse_targets split collect trim_space
    trim_left trim_right keep is_space String-discrete
live-IsValidConfig = record { whitelist = refl; blacklist = refl; rules = (refl, tt) }

serve_http-imports_example :
    ((serve_http import_site upload other_program).0.status ≡ 200)
    × (export_config (serve_http import_site upload other_program).1.server
        ≡ record live.cfg { tunnel_addr = "0.0.0.0:9000" })
serve_http-imports_example =
    serve_http-imports import_site upload other_program live upload_below refl upload_may
      (omega arith) refl live-IsValidConfig refl
