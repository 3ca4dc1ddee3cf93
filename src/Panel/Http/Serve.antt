-- ===== src/Panel/Http/Serve.antt =====
-- panel/panel.go: the handlers of `apiHandler`, `auth` in front of them, and the prefix of `Handler`.
use caochuan.Base.{String, Option, none, some, List, [], ◌∷◌, if◌then◌else◌, str_eq, take}
use caochuan.Base.Text.{Text}
use caochuan.Logbuf.Ring.{tail}
use caochuan.Server.State.{Outcome}
use caochuan.Server.History.{get_history}
use caochuan.Server.Views.{list_rules, list_clients, overview}
use caochuan.Server.Settings.{export_config}
use caochuan.Server.Notify.Message.{Sent, sent, send_now}
use caochuan.Base.Text.{codes}
use caochuan.Server.Requests.{
  Request, handle, add_a_rule, update_a_rule, delete_a_rule, enable_a_rule, add_a_client,
  delete_a_client, whitelist, blacklist, change_password, notify, import_all,
}
use caochuan.Panel.Session.{set_session, valid_session, logged_out}
use caochuan.Panel.Login.{Panel, may_visit, handle_login, auth}
use caochuan.Panel.Login
use caochuan.Panel.Http.{
  HttpRequest, Site, host_of, Program, Answer, done, denied, not_logged_in, undecodable, locked,
  wrong_password, missing, no_ui, moved, failed, not_notified, rules, clients, points, numbers,
  entries, config, settings, lines, metrics, page, Response, reply, error_status, client_ip,
  max_body,
}
use caochuan.Panel.Http.Paths.{
  Endpoint, login, logout, show_overview, list_the_rules, create_rule, list_the_clients,
  create_client, show_whitelist, write_whitelist, show_blacklist, write_blacklist, export,
  import_body, show_metrics, write_password, show_notify, write_notify, try_notify, show_logs,
  client_error, show_history, write_rule, drop_rule, toggle_rule, drop_client, other, route,
}

abbrev pub decoded {ℓ} : {A : Type ℓ} → (Text → Option A) → HttpRequest → Option A
decoded decode q = decode (take max_body q.body)

-- The call that a handler makes with what it decodes.
abbrev pub with_body {ℓ} : {A : Type ℓ} → Option A → (A → Request) → Option Request
with_body none f = none
with_body (some a) f = some (f a)

-- What a handler does behind `auth`: it shows something, or it makes a call of the server.
pub data Action : Type 0 where
  shows : Answer → Action
  calls : Option Request → Action
  tries : Action

unfoldable pub action : Site → HttpRequest → Program → Endpoint → Action
action w q p show_overview = shows (numbers (overview p.server))
action w q p list_the_rules = shows (rules (list_rules w.order p.server p.stats p.health))
action w q p (show_history id) = shows (points (get_history id p.hist))
action w q p create_rule = calls (with_body (decoded w.bodies.rule q) add_a_rule)
action w q p (write_rule id) = calls (with_body (decoded w.bodies.rule q) (update_a_rule id))
action w q p (drop_rule id) = calls (some (delete_a_rule id))
action w q p (toggle_rule id) = calls (with_body (decoded w.bodies.enabled q) (enable_a_rule id))
action w q p list_the_clients = shows (clients (list_clients p.server))
action w q p create_client =
    calls (with_body (decoded w.bodies.client q) (λ b. add_a_client b.0 b.1))
action w q p (drop_client name) = calls (some (delete_a_client name))
action w q p show_whitelist = shows (entries p.server.cfg.ip_whitelist)
action w q p write_whitelist = calls (with_body (decoded w.bodies.entries q) whitelist)
action w q p show_blacklist = shows (entries p.server.cfg.ip_blacklist)
action w q p write_blacklist = calls (with_body (decoded w.bodies.entries q) blacklist)
action w q p export = shows (config (export_config p.server))
action w q p import_body = calls (with_body (decoded w.bodies.config q) import_all)
action w q p write_password = calls (with_body (decoded w.bodies.password q) change_password)
action w q p show_notify = shows (settings p.server.notifier.url p.server.notifier.format)
action w q p write_notify = calls (with_body (decoded w.bodies.notify q) (λ b. notify b.0 b.1))
action w q p try_notify = tries
action w q p show_logs = shows (lines (tail q.wanted_lines p.ring))
action w q p _ = shows done

-- `writeErr`, or the answer of `auth` to a call that succeeded.
unfoldable pub called : Outcome → Program → Response × Program
called (none, s) p = (reply 200 done, record p { server = s })
called (some e, s) p = (reply (error_status e) (failed e), record p { server = s })

unfoldable pub tried : Sent → Response
tried sent = reply 200 done
tried o = reply 500 (not_notified o)

unfoldable pub perform : Site → Action → Program → Response × Program
perform w (shows a) p = (reply 200 a, p)
perform w (calls none) p = (reply 400 undecodable, p)
perform w (calls (some r)) p = called (handle w.world r p.server) p
perform w tries p = (
  tried
      (send_now w.remote (codes "test") (codes "这是一条测试通知，收到即配置成功") w.world.now p.server.notifier).1,
  p,
)

-- `auth`
unfoldable pub guarded : Site → HttpRequest → Program → Action → Response × Program
guarded w q p a =
    elim (auth (host_of w) p.server (client_ip w q) (valid_session w.codec w.mac w.unix q.cookie)
      p.panel) [
        | Login.next ↦ perform w a p
        | Login.unauthorized ↦ (reply 401 not_logged_in, p)
        | _ ↦ (reply 403 denied, p)
      ]

-- What `handleLogin` writes.
unfoldable pub login_response : Site → Login.Answer → Response
login_response w Login.welcome = record {
  status = 200;
  answer = done;
  cookie = some (set_session w.codec w.mac w.unix);
}
login_response w Login.locked = reply 429 locked
login_response w Login.bad_request = reply 400 undecodable
login_response w Login.wrong_password = reply 401 wrong_password
login_response w _ = reply 403 denied

unfoldable pub log_in : Site → HttpRequest → Program → Response × Program
log_in w q p =
    let (a, panel) =
      handle_login (host_of w) p.server (client_ip w q) (decoded w.bodies.password q) p.panel in
    (login_response w a, record p { panel = panel })

-- `handleIndex`
unfoldable pub index_page : Program → List String → Response
index_page p [] = reply 404 missing
index_page p (a ∷ []) = if p.has_ui then reply 200 (page (a ∷ [])) else reply 404 no_ui
index_page p (a ∷ b ∷ rest) =
    if str_eq a "api"
    then reply 404 missing
    else if p.has_ui
    then reply 200 (page (a ∷ b ∷ rest))
    else reply 404 no_ui

-- The `ServeMux` of `apiHandler`, for a path below the prefix.
unfoldable pub serve_at : Site → HttpRequest → Program → List String → Endpoint → Response × Program
serve_at w q p path login = log_in w q p
serve_at w q p path logout = (record { status = 200; answer = done; cookie = some logged_out }, p)
serve_at w q p path show_metrics = (
  if may_visit (host_of w) (client_ip w q) p.server
      then reply 200 (
          metrics (overview p.server) (list_rules w.order p.server p.stats p.health)
            (list_clients p.server))
      else reply 403 denied,
  p,
)
serve_at w q p path client_error = (
  if may_visit (host_of w) (client_ip w q) p.server then reply 200 done else reply 404 missing,
  p,
)
serve_at w q p path other = (index_page p path, p)
serve_at w q p path e = guarded w q p (action w q p e)

-- The path below the prefix, if it has one.
unfoldable pub below : List String → List String → Option (List String)
below [] path = some path
below (s ∷ prefix) [] = none
below (s ∷ prefix) (t ∷ path) = let rest = below prefix path in if str_eq s t then rest else none

-- `Handler`. The prefix alone is redirected to the prefix with a slash.
unfoldable pub serve_http : Site → HttpRequest → Program → Response × Program
serve_http w q p = elim (below p.prefix q.path) [
  | none ↦ (reply 404 missing, p)
  | some [] ↦ (reply 301 moved, p)
  | some (s ∷ path) ↦ serve_at w q p (s ∷ path) (route q.method (s ∷ path))
]
