-- ===== src/Panel/Http/Guarded.antt =====
-- panel/panel.go: what a request over HTTP can do to the server.
use caochuan.Base.{
  String, ◌≡◌, refl, ◌≢◌, ◌↔◌, ◌⊎◌, inl, inr, true, Option, none, some, List, [], ◌∷◌, arith,
}
use caochuan.Server.State.{Outcome, ServerError}
use caochuan.Server.Requests.{Request, handle}
use caochuan.Panel.Session.{valid_session}
use caochuan.Panel.Login.{may_visit, auth}
use caochuan.Panel.Login
use caochuan.Panel.Http.{HttpRequest, Site, host_of, Program, Response, client_ip, error_status}
use caochuan.Panel.Http.Paths.{Endpoint, route, login, logout, show_metrics, client_error, other}
use caochuan.Panel.Http.Serve.{
  Action, shows, calls, tries, action, called, perform, guarded, log_in, serve_at, below,
  serve_http,
}

-- The address may use the panel, and the request has a session where the panel wants one.
pub record IsAuthorised (w : Site) (q : HttpRequest) (p : Program) : Type 0 where
  pub allowed : may_visit (host_of w) (client_ip w q) p.server ≡ true
  pub session : (p.panel.no_auth ≡ true) ⊎ (valid_session w.codec w.mac w.unix q.cookie ≡ true)

-- The server is as it was, or it is as the call that the action stands for leaves it, and the status is
-- that of the call; then the request was authorised.
abbrev Effect : Site → HttpRequest → Program → Action → Response × Program → Type 0
Effect w q p a o =
    (o.1.server ≡ p.server)
    ⊎ IsAuthorised w q p
      × ((r : Request) × (a ≡ calls (some r))
          × (o.1.server ≡ (handle w.world r p.server).1)
          × (o.0.status ≡ 200 ↔ (handle w.world r p.server).0 ≡ none))

error_status-large : (e : ServerError) → error_status e ≢ 200
unfolding error_status
error_status-large e = ground arith

called-status : (o : Outcome) (p : Program) → (called o p).0.status ≡ 200 ↔ o.0 ≡ none
unfolding called
called-status (none, s) p = (λ _. refl, λ _. refl)
called-status (some e, s) p = (λ h. absurd (error_status-large e h), λ h. cc)

called-server : (o : Outcome) (p : Program) → (called o p).1.server ≡ o.1
unfolding called
called-server (none, s) p = refl
called-server (some e, s) p = refl

perform-Effect :
    (w : Site) (q : HttpRequest) (p : Program) (a : Action)
    → IsAuthorised w q p
    → Effect w q p a (perform w a p)
unfolding perform
perform-Effect w q p (shows x) h = inl refl
perform-Effect w q p (calls none) h = inl refl
perform-Effect w q p tries h = inl refl
perform-Effect w q p (calls (some r)) h =
    let o = handle w.world r p.server in inr (h, (r, refl, called-server o p, called-status o p))

auth-IsAuthorised :
    (w : Site) (q : HttpRequest) (p : Program)
    → auth
        (host_of w)
        p.server
        (client_ip w q)
        (valid_session w.codec w.mac w.unix q.cookie)
        p.panel
      ≡ Login.next
    → IsAuthorised w q p
unfolding auth
auth-IsAuthorised w q p e = record { allowed = ground (arith, e); session = ground (arith, e) }

guarded-Effect :
    (w : Site) (q : HttpRequest) (p : Program) (a : Action) (o : Login.Answer)
    → auth
        (host_of w)
        p.server
        (client_ip w q)
        (valid_session w.codec w.mac w.unix q.cookie)
        p.panel
      ≡ o
    → Effect w q p a (guarded w q p a)
unfolding guarded
guarded-Effect w q p a Login.next e =
    rw (e, guarded) (perform-Effect w q p a (auth-IsAuthorised w q p e))
guarded-Effect w q p a Login.unauthorized e = inl (rw (e, guarded) refl)
guarded-Effect w q p a _ e = inl (rw (e, guarded) refl)

serve_at-Effect :
    (w : Site) (q : HttpRequest) (p : Program) (path : List String) (e : Endpoint)
    → Effect w q p (action w q p e) (serve_at w q p path e)
unfolding serve_at log_in
serve_at-Effect w q p path login = inl refl
serve_at-Effect w q p path logout = inl refl
serve_at-Effect w q p path show_metrics = inl refl
serve_at-Effect w q p path client_error = inl refl
serve_at-Effect w q p path other = inl refl
serve_at-Effect w q p path e =
    guarded-Effect w q p (action w q p e)
      (auth (host_of w) p.server (client_ip w q) (valid_session w.codec w.mac w.unix q.cookie)
        p.panel)
      refl

abbrev Guarded : Site → HttpRequest → Program → Response × Program → Type 0
Guarded w q p o =
    (o.1.server ≡ p.server)
    ⊎ IsAuthorised w q p
      × ((r : Request) × (path : List String) × (below p.prefix q.path ≡ some path)
          × (action w q p (route q.method path) ≡ calls (some r))
          × (o.1.server ≡ (handle w.world r p.server).1)
          × (o.0.status ≡ 200 ↔ (handle w.world r p.server).0 ≡ none))

Effect-Guarded :
    (w : Site) (q : HttpRequest) (p : Program) (path : List String) (o : Response × Program)
    → below p.prefix q.path ≡ some path
    → Effect w q p (action w q p (route q.method path)) o
    → Guarded w q p o
Effect-Guarded w q p path o e (inl h) = inl h
Effect-Guarded w q p path o e (inr (h, (r, a, s, t))) = inr (h, (r, path, e, a, s, t))

below-Guarded :
    (w : Site) (q : HttpRequest) (p : Program) (b : Option (List String))
    → below p.prefix q.path ≡ b
    → Guarded w q p (serve_http w q p)
unfolding serve_http
below-Guarded w q p none e = inl (rw (e, serve_http) refl)
below-Guarded w q p (some []) e = inl (rw (e, serve_http) refl)
below-Guarded w q p (some (s ∷ path)) e =
    let at = serve_at w q p (s ∷ path) (route q.method (s ∷ path)) in
    let same : serve_http w q p ≡ at = rw (e, serve_http) refl in
    rw same (
      Effect-Guarded w q p (s ∷ path) at e
        (serve_at-Effect w q p (s ∷ path) (route q.method (s ∷ path))))

-- A request over HTTP leaves the server as it is; or it comes with a path below the prefix, from an
-- address that may use the panel, and with a session if the panel wants one, and then the server is as
-- the call leaves it that the method, the path and the decoded body stand for. Such a request is
-- answered with 200 exactly if the call succeeded.
pub serve_http-Guarded :
    (w : Site) (q : HttpRequest) (p : Program)
    → let o = serve_http w q p in
      (o.1.server ≡ p.server)
      ⊎ IsAuthorised w q p
        × ((r : Request) × (path : List String) × (below p.prefix q.path ≡ some path)
            × (action w q p (route q.method path) ≡ calls (some r))
            × (o.1.server ≡ (handle w.world r p.server).1)
            × (o.0.status ≡ 200 ↔ (handle w.world r p.server).0 ≡ none))
serve_http-Guarded w q p = below-Guarded w q p (below p.prefix q.path) refl
