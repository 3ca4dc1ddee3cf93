-- ===== src/Panel/Http/Hidden.antt =====
-- panel/panel.go: what a request without a session gets to know.
use caochuan.Base.{String, ◌≡◌, refl, ◌≢◌, false, Option, none, some, List, [], ◌∷◌, arith}
use caochuan.Panel.Session.{valid_session}
use caochuan.Panel.Login.{may_visit, auth}
use caochuan.Panel.Login
use caochuan.Panel.Http.{HttpRequest, Site, host_of, Program, client_ip}
use caochuan.Panel.Http.Paths.{Endpoint, route, login, logout, show_metrics, client_error, other}
use caochuan.Panel.Http.Serve.{Action, action, guarded, index_page, serve_at, below, serve_http}

-- The same panel before another server, with other counters and other lines in the log.
abbrev pub elsewhere : Program → Program → Program
elsewhere p there = record there { panel = p.panel; prefix = p.prefix; has_ui = p.has_ui }

index_page-elsewhere :
    (p p' : Program) (path : List String) → index_page p path ≡ index_page (elsewhere p p') path
unfolding index_page
index_page-elsewhere p p' [] = refl
index_page-elsewhere p p' (a ∷ []) = refl
index_page-elsewhere p p' (a ∷ b ∷ rest) = refl

module _ (w : Site) (q : HttpRequest) (p p' : Program) where
  guarded-hides :
      (o : Login.Answer) (a b : Action)
      → auth
          (host_of w)
          p.server
          (client_ip w q)
          (valid_session w.codec w.mac w.unix q.cookie)
          p.panel
        ≡ o
      → auth
          (host_of w)
          p'.server
          (client_ip w q)
          (valid_session w.codec w.mac w.unix q.cookie)
          p.panel
        ≡ o
      → o ≢ Login.next
      → (guarded w q p a).0 ≡ (guarded w q (elsewhere p p') b).0
  unfolding guarded
  guarded-hides Login.next a b e f h = absurd (h refl)
  guarded-hides Login.unauthorized a b e f h = rw (e, f, guarded) refl
  guarded-hides _ a b e f h = rw (e, f, guarded) refl

  module _ (asks : p.panel.no_auth ≡ false)
      (no_session : valid_session w.codec w.mac w.unix q.cookie ≡ false)
      (alike : may_visit (host_of w) (client_ip w q) p.server
        ≡ may_visit (host_of w) (client_ip w q) p'.server) where
    auth-alike :
        (auth
            (host_of w)
            p'.server
            (client_ip w q)
            (valid_session w.codec w.mac w.unix q.cookie)
            p.panel
          ≡ auth
              (host_of w)
              p.server
              (client_ip w q)
              (valid_session w.codec w.mac w.unix q.cookie)
              p.panel)
        × (auth
              (host_of w)
              p.server
              (client_ip w q)
              (valid_session w.codec w.mac w.unix q.cookie)
              p.panel
            ≢ Login.next)
    unfolding auth
    auth-alike = (rw alike refl, λ e. ground (arith, e, asks, no_session))

    serve_at-hides :
        (path : List String) (e : Endpoint)
        → e ≢ login
        → e ≢ show_metrics
        → (serve_at w q p path e).0 ≡ (serve_at w q (elsewhere p p') path e).0
    unfolding serve_at index_page
    serve_at-hides path login h g = absurd (h refl)
    serve_at-hides path logout h g = refl
    serve_at-hides path show_metrics h g = absurd (g refl)
    serve_at-hides path client_error h g = rw alike refl
    serve_at-hides path other h g = index_page-elsewhere p p' path
    serve_at-hides path e h g =
        guarded-hides
          (auth (host_of w) p.server (client_ip w q) (valid_session w.codec w.mac w.unix q.cookie)
            p.panel)
          (action w q p e) (action w q (elsewhere p p') e) refl auth-alike.0 auth-alike.1

    below-hides :
        (b : Option (List String))
        → below p.prefix q.path ≡ b
        → ((path : List String)
            → below p.prefix q.path ≡ some path
            → (route q.method path ≢ login) × (route q.method path ≢ show_metrics))
        → (serve_http w q p).0 ≡ (serve_http w q (elsewhere p p')).0
    unfolding serve_http
    below-hides none e h = rw (e, serve_http) refl
    below-hides (some []) e h = rw (e, serve_http) refl
    below-hides (some (s ∷ path)) e h =
        let k = h (s ∷ path) e in
        rw (e, serve_http) (serve_at-hides (s ∷ path) (route q.method (s ∷ path)) k.0 k.1)

-- Where the panel asks for a session and a request has none, the answer tells nothing of the server, its
-- counters or its log, beyond whether the address may use the panel: any other server that agrees on that
-- gives the same answer. The request must not be a login or for the metrics, which need no session.
pub serve_http-hides :
    (w : Site) (q : HttpRequest) (p p' : Program)
    → p.panel.no_auth ≡ false
    → valid_session w.codec w.mac w.unix q.cookie ≡ false
    → may_visit (host_of w) (client_ip w q) p.server
      ≡ may_visit (host_of w) (client_ip w q) p'.server
    → ((path : List String)
        → below p.prefix q.path ≡ some path
        → (route q.method path ≢ login) × (route q.method path ≢ show_metrics))
    → (serve_http w q p).0 ≡ (serve_http w q (elsewhere p p')).0
serve_http-hides w q p p' asks no_session alike h =
    below-hides w q p p' asks no_session alike (below p.prefix q.path) refl h
