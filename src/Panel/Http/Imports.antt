-- ===== src/Panel/Http/Imports.antt =====
-- panel/panel.go: a configuration that one panel exports and another one imports.
use caochuan.Base.{
  ℕ, zero, suc, refl, String-discrete, ◌≡◌, ap, ◌∙◌, ◌≤◌, none, some, [], ◌∷◌, List, length, take,
  arith,
}
use caochuan.Config.{ServerConfig}
use caochuan.Config.File.{no_fault}
use caochuan.Server.State.{Server, Outcome}
use caochuan.Server.Settings.{export_config, import_config}
use caochuan.Server.Requests.{handle, import_all}
use caochuan.Server.Requests.Importable.{IsValidConfig}
use caochuan.Server.Requests.Valid.{import_config-export_config}
use caochuan.Panel.Session.{valid_session}
use caochuan.Panel.Login.{auth}
use caochuan.Panel.Login
use caochuan.Panel.Http.{HttpRequest, Site, host_of, Program, Response, client_ip, max_body, post}
use caochuan.Panel.Http.Paths.{route}
use caochuan.Panel.Http.Serve.{action, called, perform, guarded, serve_at, below, serve_http}

take_short : {A : Type 0} (n : ℕ) (xs : List A) → length xs ≤ n → take n xs ≡ xs
take_short zero [] h = refl
take_short (suc n) [] h = refl
take_short zero (x ∷ xs) h = absurd (omega (arith, h))
take_short (suc n) (x ∷ xs) h = ap (◌∷◌ x) (take_short n xs (omega (arith, h)))

called-none :
    (o : Outcome) (p : Program)
    → o.0 ≡ none
    → ((called o p).0.status ≡ 200) × ((called o p).1.server ≡ o.1)
unfolding called
called-none (none, s) p e = (refl, refl)
called-none (some x, s) p e = cc

serve_http-called :
    (w : Site) (q : HttpRequest) (p : Program) (new : ServerConfig)
    → below p.prefix q.path ≡ some ("api" ∷ "config" ∷ "import" ∷ [])
    → q.method ≡ post
    → auth
        (host_of w)
        p.server
        (client_ip w q)
        (valid_session w.codec w.mac w.unix q.cookie)
        p.panel
      ≡ Login.next
    → length q.body ≤ max_body
    → w.bodies.config q.body ≡ some new
    → serve_http w q p ≡ called (handle w.world (import_all new) p.server) p
unfolding serve_http serve_at guarded perform action route String-discrete
serve_http-called w q p new at verb may small body =
    let whole = take_short max_body q.body small in
    rw (at, verb, serve_http) (rw (may, guarded, whole) (rw (body, perform) refl))

-- A panel is asked to import a configuration, by a request that may use it, with a body of at most 64 KiB
-- that stands for what the panel of some other server exports, whose configuration is one that can be
-- imported. While the disk works, the answer is 200, and the server then has the exported configuration,
-- but for its own addresses, path, secret and TLS settings.
pub serve_http-imports :
    (w : Site) (q : HttpRequest) (p : Program) (s : Server)
    → below p.prefix q.path ≡ some ("api" ∷ "config" ∷ "import" ∷ [])
    → q.method ≡ post
    → auth
        (host_of w)
        p.server
        (client_ip w q)
        (valid_session w.codec w.mac w.unix q.cookie)
        p.panel
      ≡ Login.next
    → length q.body ≤ max_body
    → w.bodies.config q.body ≡ some (export_config s)
    → IsValidConfig w.world s.cfg
    → w.world.fault ≡ no_fault
    → ((serve_http w q p).0.status ≡ 200)
      × (export_config (serve_http w q p).1.server ≡ record s.cfg {
        tunnel_addr = p.server.cfg.tunnel_addr;
        panel_addr = p.server.cfg.panel_addr;
        panel_prefix = p.server.cfg.panel_prefix;
        secret = p.server.cfg.secret;
        no_tls = p.server.cfg.no_tls;
        tls_cert = p.server.cfg.tls_cert;
        tls_key = p.server.cfg.tls_key;
      })
unfolding handle
serve_http-imports w q p s at verb may small body valid works =
    let e = serve_http-called w q p (export_config s) at verb may small body in
    let (ok, kept) = import_config-export_config w.world s p.server valid works in
    let (fine, server) = called-none (import_config w.world (export_config s) p.server) p ok in
    (
      ap (λ (o : Response × Program). o.0.status) e ∙ fine,
      ap (λ (o : Response × Program). export_config o.1.server) e ∙ ap export_config server ∙ kept,
    )
