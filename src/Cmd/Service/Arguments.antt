-- ===== src/Cmd/Service/Arguments.antt =====
-- cmd/caochuan/service_windows.go: the service runs as it was installed.
use Prim.Native.String.{◌++◌ as join}
use text.Mathlib.TextLemmas.{append-ne-nil_of_right_ne-nil}
use caochuan.Base.{
  String, ◌≡◌, refl, ap, subst, ◌∙◌, ◌≢◌, ◌⊎◌, inl, inr, true, false, none, some, List, [], ◌∷◌,
  arith, Bool-cases, String-discrete, differ,
}
use caochuan.Cmd.Service.{
  parse_loop, default_path, parse_service_args, Installed, Powers, service_args, install_service,
  run_as, install_as, service_main,
}

-- What Windows passes to the service behind the subcommand.
abbrev pub started_with : List String → List String
started_with [] = []
started_with (a ∷ rest) = rest

parse_service_args-installed :
    (role path : String)
    → path ≢ ""
    → parse_service_args (started_with (service_args role path)) ≡ (role, path)
unfolding parse_service_args parse_loop String-discrete
parse_service_args-installed role path h = ground (arith, h)

default_path-ne : (role : String) → default_path role ≢ ""
unfolding String-discrete
default_path-ne role = append-ne-nil_of_right_ne-nil (join "conf/" role) (differ ".json" "" refl)

parse_service_args-ne : (args : List String) → (parse_service_args args).1 ≢ ""
unfolding parse_service_args
parse_service_args-ne args = ground (arith, default_path-ne (parse_loop args ("", "")).0)

-- What `service install` asks for.
installs :
    (args : List String) (role path : String)
    → service_main false ("install" ∷ args) ≡ install_as role path
    → (parse_service_args args ≡ (role, path)) × ((role ≡ "server") ⊎ (role ≡ "client"))
unfolding service_main String-discrete
installs args role path e =
    let r = (parse_service_args args).0 in
    elim (String-discrete r "server") [
      | yes s ↦ (ground (arith, e, s), inl (ground (arith, e, s)))
      | no n ↦ elim (String-discrete r "client") [
        | yes c ↦ (ground (arith, e, n, c), inr (ground (arith, e, n, c)))
        | no m ↦ absurd (ground (arith, e, n, m))
      ]
    ]

args-install_service :
    (w : Powers) (role path : String) (i : Installed)
    → (install_service w role path none).1 ≡ some i
    → i.args ≡ service_args role path
unfolding install_service
args-install_service w role path i f = elim (Bool-cases w.connects) [
  | inr c ↦ absurd (ground (arith, f, c))
  | inl c ↦ elim (Bool-cases w.creates) [
    | inr d ↦ absurd (ground (arith, f, c, d))
    | inl d ↦ ground (arith, f, c, d)
  ]
]

run_as-installed :
    (args : List String) (role path : String)
    → path ≢ ""
    → args ≡ service_args role path
    → service_main true (started_with args) ≡ run_as role path
unfolding service_main
run_as-installed args role path h e =
    ap (λ l. service_main true (started_with l)) e
    ∙ ap (λ (p : String × String). run_as p.0 p.1) (parse_service_args-installed role path h)

-- A service that `service install` has installed runs, each time that Windows starts it, with the role and
-- the path of the configuration that the installation was called with, whatever else stood among its
-- arguments; the role is one of the two that there are.
pub service_main-installed :
    (w : Powers) (args : List String) (role path : String) (i : Installed)
    → service_main false ("install" ∷ args) ≡ install_as role path
    → (install_service w role path none).1 ≡ some i
    → (service_main true (started_with i.args) ≡ run_as role path)
      × ((role ≡ "server") ⊎ (role ≡ "client"))
service_main-installed w args role path i e f =
    let (p, roles) = installs args role path e in
    let ne : path ≢ "" = subst (λ (q : String × String). q.1 ≢ "") p (parse_service_args-ne args) in
    (run_as-installed i.args role path ne (args-install_service w role path i f), roles)
