-- ===== src/Server/Requests/Running.antt =====
-- server/state.go and server/server.go: what runs is what is configured.
use caochuan.Base.{
  String, ◌≡◌, refl, sym, ap, ◌∙◌, ◌≢◌, inl, inr, true, Option, none, some, List, [], ◌∷◌, arith,
  if◌then◌else◌, Bool-cases, Option-cases, String-discrete, str_eq, is_some,
}
use mathlib.Core.Path.{subst₂}
use caochuan.Base.Dict.{Dict, lookup, insert, erase, lookup-insert, lookup-erase}
use caochuan.Config.{Rule, ServerConfig}
use caochuan.Config.File.{save}
use caochuan.Server.State.{World, Server, Outcome, Runner}
use caochuan.Server.Apply.{apply_rules, desired, collect_desired, wanted, same_as}
use caochuan.Server.Apply.Result.{VisitsAll, apply_rules_sound}
use caochuan.Server.Rules.Cases.{add_rule-cases, update_rule-cases, set_rule_enabled-cases}
use caochuan.Server.Rules.{
  commit_rules, delete_rule, broadcast_rules, with_rules, remove_rule, find_index,
}
use caochuan.Server.Clients.{add_client, delete_client, keep_clients, close_session}
use caochuan.Server.Settings.{
  set_ip_whitelist, set_ip_blacklist, set_password, commit_config, set_notify, import_config,
  import_error, imported,
}
use caochuan.Server.Requests.{
  Request, handle, add_a_rule, update_a_rule, delete_a_rule, enable_a_rule, add_a_client,
  delete_a_client, whitelist, blacklist, change_password, notify, import_all,
}

-- Each listener belongs to an enabled server-side rule and has its addresses.
abbrev pub Configured : Dict Runner → List Rule → Type 0
Configured runners rules =
    (id : String) (rn : Runner)
    → lookup id runners ≡ some rn
    → (r : Rule) × (lookup id (desired rules) ≡ some r) × (same_as rn r ≡ true)

-- The last rule with an id that is wanted, or what was there before.
unfoldable pub last_wanted : String → List Rule → Option Rule → Option Rule
last_wanted id [] o = o
last_wanted id (r ∷ rs) o =
    last_wanted id rs (if wanted r then if str_eq r.id id then some r else o else o)

pub lookup-collect_desired :
    (id : String) (rs : List Rule) (acc : Dict Rule)
    → lookup id (collect_desired rs acc) ≡ last_wanted id rs (lookup id acc)
unfolding collect_desired last_wanted
lookup-collect_desired id [] acc = refl
lookup-collect_desired id (r ∷ rs) acc = elim (Bool-cases (wanted r)) [
  | inr e ↦ rw (e, collect_desired, last_wanted) (lookup-collect_desired id rs acc)
  | inl e ↦
      rw (e, collect_desired, last_wanted)
        (lookup-collect_desired id rs (insert r.id r acc)
          ∙ ap (last_wanted id rs) (lookup-insert r.id id r acc))
]

last_wanted-remove_rule :
    (id j : String) (rs : List Rule) (o : Option Rule)
    → j ≢ id
    → last_wanted j (remove_rule id rs) o ≡ last_wanted j rs o
unfolding last_wanted remove_rule
last_wanted-remove_rule id j [] o ne = refl
last_wanted-remove_rule id j (r ∷ rs) o ne = elim (String-discrete r.id id) [
  | yes e ↦ ground arith
  | no e ↦ ground (
    arith,
    last_wanted-remove_rule id j rs (if wanted r then if str_eq r.id j then some r else o else o)
        ne,
  )
]

desired-remove_rule :
    (id j : String) (rules : List Rule)
    → j ≢ id
    → lookup j (desired (remove_rule id rules)) ≡ lookup j (desired rules)
unfolding desired
desired-remove_rule id j rules ne =
    lookup-collect_desired j (remove_rule id rules) []
    ∙ last_wanted-remove_rule id j rules none ne
    ∙ sym (lookup-collect_desired j rules [])

delete-Configured :
    (id : String) (runners : Dict Runner) (rules : List Rule)
    → Configured runners rules
    → Configured (erase id runners) (remove_rule id rules)
delete-Configured id runners rules c j rn e = elim (String-discrete id j) [
  | yes same ↦ ground (arith, lookup-erase id j runners)
  | no other ↦
      let (r, l, k) = c j rn (ground (arith, lookup-erase id j runners)) in
      (r, desired-remove_rule id j rules (λ p. other (sym p)) ∙ l, k)
]

module _ (w : World) (visits : (m : Dict Rule) → VisitsAll w.order m) where
  done-Configured :
      (s : Server) → Configured (broadcast_rules w (apply_rules w s)).runners s.cfg.rules
  unfolding broadcast_rules
  done-Configured s = apply_rules_sound w s (visits (desired s.cfg.rules))

  done-rules : (s : Server) → (broadcast_rules w (apply_rules w s)).cfg.rules ≡ s.cfg.rules
  unfolding broadcast_rules apply_rules
  done-rules s = refl

  commit_rules-Configured :
      (rules : List Rule) (s : Server)
      → Configured s.runners s.cfg.rules
      → let s' = (commit_rules w rules s).1 in Configured s'.runners s'.cfg.rules
  unfolding commit_rules
  commit_rules-Configured rules s c =
      elim (Bool-cases (save w.fault (with_rules rules s.cfg) s.disk).0) [
        | inl p ↦ rw (p, commit_rules) (rw (done-rules _) (done-Configured _))
        | inr p ↦ rw (p, commit_rules) c
      ]

  abbrev Runs : Outcome → Type 0
  Runs o = Configured o.1.runners o.1.cfg.rules

  import_config-Configured :
      (new : ServerConfig) (s : Server)
      → Configured s.runners s.cfg.rules
      → Runs (import_config w new s)
  unfolding import_config
  import_config-Configured new s c = elim (Option-cases (import_error w new)) [
    | inr (e, refused) ↦ rw (refused, import_config) c
    | inl accepted ↦ elim (Bool-cases (save w.fault (imported new s.cfg) s.disk).0) [
      | inl p ↦ rw (accepted, p, import_config) (rw (done-rules _) (done-Configured _))
      | inr p ↦ rw (accepted, p, import_config) c
    ]
  ]

  delete_rule-Configured :
      (id : String) (s : Server) → Configured s.runners s.cfg.rules → Runs (delete_rule w id s)
  unfolding delete_rule broadcast_rules
  delete_rule-Configured id s c = elim (Bool-cases (is_some (find_index id s.cfg.rules))) [
    | inl e ↦ rw (e, delete_rule) (delete-Configured id s.runners s.cfg.rules c)
    | inr e ↦ rw (e, delete_rule) c
  ]

  -- Whatever the call, its outcome and the disk do, if maps are visited entry by entry: if before
  -- it each listener belonged to an enabled server-side rule of the configuration and had its
  -- protocol, port, target and client, so it is after.
  pub handle-Configured :
      (q : Request) (s : Server)
      → Configured s.runners s.cfg.rules
      → let s' = (handle w q s).1 in Configured s'.runners s'.cfg.rules
  unfolding handle add_client delete_client keep_clients close_session set_ip_whitelist
      set_ip_blacklist set_password set_notify commit_config
  handle-Configured (add_a_rule r) s c =
      add_rule-cases Runs w s r (λ e. c) (λ _ _. commit_rules-Configured _ s c)
  handle-Configured (update_a_rule id r) s c =
      update_rule-cases Runs w s id r (λ e. c) (λ i old nr _ _ _ _. commit_rules-Configured _ s c)
  handle-Configured (delete_a_rule id) s c = delete_rule-Configured id s c
  handle-Configured (enable_a_rule id on) s c =
      set_rule_enabled-cases Runs w s id on (λ e. c) (λ i old _. commit_rules-Configured _ s c)
  handle-Configured (add_a_client name note) s c = subst₂ Configured (ground arith) (ground arith) c
  handle-Configured (delete_a_client name) s c = subst₂ Configured (ground arith) (ground arith) c
  handle-Configured (whitelist entries) s c = subst₂ Configured (ground arith) (ground arith) c
  handle-Configured (blacklist entries) s c = subst₂ Configured (ground arith) (ground arith) c
  handle-Configured (change_password p) s c = subst₂ Configured (ground arith) (ground arith) c
  handle-Configured (notify url format) s c = subst₂ Configured (ground arith) (ground arith) c
  handle-Configured (import_all new) s c = import_config-Configured new s c
