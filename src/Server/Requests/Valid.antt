-- ===== src/Server/Requests/Valid.antt =====
-- server/state.go: the configuration stays one that can be imported, over the panel's calls.
use caochuan.Base.{
  ℕ, String, ◌≡◌, refl, ◌∙◌, inl, inr, true, none, List, [], ◌∷◌, ◌++◌, arith, Bool-cases,
  Option-cases, is_some, set, All-snoc, All-set, All-AllBut, All-get_elem?,
}
use caochuan.Config.{Rule, ServerConfig, ClientUser}
use caochuan.Config.Acl.{new_acl}
use caochuan.Config.File.{save, save_works, no_fault}
use caochuan.Server.State.{World, Server}
use caochuan.Server.Apply.{apply_rules}
use caochuan.Server.Validate.{validate_rule}
use caochuan.Server.Rules.Cases.{add_rule-cases, update_rule-cases, set_rule_enabled-cases}
use caochuan.Server.Rules.{
  commit_rules, delete_rule, broadcast_rules, with_rules, remove_rule, find_index, enrol,
}
use caochuan.Server.Rules.Tidy.{remove_rule-All}
use caochuan.Server.Settings.{
  export_config, set_ip_whitelist, set_ip_blacklist, set_password, commit_config, set_notify,
  import_config, import_error, imported,
}
use caochuan.Server.Requests.Importable.{
  AreValid, IsValidConfig, alike-IsValidConfig, with_rules-IsValidConfig, validate_rule-switched,
  import_error-none, none-import_error, imported-IsValidConfig,
}
use caochuan.Server.Requests.Registered.{add_client-IsValidConfig, delete_client-IsValidConfig}
use caochuan.Server.Requests.{
  Request, handle, add_a_rule, update_a_rule, delete_a_rule, enable_a_rule, add_a_client,
  delete_a_client, whitelist, blacklist, change_password, notify, import_all,
}

module _ (w : World) where
  commit_rules-IsValidConfig :
      (rules : List Rule) (s : Server)
      → IsValidConfig w s.cfg
      → AreValid w s.cfg.clients rules
      → IsValidConfig w (commit_rules w rules s).1.cfg
  unfolding commit_rules broadcast_rules apply_rules
  commit_rules-IsValidConfig rules s v h =
      elim (Bool-cases (save w.fault (with_rules rules s.cfg) s.disk).0) [
        | inl p ↦ rw (p, commit_rules) (with_rules-IsValidConfig w rules s.cfg v h)
        | inr p ↦ rw (p, commit_rules) v
      ]

  import_config-IsValidConfig :
      (new : ServerConfig) (s : Server)
      → IsValidConfig w s.cfg
      → IsValidConfig w (import_config w new s).1.cfg
  unfolding import_config broadcast_rules apply_rules
  import_config-IsValidConfig new s v = elim (Option-cases (import_error w new)) [
    | inr (x, e) ↦ rw (e, import_config) v
    | inl e ↦ elim (Bool-cases (save w.fault (imported new s.cfg) s.disk).0) [
      | inl f ↦
          rw (e, f, import_config) (imported-IsValidConfig w new s.cfg (import_error-none w new e))
      | inr f ↦ rw (e, f, import_config) v
    ]
  ]

  commit_config-IsValidConfig :
      (cfg : ServerConfig) (s : Server)
      → IsValidConfig w s.cfg
      → IsValidConfig w cfg
      → IsValidConfig w (commit_config w cfg s).1.cfg
  unfolding commit_config
  commit_config-IsValidConfig cfg s v h = elim (Bool-cases (save w.fault cfg s.disk).0) [
    | inl p ↦ rw (p, commit_config) h
    | inr p ↦ rw (p, commit_config) v
  ]

  AreValid-set :
      (clients : List ClientUser) (rules : List Rule) (i : ℕ) (r : Rule)
      → AreValid w clients rules
      → validate_rule w r clients ≡ none
      → AreValid w clients (set rules i r)
  AreValid-set clients rules i r v h =
      let P = λ (q : Rule). validate_rule w q clients ≡ none in
      All-set P rules i r (All-AllBut P rules i v) h

  delete_rule-IsValidConfig :
      (id : String) (s : Server)
      → IsValidConfig w s.cfg
      → IsValidConfig w (delete_rule w id s).1.cfg
  unfolding delete_rule broadcast_rules
  delete_rule-IsValidConfig id s v = elim (Bool-cases (is_some (find_index id s.cfg.rules))) [
    | inr e ↦ rw (e, delete_rule) v
    | inl e ↦
        rw (e, delete_rule)
          (with_rules-IsValidConfig w (remove_rule id s.cfg.rules) s.cfg v
            (remove_rule-All (λ r. validate_rule w r s.cfg.clients ≡ none) id s.cfg.rules v.rules))
  ]

  set_ip_whitelist-IsValidConfig :
      (entries : List String) (s : Server)
      → IsValidConfig w s.cfg
      → IsValidConfig w (set_ip_whitelist w entries s).1.cfg
  unfolding set_ip_whitelist
  set_ip_whitelist-IsValidConfig entries s v =
      elim (Bool-cases (is_some (new_acl w.netip entries))) [
        | inr e ↦ rw (e, set_ip_whitelist) v
        | inl e ↦
            rw (e, set_ip_whitelist)
              (commit_config-IsValidConfig (record s.cfg { ip_whitelist = entries }) s v
                (record { whitelist = e; blacklist = v.blacklist; rules = v.rules }))
      ]

  set_ip_blacklist-IsValidConfig :
      (entries : List String) (s : Server)
      → IsValidConfig w s.cfg
      → IsValidConfig w (set_ip_blacklist w entries s).1.cfg
  unfolding set_ip_blacklist commit_config
  set_ip_blacklist-IsValidConfig entries s v =
      elim (Bool-cases (is_some (new_acl w.netip entries))) [
        | inr e ↦ rw (e, set_ip_blacklist) v
        | inl e ↦
            elim (Bool-cases (save w.fault (record s.cfg { ip_blacklist = entries }) s.disk).0) [
              | inl f ↦
                  rw (e, set_ip_blacklist, f, commit_config)
                    (record { whitelist = v.whitelist; blacklist = e; rules = v.rules })
              | inr f ↦ rw (e, set_ip_blacklist, f, commit_config) v
            ]
      ]

  -- Every call of the panel, the import included, whether it succeeds or not, keeps the configuration one
  -- whose lists compile and whose rules pass `validateRule` with the clients that are then registered.
  pub handle-IsValidConfig :
      (q : Request) (s : Server) → IsValidConfig w s.cfg → IsValidConfig w (handle w q s).1.cfg
  unfolding handle set_password set_notify commit_config
  handle-IsValidConfig (add_a_rule r) s v =
      add_rule-cases (λ o. IsValidConfig w o.1.cfg) w s r (λ e. v)
        λ good clear. commit_rules-IsValidConfig (s.cfg.rules ++ (enrol w r ∷ [])) s v (
          All-snoc (λ q. validate_rule w q s.cfg.clients ≡ none) s.cfg.rules (enrol w r) v.rules
            (validate_rule-switched w r (enrol w r).id true s.cfg.clients ∙ good))
  handle-IsValidConfig (update_a_rule id r) s v =
      update_rule-cases (λ o. IsValidConfig w o.1.cfg) w s id r (λ e. v)
        λ i old nr g same good clear.
          commit_rules-IsValidConfig (set s.cfg.rules i nr) s v
            (AreValid-set s.cfg.clients s.cfg.rules i nr v.rules good)
  handle-IsValidConfig (enable_a_rule id on) s v =
      set_rule_enabled-cases (λ o. IsValidConfig w o.1.cfg) w s id on (λ e. v)
        λ i old g.
          let P = λ (q : Rule). validate_rule w q s.cfg.clients ≡ none in
          commit_rules-IsValidConfig (set s.cfg.rules i (record old { enabled = on })) s v (
            AreValid-set s.cfg.clients s.cfg.rules i (record old { enabled = on }) v.rules
              (validate_rule-switched w old old.id on s.cfg.clients
                ∙ All-get_elem? P s.cfg.rules i old v.rules g))
  handle-IsValidConfig (delete_a_rule id) s v = delete_rule-IsValidConfig id s v
  handle-IsValidConfig (import_all new) s v = import_config-IsValidConfig new s v
  handle-IsValidConfig (add_a_client name note) s v = add_client-IsValidConfig w name note s v
  handle-IsValidConfig (delete_a_client name) s v = delete_client-IsValidConfig w name s v
  handle-IsValidConfig (whitelist entries) s v = set_ip_whitelist-IsValidConfig entries s v
  handle-IsValidConfig (blacklist entries) s v = set_ip_blacklist-IsValidConfig entries s v
  handle-IsValidConfig (change_password p) s v =
      alike-IsValidConfig w s.cfg (set_password w p s).1.cfg (ground arith) (ground arith)
        (ground arith) (ground arith) v
  handle-IsValidConfig (notify url format) s v =
      alike-IsValidConfig w s.cfg (set_notify w url format s).1.cfg (ground arith) (ground arith)
        (ground arith) (ground arith) v

  -- What the panel exports of a server with such a configuration, any server with a working disk takes:
  -- it then has the exported configuration, but for its own addresses, path, secret and TLS settings.
  pub import_config-export_config :
      (s t : Server)
      → IsValidConfig w s.cfg
      → w.fault ≡ no_fault
      → ((import_config w (export_config s) t).0 ≡ none)
        × (export_config (import_config w (export_config s) t).1 ≡ record s.cfg {
          tunnel_addr = t.cfg.tunnel_addr;
          panel_addr = t.cfg.panel_addr;
          panel_prefix = t.cfg.panel_prefix;
          secret = t.cfg.secret;
          no_tls = t.cfg.no_tls;
          tls_cert = t.cfg.tls_cert;
          tls_key = t.cfg.tls_key;
        })
  unfolding import_config imported broadcast_rules apply_rules
  import_config-export_config s t v works =
      let takes = none-import_error w s.cfg v in
      let saved : (save w.fault (imported s.cfg t.cfg) t.disk).0 ≡ true =
        rw works (save_works (imported s.cfg t.cfg) t.disk) in
      (rw (takes, import_config, saved) refl, rw (takes, import_config, saved) refl)
