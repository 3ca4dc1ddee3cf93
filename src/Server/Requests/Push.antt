-- ===== src/Server/Requests/Push.antt =====
-- server/state.go and server/reverse.go: what the clients know after a call on the rules.
use caochuan.Base.{
  String, ◌≡◌, Bool, true, false, none, some, List, is_some, Bool-cases, Option-cases, inl, inr,
}
use caochuan.Server.State.{World, Server, Outcome}
use caochuan.Config.{Rule, ServerConfig}
use caochuan.Config.File.{save}
use caochuan.Server.Rules.{with_rules, remove_rule, find_index, commit_rules, delete_rule}
use caochuan.Server.Rules.Cases.{add_rule-cases, update_rule-cases, set_rule_enabled-cases}
use caochuan.Server.Rules.Push.{IsTold, broadcast_rules-IsTold}
use caochuan.Server.Settings.{import_config, imported, import_error}
use caochuan.Server.Requests.{
  Request, add_a_rule, update_a_rule, delete_a_rule, enable_a_rule, import_all, add_a_client,
  delete_a_client, whitelist, blacklist, change_password, notify, handle,
}

-- The calls that change rules.
unfoldable pub is_about_rules : Request → Bool
is_about_rules (add_a_rule r) = true
is_about_rules (update_a_rule id r) = true
is_about_rules (delete_a_rule id) = true
is_about_rules (enable_a_rule id on) = true
is_about_rules (import_all new) = true
is_about_rules _ = false

-- What an outcome says of the clients: after an error nothing, else that they have been told.
abbrev pub Tells : World → Outcome → Type 0
Tells w (none, s) = IsTold w s
Tells w (some e, s) = Unit {0}

commit_rules-Tells : (w : World) (rules : List Rule) (s : Server) → Tells w (commit_rules w rules s)
unfolding commit_rules
commit_rules-Tells w rules s = elim (Bool-cases (save w.fault (with_rules rules s.cfg) s.disk).0) [
  | inl e ↦ rw (e, commit_rules) (broadcast_rules-IsTold w _)
  | inr e ↦ rw (e, commit_rules) tt
]

delete_rule-Tells : (w : World) (id : String) (s : Server) → Tells w (delete_rule w id s)
unfolding delete_rule
delete_rule-Tells w id s = elim (Bool-cases (is_some (find_index id s.cfg.rules))) [
  | inr e ↦ rw (e, delete_rule) tt
  | inl e ↦
      elim (Bool-cases (save w.fault (with_rules (remove_rule id s.cfg.rules) s.cfg) s.disk).0) [
        | inl f ↦ rw (e, f, delete_rule) (broadcast_rules-IsTold w _)
        | inr f ↦ rw (e, f, delete_rule) tt
      ]
]

import_config-Tells :
    (w : World) (new : ServerConfig) (s : Server) → Tells w (import_config w new s)
unfolding import_config
import_config-Tells w new s = elim (Option-cases (import_error w new)) [
  | inr (x, e) ↦ rw (e, import_config) tt
  | inl e ↦ elim (Bool-cases (save w.fault (imported new s.cfg) s.disk).0) [
    | inl f ↦ rw (e, f, import_config) (broadcast_rules-IsTold w _)
    | inr f ↦ rw (e, f, import_config) tt
  ]
]

-- After a call that changes rules and succeeds, the last frame on the control stream of each client
-- online, if it has one and takes the frame, lists exactly the enabled rules of the new configuration that are
-- its own.
pub handle-Tells :
    (w : World) (q : Request) (s : Server) → is_about_rules q ≡ true → Tells w (handle w q s)
unfolding handle is_about_rules
handle-Tells w (add_a_rule r) s h =
    add_rule-cases (Tells w) w s r (λ e. tt) (λ _ _. commit_rules-Tells w _ s)
handle-Tells w (update_a_rule id r) s h =
    update_rule-cases (Tells w) w s id r (λ e. tt) (λ i old nr _ _ _ _. commit_rules-Tells w _ s)
handle-Tells w (enable_a_rule id on) s h =
    set_rule_enabled-cases (Tells w) w s id on (λ e. tt) (λ i old _. commit_rules-Tells w _ s)
handle-Tells w (delete_a_rule id) s h = delete_rule-Tells w id s
handle-Tells w (import_all new) s h = import_config-Tells w new s
handle-Tells w (add_a_client name note) s h = cc
handle-Tells w (delete_a_client name) s h = cc
handle-Tells w (whitelist entries) s h = cc
handle-Tells w (blacklist entries) s h = cc
handle-Tells w (change_password p) s h = cc
handle-Tells w (notify url format) s h = cc
