-- ===== src/Server/Requests/Tidy.antt =====
-- server/state.go: ids and ports over the panel's calls.
use caochuan.Base.{
  refl, Bool-cases, Option-cases, inl, inr, ◌≡◌, subst, ◌≢◌, Bool, true, false, none, arith, All,
}
use caochuan.Config.{ServerConfig}
use caochuan.Config.File.{save, save_works, short, no_fault}
use caochuan.Server.State.{World, Server}
use caochuan.Server.Apply.{apply_rules}
use caochuan.Server.Rules.{broadcast_rules}
use caochuan.Server.Rules.Tidy.{
  IsTidy, add_rule-IsTidy, update_rule-IsTidy, set_rule_enabled-IsTidy, delete_rule-IsTidy,
}
use caochuan.Server.Clients.{add_client, delete_client, keep_clients, close_session}
use caochuan.Server.Settings.{
  set_ip_whitelist, set_ip_blacklist, set_password, commit_config, set_notify, import_config,
  import_error, imported,
}
use caochuan.Server.Requests.{
  Request, handle, add_a_rule, update_a_rule, delete_a_rule, enable_a_rule, add_a_client,
  delete_a_client, whitelist, blacklist, change_password, notify, import_all,
}

unfoldable pub is_import : Request → Bool
is_import (import_all new) = true
is_import _ = false

-- The id that `RandToken` would give now is new.
abbrev pub IsFresh : World → Server → Type 0
IsFresh w s = (short w.token ≢ "") × All (λ cur. cur.id ≢ short w.token) s.cfg.rules

-- Every call but the import keeps the rules apart, whether it succeeds or not: no two rules have one
-- id, no id is empty, and no two rules want the same port on the server, or on the same client. The id
-- that is drawn for a new rule must be new.
pub handle-IsTidy :
    (w : World) (q : Request) (s : Server)
    → is_import q ≡ false
    → IsFresh w s
    → IsTidy s.cfg.rules
    → IsTidy (handle w q s).1.cfg.rules
unfolding handle is_import add_client delete_client keep_clients close_session set_ip_whitelist
    set_ip_blacklist set_password set_notify commit_config
handle-IsTidy w (add_a_rule r) s h f t = add_rule-IsTidy w r s f.0 f.1 t
handle-IsTidy w (update_a_rule id r) s h f t = update_rule-IsTidy w id r s t
handle-IsTidy w (delete_a_rule id) s h f t = delete_rule-IsTidy w id s t
handle-IsTidy w (enable_a_rule id on) s h f t = set_rule_enabled-IsTidy w id on s t
handle-IsTidy w (add_a_client name note) s h f t = subst IsTidy (ground arith) t
handle-IsTidy w (delete_a_client name) s h f t = subst IsTidy (ground arith) t
handle-IsTidy w (whitelist entries) s h f t = subst IsTidy (ground arith) t
handle-IsTidy w (blacklist entries) s h f t = subst IsTidy (ground arith) t
handle-IsTidy w (change_password p) s h f t = subst IsTidy (ground arith) t
handle-IsTidy w (notify url format) s h f t = subst IsTidy (ground arith) t
handle-IsTidy w (import_all new) s h f t = cc

-- A call that is no import of rules that are not apart.
abbrev pub ImportsTidy : Request → Type 0
ImportsTidy (import_all new) = IsTidy new.rules
ImportsTidy q = Unit {0}

import_config-IsTidy :
    (w : World) (new : ServerConfig) (s : Server)
    → IsTidy new.rules
    → IsTidy s.cfg.rules
    → IsTidy (import_config w new s).1.cfg.rules
unfolding import_config imported broadcast_rules apply_rules
import_config-IsTidy w new s h t = elim (Option-cases (import_error w new)) [
  | inr (x, e) ↦ rw (e, import_config) t
  | inl e ↦ elim (Bool-cases (save w.fault (imported new s.cfg) s.disk).0) [
    | inl f ↦ rw (e, f, import_config) h
    | inr f ↦ rw (e, f, import_config) t
  ]
]

-- Every call keeps the rules apart, an import of rules that are apart included.
pub handle-IsTidy_imports :
    (w : World) (q : Request) (s : Server)
    → ImportsTidy q
    → IsFresh w s
    → IsTidy s.cfg.rules
    → IsTidy (handle w q s).1.cfg.rules
unfolding handle is_import
handle-IsTidy_imports w (import_all new) s h f t = import_config-IsTidy w new s h t
handle-IsTidy_imports w (add_a_rule r) s h f t = handle-IsTidy w (add_a_rule r) s refl f t
handle-IsTidy_imports w (update_a_rule id r) s h f t =
    handle-IsTidy w (update_a_rule id r) s refl f t
handle-IsTidy_imports w (delete_a_rule id) s h f t = handle-IsTidy w (delete_a_rule id) s refl f t
handle-IsTidy_imports w (enable_a_rule id on) s h f t =
    handle-IsTidy w (enable_a_rule id on) s refl f t
handle-IsTidy_imports w (add_a_client name note) s h f t =
    handle-IsTidy w (add_a_client name note) s refl f t
handle-IsTidy_imports w (delete_a_client name) s h f t =
    handle-IsTidy w (delete_a_client name) s refl f t
handle-IsTidy_imports w (whitelist entries) s h f t = handle-IsTidy w (whitelist entries) s refl f t
handle-IsTidy_imports w (blacklist entries) s h f t = handle-IsTidy w (blacklist entries) s refl f t
handle-IsTidy_imports w (change_password p) s h f t = handle-IsTidy w (change_password p) s refl f t
handle-IsTidy_imports w (notify url format) s h f t = handle-IsTidy w (notify url format) s refl f t

import_config-rules :
    (w : World) (new : ServerConfig) (s : Server)
    → import_error w new ≡ none
    → w.fault ≡ no_fault
    → ((import_config w new s).0 ≡ none) × ((import_config w new s).1.cfg.rules ≡ new.rules)
unfolding import_config broadcast_rules apply_rules
import_config-rules w new s ok works = ground (arith, save_works (imported new s.cfg) s.disk)

-- When the disk works, an import whose lists are valid and whose rules are valid one by one
-- succeeds also if its rules are not kept apart, and the configuration then has rules that are not
-- kept apart.
pub import_config_untidy :
    (w : World) (new : ServerConfig) (s : Server)
    → import_error w new ≡ none
    → w.fault ≡ no_fault
    → ¬ IsTidy new.rules
    → ((import_config w new s).0 ≡ none) × ¬ IsTidy (import_config w new s).1.cfg.rules
import_config_untidy w new s ok works bad = (
  (import_config-rules w new s ok works).0,
  λ t. bad (subst IsTidy (import_config-rules w new s ok works).1 t),
)
