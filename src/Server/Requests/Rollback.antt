-- ===== src/Server/Requests/Rollback.antt =====
-- server/state.go: what a call leaves behind in memory and in the file, on every branch.
use caochuan.Base.{
  String, ◌≡◌, refl, ◌≢◌, inl, inr, Bool, true, false, none, some, List, arith, Option-cases,
  is_some,
}
use caochuan.Config.{Rule, ServerConfig}
use caochuan.Base.Dict.{erase}
use caochuan.Config.File.{save, save-atomic, save_fails, whole, no_fault}
use caochuan.Server.Notify.{known_format, set_notifier}
use caochuan.Server.State.{World, Server, Outcome, ServerError, save_failed}
use caochuan.Server.Apply.{apply_rules}
use caochuan.Server.Rules.Cases.{add_rule-cases, update_rule-cases, set_rule_enabled-cases}
use caochuan.Server.Rules.{
  commit_rules, delete_rule, broadcast_rules, with_rules, remove_rule, find_index,
}
use caochuan.Server.Settings.{
  set_ip_whitelist, set_ip_blacklist, set_password, commit_config, set_notify, import_config,
  imported, import_error, notify_as, close_unknown,
}
use caochuan.Server.Requests.{
  Request, handle, add_a_rule, update_a_rule, delete_a_rule, enable_a_rule, add_a_client,
  delete_a_client, whitelist, blacklist, change_password, notify, import_all,
}

-- The notifier works by the configuration.
pub record IsSynced (s : Server) : Type 0 where
  pub url : s.notifier.url ≡ s.cfg.notify_url
  pub format : s.notifier.format ≡ known_format s.cfg.notify_format

-- The file holds the configuration.
abbrev pub IsSaved : Server → Type 0
IsSaved s = s.disk.file ≡ some (whole s.cfg)

-- Nothing has changed but a temporary file.
pub record IsUnchanged (s s' : Server) : Type 0 where
  pub cfg : s'.cfg ≡ s.cfg
  pub file : s'.disk.file ≡ s.disk.file
  pub clients : s'.clients ≡ s.clients
  pub runners : s'.runners ≡ s.runners
  pub notifier : s'.notifier ≡ s.notifier
  pub auth_fails : s'.auth_fails ≡ s.auth_fails
  pub bl_ver : s'.bl_ver ≡ s.bl_ver
  pub closed : s'.closed ≡ s.closed

-- How a call ends: refused with nothing changed, or done and saved.
abbrev pub Ends : Server → Outcome → Type 0
Ends s (some e, s') = IsUnchanged s s'
Ends s (none, s') = IsSaved s'

done-cfg : (w : World) (s : Server) → (broadcast_rules w (apply_rules w s)).cfg ≡ s.cfg
unfolding broadcast_rules apply_rules
done-cfg w s = refl

done-disk : (w : World) (s : Server) → (broadcast_rules w (apply_rules w s)).disk ≡ s.disk
unfolding broadcast_rules apply_rules
done-disk w s = refl

commit_rules-Ends : (w : World) (rules : List Rule) (s : Server) → Ends s (commit_rules w rules s)
unfolding commit_rules
commit_rules-Ends w rules s =
    let (saved, disk) = save w.fault (with_rules rules s.cfg) s.disk in
    let s' = record s { cfg = with_rules rules s.cfg; disk = disk } in
    ground
      (arith, save-atomic w.fault (with_rules rules s.cfg) s.disk, done-cfg w s', done-disk w s')

commit_config-Ends : (w : World) (cfg : ServerConfig) (s : Server) → Ends s (commit_config w cfg s)
unfolding commit_config
commit_config-Ends w cfg s = ground (arith, save-atomic w.fault cfg s.disk)

refused-Ends : (s : Server) (e : ServerError) → Ends s (some e, s)
refused-Ends s e = ground arith

set_ip_whitelist-Ends :
    (w : World) (entries : List String) (s : Server) → Ends s (set_ip_whitelist w entries s)
unfolding set_ip_whitelist
set_ip_whitelist-Ends w entries s =
    ground (arith, commit_config-Ends w (record s.cfg { ip_whitelist = entries }) s)

set_ip_blacklist-Ends :
    (w : World) (entries : List String) (s : Server) → Ends s (set_ip_blacklist w entries s)
unfolding set_ip_blacklist
set_ip_blacklist-Ends w entries s =
    ground (arith, commit_config-Ends w (record s.cfg { ip_blacklist = entries }) s)

set_password-Ends : (w : World) (p : String) (s : Server) → Ends s (set_password w p s)
unfolding set_password
set_password-Ends w p s = ground (arith, commit_config-Ends w (record s.cfg { password = p }) s)

set_notify-Ends :
    (w : World) (url format : String) (s : Server) → IsSynced s → Ends s (set_notify w url format s)
unfolding set_notify set_notifier
set_notify-Ends w url format s y =
    ground (
      arith,
      save-atomic w.fault (record s.cfg { notify_url = url; notify_format = format }) s.disk,
    )

import_config-Ends :
    (w : World) (new : ServerConfig) (s : Server) → IsSynced s → Ends s (import_config w new s)
unfolding import_config set_notifier
import_config-Ends w new s y = elim (Option-cases (import_error w new)) [
  | inr (e, refused) ↦ ground arith
  | inl accepted ↦
      let cfg = imported new s.cfg in
      let (saved, disk) = save w.fault cfg s.disk in
      let s' = notify_as new (record s {
        cfg = cfg;
        disk = disk;
        closed = close_unknown cfg.clients s.clients s.closed;
      }) in
      ground (arith, save-atomic w.fault cfg s.disk, done-cfg w s', done-disk w s')
]

-- The calls that put the old configuration back when `Save` fails. `DeleteRule`, `AddClient` and
-- `DeleteClient` do not.
unfoldable pub rolls_back : Request → Bool
rolls_back (delete_a_rule id) = false
rolls_back (add_a_client name note) = false
rolls_back (delete_a_client name) = false
rolls_back _ = true

-- Each call but the deletion of a rule and the addition and the deletion of a client either reports
-- success, and then the file holds the configuration in memory, or reports an error, and then the
-- configuration, its file, the listeners, the clients, the notifier and the other state are as before.
-- The notifier must agree with the configuration before.
pub handle-Ends :
    (w : World) (q : Request) (s : Server)
    → rolls_back q ≡ true
    → IsSynced s
    → Ends s (handle w q s)
unfolding handle rolls_back
handle-Ends w (add_a_rule r) s h y =
    add_rule-cases (Ends s) w s r (refused-Ends s) (λ _ _. commit_rules-Ends w _ s)
handle-Ends w (update_a_rule id r) s h y =
    update_rule-cases (Ends s) w s id r (refused-Ends s)
      (λ i old nr _ _ _ _. commit_rules-Ends w _ s)
handle-Ends w (delete_a_rule id) s h y = cc
handle-Ends w (enable_a_rule id on) s h y =
    set_rule_enabled-cases (Ends s) w s id on (refused-Ends s) (λ i old _. commit_rules-Ends w _ s)
handle-Ends w (add_a_client name note) s h y = cc
handle-Ends w (delete_a_client name) s h y = cc
handle-Ends w (whitelist entries) s h y = set_ip_whitelist-Ends w entries s
handle-Ends w (blacklist entries) s h y = set_ip_blacklist-Ends w entries s
handle-Ends w (change_password p) s h y = set_password-Ends w p s
handle-Ends w (notify url format) s h y = set_notify-Ends w url format s y
handle-Ends w (import_all new) s h y = import_config-Ends w new s y

-- When the file holds the configuration and the disk fails under `DeleteRule` of a rule that there
-- is, the error is reported, but the rule is gone from memory and its listener is stopped, while
-- the file still holds the old configuration.
pub delete_rule_unsaved :
    (w : World) (id : String) (s : Server)
    → is_some (find_index id s.cfg.rules) ≡ true
    → IsSaved s
    → w.fault ≢ no_fault
    → let (e, s') = delete_rule w id s in
      (e ≡ some save_failed)
      × (s'.cfg.rules ≡ remove_rule id s.cfg.rules)
      × (s'.runners ≡ erase id s.runners)
      × (s'.disk.file ≡ some (whole s.cfg))
unfolding delete_rule broadcast_rules
delete_rule_unsaved w id s found saved bad = ground (
  arith,
  save-atomic w.fault (with_rules (remove_rule id s.cfg.rules) s.cfg) s.disk,
  save_fails w.fault (with_rules (remove_rule id s.cfg.rules) s.cfg) s.disk,
)
