-- ===== src/Server/Settings.antt =====
-- server/state.go: the lists of addresses, the password, the notifications, and the import of a whole
-- configuration.
use caochuan.Base.{
  ℕ, ◌+◌, String, not, ◌&&◌, Option, none, some, List, [], ◌∷◌, if◌then◌else◌, str_eq, is_some,
}
use caochuan.Base.Dict.{Dict}
use caochuan.Config.{Rule, ServerConfig, ClientUser}
use caochuan.Config.Acl.{new_acl}
use caochuan.Config.File.{save}
use caochuan.Server.Notify.{set_notifier}
use caochuan.Server.State.{
  World, Server, Outcome, ServerError, save_failed, bad_list, empty_password, bad_format,
  ClientConn,
}
use caochuan.Server.Validate.{registered, validate_rule}
use caochuan.Server.Apply.{apply_rules}
use caochuan.Server.Rules.{broadcast_rules}

-- A changed configuration is saved; where that fails, the old one is put back.
unfoldable pub commit_config : World → ServerConfig → Server → Outcome
commit_config w cfg s =
    let (saved, disk) = save w.fault cfg s.disk in
    if saved
    then (none, record s { cfg = cfg; disk = disk })
    else (some save_failed, record s { disk = disk })

-- `SetIPWhitelist`
unfoldable pub set_ip_whitelist : World → List String → Server → Outcome
set_ip_whitelist w entries s =
    if is_some (new_acl w.netip entries)
    then commit_config w (record s.cfg { ip_whitelist = entries }) s
    else (some bad_list, s)

-- `s.blVer.Add(1)`, where the call has succeeded.
abbrev bump_on_success : Outcome → Outcome
bump_on_success (none, s) = (none, record s { bl_ver = s.bl_ver + 1 })
bump_on_success (some e, s) = (some e, s)

-- `SetIPBlacklist`
unfoldable pub set_ip_blacklist : World → List String → Server → Outcome
set_ip_blacklist w entries s =
    if is_some (new_acl w.netip entries)
    then bump_on_success (commit_config w (record s.cfg { ip_blacklist = entries }) s)
    else (some bad_list, s)

-- `SetPassword`
unfoldable pub set_password : World → String → Server → Outcome
set_password w password s =
    if str_eq password ""
    then (some empty_password, s)
    else commit_config w (record s.cfg { password = password }) s

abbrev pub notify_as : ServerConfig → Server → Server
notify_as cfg s = record s { notifier = set_notifier cfg.notify_url cfg.notify_format s.notifier }

-- `SetNotify`
unfoldable pub set_notify : World → String → String → Server → Outcome
set_notify w url format s =
    if not (str_eq url "")
      && not (str_eq format "dingtalk")
      && not (str_eq format "feishu")
      && not (str_eq format "generic")
    then (some bad_format, s)
    else (let cfg = record s.cfg { notify_url = url; notify_format = format } in
        let (saved, disk) = save w.fault cfg s.disk in
        if saved
        then (none, notify_as cfg (record s { cfg = cfg; disk = disk }))
        else (some save_failed, notify_as s.cfg (notify_as cfg (record s { disk = disk }))))

-- `ExportConfig`
abbrev pub export_config : Server → ServerConfig
export_config s = s.cfg

-- The fields that `ImportConfig` takes over.
unfoldable pub imported : ServerConfig → ServerConfig → ServerConfig
imported new cfg = record cfg {
  password = new.password;
  no_auth = new.no_auth;
  ip_whitelist = new.ip_whitelist;
  ip_blacklist = new.ip_blacklist;
  notify_url = new.notify_url;
  notify_format = new.notify_format;
  log_file = new.log_file;
  clients = new.clients;
  rules = new.rules;
}

-- The first rule that `validateRule` refuses: its error.
unfoldable pub first_invalid : World → List Rule → List ClientUser → Option ServerError
first_invalid w [] clients = none
first_invalid w (r ∷ rs) clients =
    let rest = first_invalid w rs clients in
    elim (validate_rule w r clients) [ none ↦ rest | some e ↦ some e ]

-- The checks before the save.
unfoldable pub import_error : World → ServerConfig → Option ServerError
unfolding first_invalid
import_error w new =
    if not (is_some (new_acl w.netip new.ip_whitelist))
    then some bad_list
    else if not (is_some (new_acl w.netip new.ip_blacklist))
    then some bad_list
    else first_invalid w new.rules new.clients

-- The loop that closes the sessions of clients that are no longer registered.
pub close_unknown : List ClientUser → Dict ClientConn → List ℕ → List ℕ
close_unknown clients [] closed = closed
close_unknown clients ((name, cc) ∷ m) closed =
    close_unknown clients m (if registered name clients then closed else cc.session ∷ closed)

-- `ImportConfig`. `restoreCfg` puts the configuration back and sets the notifier by it.
unfoldable pub import_config : World → ServerConfig → Server → Outcome
unfolding imported close_unknown
import_config w new s = elim (import_error w new) [
  | some e ↦ (some e, notify_as s.cfg s)
  | none ↦
      let cfg = imported new s.cfg in
      let (saved, disk) = save w.fault cfg s.disk in
      if saved
      then (
        none,
        broadcast_rules w (
            apply_rules w (
              notify_as new (record s {
                cfg = cfg;
                disk = disk;
                closed = close_unknown cfg.clients s.clients s.closed;
              }))),
      )
      else (some save_failed, notify_as s.cfg (record s { disk = disk }))
]
