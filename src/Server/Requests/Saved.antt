-- ===== src/Server/Requests/Saved.antt =====
-- server/state.go: the file and the memory over a history of calls.
use caochuan.Base.{
  String, ◌≡◌, refl, ◌⊎◌, inl, inr, true, none, some, List, [], ◌∷◌, ◌++◌, arith, Option-cases, All,
}
use caochuan.Config.{Rule, ServerConfig, ClientUser}
use caochuan.Config.File.{save, save-atomic, save_works, no_fault}
use caochuan.Server.Notify.{set_notifier, send}
use caochuan.Server.State.{World, Server, Outcome}
use caochuan.Base.Dict.{Dict}
use caochuan.Server.Apply.{apply_rules, desired, launch, visit, visit_all, Progress}
use caochuan.Server.Rules.Cases.{add_rule-cases, update_rule-cases, set_rule_enabled-cases}
use caochuan.Server.Rules.{commit_rules, delete_rule, broadcast_rules, with_rules, remove_rule}
use caochuan.Server.Clients.{add_client, delete_client, keep_clients, close_session, remove_client}
use caochuan.Server.Settings.{
  set_ip_whitelist, set_ip_blacklist, set_password, commit_config, set_notify, import_config,
  imported, import_error, notify_as, close_unknown,
}
use caochuan.Server.Requests.{
  Request, handle, add_a_rule, update_a_rule, delete_a_rule, enable_a_rule, add_a_client,
  delete_a_client, whitelist, blacklist, change_password, notify, import_all,
}
use caochuan.Server.Requests.Rollback.{IsSynced, IsSaved, Ends, rolls_back, handle-Ends}

Ends-IsSaved : (s : Server) (o : Outcome) → Ends s o → IsSaved s → IsSaved o.1
Ends-IsSaved s (none, s') e v = e
Ends-IsSaved s (some x, s') e v = ground arith

keep_clients-IsSaved :
    (w : World) (clients : List ClientUser) (s : Server)
    → w.fault ≡ no_fault
    → IsSaved (keep_clients w clients s).1
unfolding keep_clients
keep_clients-IsSaved w clients s f = ground (
  arith,
  save-atomic w.fault (record s.cfg { clients = clients }) s.disk,
  save_works (record s.cfg { clients = clients }) s.disk,
)

add_client-IsSaved :
    (w : World) (name note : String) (s : Server)
    → w.fault ≡ no_fault
    → IsSaved s
    → IsSaved (add_client w name note s).1
unfolding add_client
add_client-IsSaved w name note s f v = ground (
  arith,
  keep_clients-IsSaved w
      (s.cfg.clients ++ (record { name = name; token = w.token; note = note } ∷ [])) s f,
)

delete_client-IsSaved :
    (w : World) (name : String) (s : Server)
    → w.fault ≡ no_fault
    → IsSaved s
    → IsSaved (delete_client w name s).1
unfolding delete_client
delete_client-IsSaved w name s f v =
    ground
      (arith, keep_clients-IsSaved w (remove_client name s.cfg.clients) (close_session name s) f)

delete_rule-IsSaved :
    (w : World) (id : String) (s : Server)
    → w.fault ≡ no_fault
    → IsSaved s
    → IsSaved (delete_rule w id s).1
unfolding delete_rule broadcast_rules
delete_rule-IsSaved w id s f v =
    let cfg = with_rules (remove_rule id s.cfg.rules) s.cfg in
    ground (arith, save-atomic w.fault cfg s.disk, save_works cfg s.disk)

handle-IsSaved :
    (w : World) (q : Request) (s : Server)
    → (rolls_back q ≡ true) ⊎ (w.fault ≡ no_fault)
    → IsSynced s
    → IsSaved s
    → IsSaved (handle w q s).1
unfolding handle rolls_back
handle-IsSaved w (add_a_client name note) s (inr f) y v = add_client-IsSaved w name note s f v
handle-IsSaved w (delete_a_client name) s (inr f) y v = delete_client-IsSaved w name s f v
handle-IsSaved w (delete_a_rule id) s (inr f) y v = delete_rule-IsSaved w id s f v
handle-IsSaved w (delete_a_rule id) s (inl h) y v = cc
handle-IsSaved w (add_a_client name note) s (inl h) y v = cc
handle-IsSaved w (delete_a_client name) s (inl h) y v = cc
handle-IsSaved w q s h y v = Ends-IsSaved s (handle w q s) (handle-Ends w q s (ground arith) y) v

-- The notifier after the listeners have been brought up to date posts to the same address.
visit-Synced :
    (w : World) (id : String) (r : Rule) (p : Progress)
    → ((visit w id r p).notifier.url ≡ p.notifier.url)
      × ((visit w id r p).notifier.format ≡ p.notifier.format)
unfolding visit launch send
visit-Synced w id r p = ground arith

visit_all-Synced :
    (w : World) (m : Dict Rule) (p : Progress)
    → ((visit_all w m p).notifier.url ≡ p.notifier.url)
      × ((visit_all w m p).notifier.format ≡ p.notifier.format)
unfolding visit_all
visit_all-Synced w [] p = (refl, refl)
visit_all-Synced w ((id, r) ∷ m) p =
    ground (arith, visit_all-Synced w m (visit w id r p), visit-Synced w id r p)

done-IsSynced :
    (w : World) (s : Server) → IsSynced s → IsSynced (broadcast_rules w (apply_rules w s))
unfolding broadcast_rules apply_rules
done-IsSynced w s y = ground (
  arith,
  visit_all-Synced w (w.order (desired s.cfg.rules))
      (record { runners = s.runners; notifier = s.notifier }),
)

commit_rules-IsSynced :
    (w : World) (rules : List Rule) (s : Server) → IsSynced s → IsSynced (commit_rules w rules s).1
unfolding commit_rules
commit_rules-IsSynced w rules s y =
    let (saved, disk) = save w.fault (with_rules rules s.cfg) s.disk in
    ground (arith, done-IsSynced w (record s { cfg = with_rules rules s.cfg; disk = disk }))

import_config-IsSynced :
    (w : World) (new : ServerConfig) (s : Server) → IsSynced s → IsSynced (import_config w new s).1
unfolding import_config set_notifier
import_config-IsSynced w new s y = elim (Option-cases (import_error w new)) [
  | inr (e, refused) ↦ ground arith
  | inl accepted ↦
      let cfg = imported new s.cfg in
      let (saved, disk) = save w.fault cfg s.disk in
      ground (
        arith,
        done-IsSynced w (
            notify_as new (record s {
              cfg = cfg;
              disk = disk;
              closed = close_unknown cfg.clients s.clients s.closed;
            })),
      )
]

handle-IsSynced : (w : World) (q : Request) (s : Server) → IsSynced s → IsSynced (handle w q s).1
unfolding handle delete_rule broadcast_rules add_client delete_client keep_clients close_session
    set_ip_whitelist set_ip_blacklist set_password set_notify commit_config set_notifier
handle-IsSynced w (add_a_rule r) s y =
    add_rule-cases (λ o. IsSynced o.1) w s r (λ e. y) (λ _ _. commit_rules-IsSynced w _ s y)
handle-IsSynced w (update_a_rule id r) s y =
    update_rule-cases (λ o. IsSynced o.1) w s id r (λ e. y)
      (λ i old nr _ _ _ _. commit_rules-IsSynced w _ s y)
handle-IsSynced w (delete_a_rule id) s y = ground arith
handle-IsSynced w (enable_a_rule id on) s y =
    set_rule_enabled-cases (λ o. IsSynced o.1) w s id on (λ e. y)
      (λ i old _. commit_rules-IsSynced w _ s y)
handle-IsSynced w (add_a_client name note) s y = ground arith
handle-IsSynced w (delete_a_client name) s y = ground arith
handle-IsSynced w (whitelist entries) s y = ground arith
handle-IsSynced w (blacklist entries) s y = ground arith
handle-IsSynced w (change_password p) s y = ground arith
handle-IsSynced w (notify url format) s y = ground arith
handle-IsSynced w (import_all new) s y = import_config-IsSynced w new s y

-- A history of calls, each with what it meets.
unfoldable pub serve : List (World × Request) → Server → Server
serve [] s = s
serve ((w, q) ∷ qs) s = serve qs (handle w q s).1

abbrev pub Tolerable : World × Request → Type 0
Tolerable (w, q) = (rolls_back q ≡ true) ⊎ (w.fault ≡ no_fault)

-- If the file holds the configuration and the notifier works by it, so it is after any history of
-- panel calls, in which the disk may fail under every call that puts the old configuration back.
pub serve-IsSaved :
    (qs : List (World × Request)) (s : Server)
    → All Tolerable qs
    → IsSynced s
    → IsSaved s
    → IsSynced (serve qs s) × IsSaved (serve qs s)
unfolding serve
serve-IsSaved [] s h y v = (y, v)
serve-IsSaved ((w, q) ∷ qs) s h y v =
    serve-IsSaved qs (handle w q s).1 h.1 (handle-IsSynced w q s y) (handle-IsSaved w q s h.0 y v)
