-- ===== src/Server/Listener/Blacklist.antt =====
-- server/forward.go and server/state.go: which blacklist a running listener goes by.
use caochuan.Base.{
  ◌≤◌, ◌<◌, ◌≡◌, refl, sym, ap, ◌∙◌, ◌⊎◌, inl, inr, true, false, none, List, [], ◌∷◌, arith,
  Bool-cases, All,
}
use caochuan.Config.{Netip, Rule, ServerConfig}
use caochuan.Config.File.{no_fault, save, save_works}
use caochuan.Server.State.{World, Server}
use caochuan.Server.Rules.{with_rules, commit_rules, broadcast_rules, delete_rule}
use caochuan.Server.Apply.{apply_rules}
use caochuan.Server.Rules.Cases.{add_rule-cases, update_rule-cases, set_rule_enabled-cases}
use caochuan.Server.Clients.{add_client, delete_client, keep_clients, close_session}
use caochuan.Server.Settings.{
  set_ip_whitelist, set_ip_blacklist, set_password, set_notify, commit_config, import_config,
  import_error, imported,
}
use caochuan.Server.Requests.{
  Request, add_a_rule, update_a_rule, delete_a_rule, enable_a_rule, import_all, add_a_client,
  delete_a_client, whitelist, blacklist, change_password, notify, handle,
}
use caochuan.Server.Requests.Tidy.{is_import}
use caochuan.Server.Listener.{compiled, Guard, new_guard, refresh}

-- The same list under the same version, or a later version.
abbrev Steps : Server → Server → Type 0
Steps s s' =
    ((s'.bl_ver ≡ s.bl_ver) × (s'.cfg.ip_blacklist ≡ s.cfg.ip_blacklist)) ⊎ (s.bl_ver < s'.bl_ver)

commit_rules-Steps :
    (w : World) (rules : List Rule) (s : Server) → Steps s (commit_rules w rules s).1
unfolding commit_rules broadcast_rules apply_rules
commit_rules-Steps w rules s = elim (Bool-cases (save w.fault (with_rules rules s.cfg) s.disk).0) [
  | inl p ↦ rw (p, commit_rules) (inl (refl, refl))
  | inr p ↦ rw (p, commit_rules) (inl (refl, refl))
]

same-Steps : (s : Server) → Steps s s
same-Steps s = inl (refl, refl)

-- A call other than the import changes the blacklist only under a new version.
handle-Steps :
    (w : World) (q : Request) (s : Server) → is_import q ≡ false → Steps s (handle w q s).1
unfolding handle is_import add_client delete_client keep_clients close_session set_ip_whitelist
    set_ip_blacklist set_password set_notify commit_config delete_rule broadcast_rules
handle-Steps w (add_a_rule r) s h =
    add_rule-cases (λ o. Steps s o.1) w s r (λ e. same-Steps s) (λ _ _. commit_rules-Steps w _ s)
handle-Steps w (update_a_rule id r) s h =
    update_rule-cases (λ o. Steps s o.1) w s id r (λ e. same-Steps s)
      (λ i old nr _ _ _ _. commit_rules-Steps w _ s)
handle-Steps w (enable_a_rule id on) s h =
    set_rule_enabled-cases (λ o. Steps s o.1) w s id on (λ e. same-Steps s)
      (λ i old _. commit_rules-Steps w _ s)
handle-Steps w (delete_a_rule id) s h = ground arith
handle-Steps w (import_all new) s h = cc
handle-Steps w (add_a_client name note) s h = ground arith
handle-Steps w (delete_a_client name) s h = ground arith
handle-Steps w (whitelist entries) s h = ground arith
handle-Steps w (blacklist entries) s h = ground arith
handle-Steps w (change_password p) s h = ground arith
handle-Steps w (notify url format) s h = ground arith

module _ (n : Netip) where
  -- The guard's version is not ahead, and at the server's version it has the server's blacklist.
  pub record Follows (s : Server) (g : Guard n) : Type 0 where
    pub behind : g.ver ≤ s.bl_ver
    pub current : g.ver ≡ s.bl_ver → g.bl ≡ compiled n s.cfg.ip_blacklist

  new_guard-Follows : (r : Rule) (s : Server) → Follows s (new_guard n r s)
  unfolding new_guard
  new_guard-Follows r s = record { behind = omega arith; current = λ e. refl }

  Steps-Follows : (s s' : Server) (g : Guard n) → Steps s s' → Follows s g → Follows s' g
  Steps-Follows s s' g (inl (v, b)) f = record {
    behind = omega (arith, f.behind, v);
    current = λ e. f.current (e ∙ v) ∙ ap (compiled n) (sym b);
  }
  Steps-Follows s s' g (inr lt) f = record {
    behind = omega (arith, f.behind);
    current = λ e. absurd (omega (arith, f.behind));
  }

  -- After a round the listener goes by the blacklist of the configuration.
  refresh-current :
      (s : Server) (g : Guard n) → Follows s g → (refresh n s g).bl ≡ compiled n s.cfg.ip_blacklist
  unfolding refresh
  refresh-current s g f = ground (arith, f.current)

  refresh-Follows : (s : Server) (g : Guard n) → Follows s g → Follows s (refresh n s g)
  unfolding refresh
  refresh-Follows s g f = record {
    behind = ground (arith, f.behind);
    current = λ e. ground (arith, f.current);
  }

  -- What happens while a listener runs: a call of the panel, or a round of the listener.
  pub data Event : Type 1 where
    call : World → Request → Event
    round : Event

  abbrev pub IsPlain : Event → Type 0
  IsPlain (call w q) = is_import q ≡ false
  IsPlain round = Unit {0}

  pub events : List Event → Server → Guard n → Server × Guard n
  events [] s g = (s, g)
  events (call w q ∷ es) s g = events es (handle w q s).1 g
  events (round ∷ es) s g = events es s (refresh n s g)

  events-Follows :
      (es : List Event) (s : Server) (g : Guard n)
      → All IsPlain es
      → Follows s g
      → Follows (events es s g).0 (events es s g).1
  unfolding events
  events-Follows [] s g p f = f
  events-Follows (call w q ∷ es) s g p f =
      events-Follows es (handle w q s).1 g p.1
        (Steps-Follows s (handle w q s).1 g (handle-Steps w q s p.0) f)
  events-Follows (round ∷ es) s g p f =
      events-Follows es s (refresh n s g) p.1 (refresh-Follows s g f)

  -- A listener that started under some configuration decides, in the first round after any history of
  -- panel calls without an import and of its own rounds, by the blacklist that the configuration then
  -- has.
  pub refresh-events :
      (r : Rule) (es : List Event) (s : Server)
      → All IsPlain es
      → (refresh n (events es s (new_guard n r s)).0 (events es s (new_guard n r s)).1).bl
        ≡ compiled n (events es s (new_guard n r s)).0.cfg.ip_blacklist
  refresh-events r es s p =
      let g = new_guard n r s in
      refresh-current (events es s g).0 (events es s g).1
        (events-Follows es s g p (new_guard-Follows r s))

  -- After an import that succeeds the configuration has the new blacklist, but a listener that is at
  -- the server's version goes on with the old one.
  pub import_config-stale :
      (w : World) (new : ServerConfig) (s : Server) (g : Guard n)
      → import_error w new ≡ none
      → w.fault ≡ no_fault
      → Follows s g
      → g.ver ≡ s.bl_ver
      → ((import_config w new s).1.cfg.ip_blacklist ≡ new.ip_blacklist)
        × ((refresh n (import_config w new s).1 g).bl ≡ compiled n s.cfg.ip_blacklist)
  unfolding import_config imported refresh broadcast_rules apply_rules
  import_config-stale w new s g ok works f e =
      let saves : (save w.fault (imported new s.cfg) s.disk).0 ≡ true =
        rw works (save_works (imported new s.cfg) s.disk) in
      (ground (arith, ok, saves), ground (arith, ok, saves, e, f.current e))
