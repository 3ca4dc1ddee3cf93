-- ===== src/Server/Rules.antt =====
-- server/state.go and server/reverse.go: the operations on the rules, and the push to the clients.
--
-- Each operation is one call under the lock, with the broadcast after it. `save_failed` is the error of
-- `Save`; the frame of a push goes to the control stream of every client that has one, and may fail there.
pub mod Cases
pub mod Tidy
pub mod Push
use caochuan.Base.{
  ℕ, suc, ◌+◌, leb, String, Bool, true, ◌&&◌, Option, none, some, List, [], ◌∷◌, ◌++◌, map,
  if◌then◌else◌, str_eq, is_some, get_elem?, set,
}
use mathlib.Core.Option
use caochuan.Base.Dict.{erase, map_values}
use caochuan.Config.{Rule, ServerConfig, side_of}
use caochuan.Config.File.{save, short}
use caochuan.Proto.{max_frame}
use caochuan.Server.State.{
  World, Server, Outcome, conflict, not_found, save_failed, ClientConn, ReverseRule,
}
use caochuan.Server.Validate.{validate_rule, port_conflict}
use caochuan.Server.Apply.{apply_rules}

abbrev pub reverse_rule : Rule → ReverseRule
reverse_rule r = record {
  id = r.id;
  name = r.name;
  proto = r.proto;
  listen = r.listen;
  target = r.target;
  allow_from = r.allow_from;
  max_mbps = r.max_mbps;
  max_conns = r.max_conns;
  idle_min = r.idle_min;
  proxy_proto = r.proxy_proto;
}

-- The loop of `pushRulesTo`.
unfoldable pub reverse_rules : String → List Rule → List ReverseRule
reverse_rules name [] = []
reverse_rules name (r ∷ rs) =
    let rest = reverse_rules name rs in
    if str_eq (side_of r) "client" && str_eq r.client name && r.enabled
    then reverse_rule r ∷ rest
    else rest

-- Whether `WriteJSONFrame` writes a push: its text is not too large, and the stream takes it.
unfoldable pub is_written : World → String → List ReverseRule → Bool
is_written w name rules = leb (w.frame_size rules) max_frame && w.takes_frame name

-- `pushRulesTo`; a frame that is not written is only logged.
unfoldable pub push_rules_to : World → List Rule → ClientConn → ClientConn
push_rules_to w rules cc =
    let frame = reverse_rules cc.name rules in
    if cc.has_control && is_written w cc.name frame
    then record cc { pushed = frame ∷ cc.pushed }
    else cc

-- `broadcastRules`
unfoldable pub broadcast_rules : World → Server → Server
unfolding push_rules_to
broadcast_rules w s = record s { clients = map_values (push_rules_to w s.cfg.rules) s.clients }

abbrev pub with_rules : List Rule → ServerConfig → ServerConfig
with_rules rules cfg = record cfg { rules = rules }

-- `Save`, then the listeners and the clients follow; where it fails, the rules are put back.
unfoldable pub commit_rules : World → List Rule → Server → Outcome
commit_rules w rules s =
    let (saved, disk) = save w.fault (with_rules rules s.cfg) s.disk in
    if saved
    then (
      none,
      broadcast_rules w (apply_rules w (record s { cfg = with_rules rules s.cfg; disk = disk })),
    )
    else (some save_failed, record s { disk = disk })

abbrev pub enrol : World → Rule → Rule
enrol w r = record r { id = short w.token; enabled = true }

-- `AddRule`
unfoldable pub add_rule : World → Rule → Server → Outcome
add_rule w r s = elim (validate_rule w r s.cfg.clients) [
  | some e ↦ (some e, s)
  | none ↦ elim (port_conflict s.cfg.rules 0 none r.listen r "") [
    | some cur ↦ (some conflict, s)
    | none ↦ commit_rules w (s.cfg.rules ++ (enrol w r ∷ [])) s
  ]
]

-- The index of the first rule with an id.
unfoldable pub find_index : String → List Rule → Option ℕ
find_index id [] = none
find_index id (r ∷ rs) =
    let rest = find_index id rs in if str_eq r.id id then some 0 else Option.map suc rest

-- The end of `UpdateRule`, when the rule has been found at `idx`.
unfoldable pub update_at : World → ℕ → Rule → Rule → Server → Outcome
update_at w idx old nr s = elim (validate_rule w nr s.cfg.clients) [
  | some e ↦ (some e, s)
  | none ↦ elim (port_conflict s.cfg.rules 0 (some idx) nr.listen nr nr.id) [
    | some cur ↦ (some conflict, s)
    | none ↦ commit_rules w (set s.cfg.rules idx nr) s
  ]
]

-- `s.cfg.Rules[idx]`, and what follows with it.
unfoldable pub at_rule : String → Server → (ℕ → Rule → Outcome) → Outcome
at_rule id s next = elim (find_index id s.cfg.rules) [
  | none ↦ (some not_found, s)
  | some idx ↦ elim (get_elem? s.cfg.rules idx) [
    | none ↦ (some not_found, s)
    | some old ↦ next idx old
  ]
]

-- `UpdateRule`
unfoldable pub update_rule : World → String → Rule → Server → Outcome
update_rule w id nr s =
    at_rule id s (λ idx old. update_at w idx old (record nr { id = id; enabled = old.enabled }) s)

-- `SetRuleEnabled`
unfoldable pub set_rule_enabled : World → String → Bool → Server → Outcome
set_rule_enabled w id on s =
    at_rule id s (λ idx old. commit_rules w (set s.cfg.rules idx (record old { enabled = on })) s)

-- The rules without the first that has an id.
unfoldable pub remove_rule : String → List Rule → List Rule
remove_rule id [] = []
remove_rule id (r ∷ rs) = let rest = remove_rule id rs in if str_eq r.id id then rs else r ∷ rest

-- `DeleteRule`
unfoldable pub delete_rule : World → String → Server → Outcome
unfolding find_index remove_rule
delete_rule w id s =
    if is_some (find_index id s.cfg.rules)
    then (let cfg = with_rules (remove_rule id s.cfg.rules) s.cfg in
        let (saved, disk) = save w.fault cfg s.disk in
        (
          if saved then none else some save_failed,
          broadcast_rules w (record s { cfg = cfg; disk = disk; runners = erase id s.runners }),
        ))
    else (some not_found, s)
