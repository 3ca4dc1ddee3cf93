-- ===== src/Server/Apply.antt =====
-- server/server.go: `applyRulesLocked` and `startRule`.
--
-- A listener binds unless its port is held under the same protocol, by others or by the listener of
-- another rule. The loop over the map `desired` visits it in the order `w.order` says.
pub mod Visits
pub mod Result
pub mod Ports
use caochuan.Base.{
  String, Bool, false, not, ◌&&◌, ◌||◌, none, some, List, [], ◌∷◌, if◌then◌else◌, str_eq,
}
use Prim.Native.String.{◌++◌ as append}
use caochuan.Base.Int.{eqb_ℤ}
use caochuan.Base.Dict.{Dict, lookup, insert, erase, contains, restrict}
use caochuan.Config.{Rule, side_of}
use caochuan.Server.Notify.{Notifier, send}
use caochuan.Server.State.{World, Server, Runner}

abbrev pub wanted : Rule → Bool
wanted r = r.enabled && str_eq (side_of r) "server"

-- The loop that fills `desired`: a later rule takes the place of an earlier one with its id.
unfoldable pub collect_desired : List Rule → Dict Rule → Dict Rule
collect_desired [] acc = acc
collect_desired (r ∷ rs) acc = collect_desired rs (if wanted r then insert r.id r acc else acc)

unfoldable pub desired : List Rule → Dict Rule
desired rules = collect_desired rules []

-- `runner.sameAs`
unfoldable pub same_as : Runner → Rule → Bool
same_as rn r =
    str_eq rn.proto r.proto
    && eqb_ℤ rn.listen r.listen
    && str_eq rn.target r.target
    && str_eq rn.client r.client

-- What the loop changes.
pub record Progress : Type 0 where
  pub runners : Dict Runner
  pub notifier : Notifier

abbrev pub runner_for : Rule → Runner
runner_for r = record {
  proto = r.proto;
  listen = r.listen;
  target = r.target;
  client = r.client;
  rule = r;
}

-- A port is held under a protocol.
unfoldable pub on_port : Runner → Rule → Bool
on_port rn r = str_eq rn.proto r.proto && eqb_ℤ rn.listen r.listen

-- Whether a listener holds the port of `r`.
pub holds : Rule → Dict Runner → Bool
unfolding on_port
holds r [] = false
holds r ((id, rn) ∷ m) = on_port rn r || holds r m

-- Whether `startRule` succeeds: a protocol it knows, and a free port.
unfoldable pub can_start : World → Rule → Dict Runner → Bool
can_start w r runners =
    (str_eq r.proto "tcp" || str_eq r.proto "udp")
    && not (w.taken r.proto r.listen)
    && not (holds r runners)

-- `startRule`, and what the loop does with its result.
unfoldable pub launch : World → String → Rule → Progress → Progress
launch w id r p =
    if can_start w r p.runners
    then record p { runners = insert id (runner_for r) p.runners }
    else record p { notifier = send w.now (append "rule_error|" id) p.notifier }

-- One round of the loop over `desired`.
unfoldable pub visit : World → String → Rule → Progress → Progress
visit w id r p = elim (lookup id p.runners) [
  | none ↦ launch w id r p
  | some cur ↦
      if same_as cur r then p else launch w id r (record p { runners = erase id p.runners })
]

unfoldable pub visit_all : World → Dict Rule → Progress → Progress
visit_all w [] p = p
visit_all w ((id, r) ∷ m) p = visit_all w m (visit w id r p)

-- `applyRulesLocked`
unfoldable pub apply_rules : World → Server → Server
apply_rules w s =
    let want = desired s.cfg.rules in
    let p = visit_all w (w.order want) (record { runners = s.runners; notifier = s.notifier }) in
    record s { runners = restrict (λ id. contains id want) p.runners; notifier = p.notifier }
