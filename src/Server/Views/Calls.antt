-- ===== src/Server/Views/Calls.antt =====
-- server/state.go: what the panel shows as running after a history of its calls.
use caochuan.Base.{ℕ, String, ◌≡◌, ◌⊎◌, true, Option, some, List, [], ◌∷◌, get_elem?}
use caochuan.Base.Dict.{Dict}
use caochuan.Config.{Rule}
use caochuan.Server.State.{World, Server}
use caochuan.Server.History.{Stat}
use caochuan.Server.Apply.Result.{VisitsAll}
use caochuan.Server.Rules.Tidy.{IsTidy}
use caochuan.Server.Requests.{Request, handle}
use caochuan.Server.Requests.Saved.{serve}
use caochuan.Server.Requests.Tidy.{ImportsTidy, IsFresh, handle-IsTidy_imports}
use caochuan.Server.Requests.Running.{Configured, handle-Configured}
use caochuan.Server.Views.{rule_view}
use caochuan.Server.Views.Running.{Listens, IsReported, rule_view-running}

-- A history in which imported rules are apart, each id that is drawn is new when it is drawn, and a map is
-- visited entry by entry.
abbrev pub Usual : List (World × Request) → Server → Type 0
Usual [] s = Unit {0}
Usual ((w, q) ∷ qs) s =
    ImportsTidy q
    × IsFresh w s
    × ((m : Dict Rule) → VisitsAll w.order m)
    × Usual qs (handle w q s).1

serve-IsTidy :
    (qs : List (World × Request)) (s : Server)
    → Usual qs s
    → IsTidy s.cfg.rules
    → IsTidy (serve qs s).cfg.rules
unfolding serve
serve-IsTidy [] s u t = t
serve-IsTidy ((w, q) ∷ qs) s (plain, fresh, order, u) t =
    serve-IsTidy qs (handle w q s).1 u (handle-IsTidy_imports w q s plain fresh t)

serve-Configured :
    (qs : List (World × Request)) (s : Server)
    → Usual qs s
    → Configured s.runners s.cfg.rules
    → Configured (serve qs s).runners (serve qs s).cfg.rules
unfolding serve
serve-Configured [] s u c = c
serve-Configured ((w, q) ∷ qs) s (plain, fresh, order, u) c =
    serve-Configured qs (handle w q s).1 u (handle-Configured w order q s c)

-- After any history of panel calls, from listeners that are those of the configuration and rules that are
-- apart, whatever calls fail: a rule of the configuration that the panel shows as running is enabled; and
-- the server has a listener with its addresses, or its client is online and has last reported that it
-- listens (whether it still does is not known to the server). The rules of an import must be apart, and
-- each id that is drawn must be new.
pub serve-running :
    (qs : List (World × Request)) (s : Server) (stats : Dict Stat) (health : Dict (Option String))
    (i : ℕ) (r : Rule)
    → Usual qs s
    → Configured s.runners s.cfg.rules
    → IsTidy s.cfg.rules
    → get_elem? (serve qs s).cfg.rules i ≡ some r
    → (rule_view (serve qs s) stats health r).running ≡ true
    → (r.enabled ≡ true) × (Listens (serve qs s) r ⊎ IsReported (serve qs s) r)
serve-running qs s stats health i r u c t g h =
    rule_view-running (serve qs s) stats health i r (serve-Configured qs s u c)
      (serve-IsTidy qs s u t) g h
