-- ===== src/Server/Apply/Result.antt =====
-- server/server.go: which listeners run after `applyRulesLocked`.
use caochuan.Base.{String, ◌≡◌, inl, inr, true, none, some, arith, Option-cases}
use caochuan.Base.Dict.{Dict, lookup, contains, Distinct, lookup-restrict}
use caochuan.Config.{Rule}
use caochuan.Server.State.{World, Server, Runner}
use caochuan.Server.Apply.{desired, same_as, Progress, visit_all, apply_rules}
use caochuan.Server.Apply.Visits.{visit_all-settled, visit_all_same}

-- `range` visits each entry of a map once.
pub record VisitsAll (order : Dict Rule → Dict Rule) (m : Dict Rule) : Type 0 where
  pub once : Distinct (order m)
  pub each : (j : String) → lookup j (order m) ≡ lookup j m

module _ (w : World) (s : Server) (ok : VisitsAll w.order (desired s.cfg.rules)) where
  abbrev progress : Progress
  progress = record { runners = s.runners; notifier = s.notifier }

  pub lookup-apply :
      (id : String) (r : Rule)
      → lookup id (desired s.cfg.rules) ≡ some r
      → lookup id (apply_rules w s).runners
        ≡ lookup id (visit_all w (w.order (desired s.cfg.rules)) progress).runners
  unfolding apply_rules
  lookup-apply id r e = ground (
    arith,
    lookup-restrict (λ j. contains j (desired s.cfg.rules)) id
        (visit_all w (w.order (desired s.cfg.rules)) progress).runners,
  )

  pub lookup-apply_absent :
      (id : String)
      → lookup id (desired s.cfg.rules) ≡ none
      → lookup id (apply_rules w s).runners ≡ none
  unfolding apply_rules
  lookup-apply_absent id e = ground (
    arith,
    lookup-restrict (λ j. contains j (desired s.cfg.rules)) id
        (visit_all w (w.order (desired s.cfg.rules)) progress).runners,
  )

  -- Whatever ran before and in whatever order the map is visited: each listener that runs after
  -- `applyRulesLocked` belongs to an enabled server-side rule of the configuration, with the protocol,
  -- the port, the target and the client of that rule.
  pub apply_rules_sound :
      (id : String) (rn : Runner)
      → lookup id (apply_rules w s).runners ≡ some rn
      → (r : Rule) × (lookup id (desired s.cfg.rules) ≡ some r) × (same_as rn r ≡ true)
  apply_rules_sound id rn e = elim (Option-cases (lookup id (desired s.cfg.rules))) [
    | inl absent ↦ cc (lookup-apply_absent id absent)
    | inr (r, present) ↦ (
      r,
      present,
      ground (
        arith,
        lookup-apply id r present,
        ok.each id,
        visit_all-settled w id r (w.order (desired s.cfg.rules)) progress ok.once,
      ),
    )
  ]

  -- A listener with the addresses of its rule is left as it is, and goes on with the copy of the rule
  -- that it was started with: changed source lists, limits, timeouts and PROXY versions do not reach it.
  pub apply_rules_keeps :
      (id : String) (r : Rule) (rn : Runner)
      → lookup id (desired s.cfg.rules) ≡ some r
      → lookup id s.runners ≡ some rn
      → same_as rn r ≡ true
      → lookup id (apply_rules w s).runners ≡ some rn
  apply_rules_keeps id r rn e l k = ground (
    arith,
    lookup-apply id r e,
    ok.each id,
    visit_all_same w id r (w.order (desired s.cfg.rules)) progress rn ok.once,
  )
