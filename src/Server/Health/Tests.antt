-- ===== src/Server/Health/Tests.antt =====
-- server/health.go: probes on concrete inputs.
use caochuan.Base.{◌≡◌, refl, none, some, [], ◌∷◌, String-discrete}
use caochuan.Config.Fixtures.{some_rule}
use caochuan.Server.Fixtures.{live}
use caochuan.Server.Views.{health_of, probed}
use caochuan.Server.Health.{record_results, probe_all, probe_loop}

-- The rule is seen as reachable in the second round.
two_rounds :
    health_of some_rule (
      probe_loop
        (record { order = λ m. m; result = λ r. some "refused"; server = live }
          ∷ record { order = λ m. m; result = λ r. none; server = live }
          ∷ [])
        [])
    ≡ ("ok", "")
unfolding probe_loop probe_all record_results probed health_of String-discrete
two_rounds = refl
