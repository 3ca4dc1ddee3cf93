-- ===== src/Server/Tests/Rules.antt =====
-- server/server.go: the listeners of a concrete server.
use caochuan.Base.{String, ◌≡◌, refl, ◌≢◌, inl, true, false, some, [], ◌∷◌, arith, String-discrete}
use caochuan.Base.Dict.{Dict, lookup}
use caochuan.Config.{Rule}
use caochuan.Config.Fixtures.{some_rule}
use caochuan.Config.File.{no_fault}
use caochuan.Server.State.{World, Server, Runner}
use caochuan.Server.Apply.{desired, collect_desired, same_as, runner_for, on_port, apply_rules}
use caochuan.Server.Apply.Ports.{free, apply_rules_starts}
use caochuan.Server.Notify.{new_notifier}
use caochuan.Server.Notify.Debounce.{Spaced, sends, calls, calls-Spaced}
use caochuan.Server.History.{Stat}
use caochuan.Server.Fixtures.{world_at, keys_once-VisitsAll, live, desired-live}

abbrev fine : World
fine = world_at 1000 no_fault

calls-Spaced_example :
    Spaced
      (calls
        (new_notifier "http://n" "json")
        (sends 5 "client_up|pc" ∷ sends 6 "client_up|pc" ∷ [])).posted
calls-Spaced_example =
    calls-Spaced "http://n" "json" (sends 5 "client_up|pc" ∷ sends 6 "client_up|pc" ∷ [])

abbrev counters : Dict Stat
counters = ("r1", record { bytes_in = 10; bytes_out = 20; conns = 1; conns_total = 3 }) ∷ []

abbrev web : Runner
web = runner_for some_rule

-- Nothing runs yet.
abbrev idle : Server
idle = record live { runners = [] }

alone :
    (j : String) (q : Rule)
    → lookup j (desired idle.cfg.rules) ≡ some q
    → j ≢ "r1"
    → on_port (runner_for q) some_rule ≡ false
alone j q e n = absurd (ground (arith, desired-live, e, n))

apply_rules_starts_example :
    (rn : Runner) × (lookup "r1" (apply_rules fine idle).runners ≡ some rn)
    × (same_as rn some_rule ≡ true)
unfolding desired collect_desired String-discrete free on_port
apply_rules_starts_example =
    apply_rules_starts fine idle (keys_once-VisitsAll (desired idle.cfg.rules)) "r1" some_rule refl
      (inl refl) refl refl alone

-- The port of r1 belongs to a listener whose rule is gone.
abbrev taken_over : Server
taken_over = record live { runners = ("r0", runner_for some_rule) ∷ [] }
