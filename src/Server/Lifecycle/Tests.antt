-- ===== src/Server/Lifecycle/Tests.antt =====
-- server/server.go: the start and the end of a server on concrete inputs.
use caochuan.Base.{◌≡◌, refl, ap, ◌↔◌, inl, false, none, some, [], ◌∷◌, String-discrete}
use caochuan.Base.Int.{pos, eqb_ℤ}
use caochuan.Base.Dict.{lookup}
use caochuan.Config.File.{no_fault}
use caochuan.Config.Fixtures.{some_rule}
use caochuan.Server.State.{World, Server}
use caochuan.Server.Fixtures.{
  world_at, live, live_config, live-IsTidy, keys_once-VisitsAll, desired-live,
}
use caochuan.Server.Apply.{
  desired, collect_desired, visit_all, visit, launch, can_start, apply_rules,
}
use caochuan.Server.Certificate.{Crypto, load_or_generate, load_files, generate_pair}
use caochuan.Server.Requests.Running.{Configured}
use caochuan.Server.Lifecycle.{
  initial, new_server, Life, beside, begin_run, goes_on, stop_runners, end_run,
}
use caochuan.Server.Lifecycle.Start.{Runs, begin_run-Runs}

abbrev fine : World
fine = world_at 1000 no_fault

abbrev crypto : Crypto
crypto = record {
  pair = λ c k. none;
  generate = none;
  pem_cert = λ b. b;
  pem_key = λ b. b;
  hash = λ b. b;
  write_error = λ p. none;
}

abbrev fresh : Server
fresh = initial live_config live.disk

abbrev life : Life
life = record {
  server = apply_rules (beside (pos 7000) fine) fresh;
  is_stopping = false;
  stopped = [];
}

-- The configuration of the tests has no TLS.
is_made : new_server crypto (λ p. p) live_config live.disk [] ≡ some (fresh, none)
unfolding new_server
is_made = refl

begins : begin_run fine (some (pos 7000)) fresh ≡ some life
unfolding begin_run
begins = refl

begin_run-Runs_example :
    Configured life.server.runners live_config.rules
    × ((eqb_ℤ some_rule.listen (pos 7000) ≡ false) ↔ Runs "r1" some_rule life.server)
unfolding String-discrete
begin_run-Runs_example =
    begin_run-Runs fine (pos 7000) crypto (λ p. p) live_config live.disk [] fresh none life "r1"
      some_rule is_made begins (keys_once-VisitsAll (desired live_config.rules)) live-IsTidy
      (inl refl, tt) (ap (lookup "r1") desired-live)

-- A rule on the port of the tunnel is not started.
tunnel_first :
    elim (begin_run fine (some some_rule.listen) fresh) [
      | none ↦ none
      | some l ↦ lookup "r1" l.server.runners
    ]
    ≡ none
unfolding begin_run apply_rules visit_all visit launch can_start desired collect_desired
    String-discrete initial
tunnel_first = refl

-- A server that cannot have a certificate does not start.
no_certificate :
    new_server crypto (λ p. p) (record live_config { no_tls = false }) live.disk [] ≡ none
unfolding new_server load_or_generate load_files generate_pair String-discrete
no_certificate = refl

-- At the end the listener is told to stop, and the loop that accepts clients ends with its next error.
abbrev over : Life
over = end_run (record life { server = live })

all_stopped : over.stopped ≡ "r1" ∷ []
unfolding end_run stop_runners
all_stopped = refl

accept_ends : goes_on over ≡ false
unfolding goes_on end_run
accept_ends = refl
