-- ===== src/Cmd/Service/Tests.antt =====
-- cmd/caochuan/service_windows.go: the service on concrete inputs.
use caochuan.Base.{String, ◌≡◌, refl, ◌⊎◌, true, false, none, some, [], ◌∷◌, ◌++◌, String-discrete}
use caochuan.Cmd.Service.{
  parse_loop, parse_service_args, Installed, Powers, exists, service_args, install_service,
  remove_service, polls, bad_role, install_as, run_as, service_main, interrogate, shut_down,
  finished, start_pending, running, stop_pending, current, new_execution, execute,
}
use caochuan.Cmd.Service.Arguments.{started_with, service_main-installed}
use caochuan.Cmd.Service.Exits.{Leaves, execute-exits}

abbrev admin : Powers
admin = record {
  connects = true;
  creates = true;
  starts = true;
  queries = true;
  stops = true;
  deletes = true;
}

abbrev installed : Installed
installed = record {
  args = service_args "client" "conf/client.json";
  is_running = true;
  restarts = true;
}

asks_to_install :
    service_main false ("install" ∷ "-role" ∷ "client" ∷ [])
    ≡ install_as "client" "conf/client.json"
unfolding service_main parse_service_args parse_loop String-discrete
asks_to_install = refl

installs_it : (install_service admin "client" "conf/client.json" none).1 ≡ some installed
unfolding install_service
installs_it = refl

service_main-installed_example :
    (service_main true (started_with installed.args) ≡ run_as "client" "conf/client.json")
    × (◌≡◌ {A = String} "client" "server" ⊎ ◌≡◌ {A = String} "client" "client")
service_main-installed_example =
    service_main-installed admin ("-role" ∷ "client" ∷ []) "client" "conf/client.json" installed
      asks_to_install installs_it

asked_to_stop :
    Leaves
      (some 1)
      (start_pending ∷ running ∷ current ∷ [])
      (execute ((interrogate ∷ []) ++ (finished ∷ finished ∷ [])) new_execution)
    × Leaves
        (some 0)
        (start_pending ∷ running ∷ current ∷ stop_pending ∷ [])
        (execute ((interrogate ∷ []) ++ (shut_down ∷ finished ∷ [])) new_execution)
asked_to_stop = execute-exits (interrogate ∷ []) (finished ∷ []) shut_down ((refl, refl), tt) refl

-- A value that is spelled like a flag is taken as a value, and a flag without a value is passed over.
odd_arguments :
    parse_service_args ("-role" ∷ "-c" ∷ "x" ∷ "-c" ∷ "my.json" ∷ "-role" ∷ []) ≡ ("-c", "my.json")
unfolding parse_service_args parse_loop String-discrete
odd_arguments = refl

wrong_role : service_main false ("install" ∷ "-role" ∷ "proxy" ∷ []) ≡ bad_role
unfolding service_main parse_service_args parse_loop String-discrete
wrong_role = refl

only_once : install_service admin "server" "a" (some installed) ≡ (some exists, some installed)
unfolding install_service
only_once = refl

removes : remove_service admin (some installed) ≡ (none, none)
unfolding remove_service
removes = refl

-- The service stops at the second poll.
two_polls : polls 30 (false ∷ true ∷ []) ≡ 2
unfolding polls
two_polls = refl
