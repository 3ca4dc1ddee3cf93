-- ===== src/Cmd/Service.antt =====
-- cmd/caochuan/service_windows.go: the subcommand `service`, and the service that Windows runs.
--
-- The service control manager holds at most one service of the program's name. `Powers` says which of its
-- calls succeed.
pub mod Arguments
pub mod Exits
mod Tests
use caochuan.Base.{
  ℕ, zero, suc, String, Bool, true, false, not, ◌&&◌, Option, none, some, List, [], ◌∷◌, ◌++◌,
  if◌then◌else◌, str_eq,
}
use Prim.Native.String.{◌++◌ as join}

-- The loop of `parseServiceArgs`.
unfoldable pub parse_loop : List String → String × String → String × String
parse_loop [] acc = acc
parse_loop (a ∷ []) acc = acc
parse_loop (a ∷ v ∷ rest) (role, path) =
    let as_role = parse_loop rest (v, path) in
    let as_path = parse_loop rest (role, v) in
    let passed = parse_loop (v ∷ rest) (role, path) in
    if str_eq a "-role" then as_role else if str_eq a "-c" then as_path else passed

abbrev pub default_path : String → String
default_path role = join (join "conf/" role) ".json"

-- `parseServiceArgs`: the role and the path of the configuration.
unfoldable pub parse_service_args : List String → String × String
parse_service_args args =
    let (role, path) = parse_loop args ("", "") in
    (role, if str_eq path "" then default_path role else path)

-- The service as it is installed.
pub record Installed : Type 0 where
  pub args : List String
  pub is_running : Bool
  pub restarts : Bool

pub record Powers : Type 0 where
  pub connects : Bool
  pub creates : Bool
  pub starts : Bool
  pub queries : Bool
  pub stops : Bool
  pub deletes : Bool

pub data ServiceError : Type 0 where
  no_rights exists not_created not_started not_installed not_stopped not_deleted : ServiceError

abbrev pub service_args : String → String → List String
service_args role path = "service" ∷ "-role" ∷ role ∷ "-c" ∷ path ∷ []

-- `installService`
unfoldable pub install_service :
    Powers → String → String → Option Installed → Option ServiceError × Option Installed
install_service w role path s = if not w.connects then (some no_rights, s) else elim s [
  | some i ↦ (some exists, some i)
  | none ↦
      if w.creates
      then (
        if w.starts then none else some not_started,
        some (record { args = service_args role path; is_running = w.starts; restarts = true }),
      )
      else (some not_created, none)
]

-- The polls of `removeService`: how many of at most 30 are made before the service has stopped.
unfoldable pub polls : ℕ → List Bool → ℕ
polls zero states = zero
polls (suc k) [] = suc k
polls (suc k) (stopped ∷ states) = let rest = polls k states in if stopped then 1 else suc rest

-- `removeService`, which deletes the service also when it has not stopped in time.
unfoldable pub remove_service : Powers → Option Installed → Option ServiceError × Option Installed
remove_service w s = if not w.connects then (some no_rights, s) else elim s [
  | none ↦ (some not_installed, none)
  | some i ↦
      if w.queries && i.is_running && not w.stops
      then (some not_stopped, some i)
      else if w.deletes
      then (none, none)
      else (some not_deleted, some i)
]

-- What `serviceMain` does, by its arguments and whether Windows has started it.
pub data Command : Type 0 where
  usage bad_role unknown remove start stop : Command
  run_as install_as : String → String → Command

unfoldable pub service_main : Bool → List String → Command
service_main is_service args =
    if is_service
    then (let (role, path) = parse_service_args args in run_as role path)
    else elim args [
      | [] ↦ usage
      | a ∷ rest ↦
          let (role, path) = parse_service_args rest in
          if str_eq a "install"
          then (if not (str_eq role "server") && not (str_eq role "client")
              then bad_role
              else install_as role path)
          else if str_eq a "remove"
          then remove
          else if str_eq a "start"
          then start
          else if str_eq a "stop"
          then stop
          else unknown
    ]

-- `Execute`: a request of Windows, or the end of the program's goroutine.
pub data Event : Type 0 where
  interrogate stopped shut_down other_request finished : Event

pub data Status : Type 0 where
  start_pending running stop_pending current : Status

pub record Execution : Type 0 where
  pub sent : List Status
  pub is_cancelled : Bool
  pub is_stopping : Bool
  pub exit_code : Option ℕ

unfoldable pub new_execution : Execution
new_execution = record {
  sent = start_pending ∷ running ∷ [];
  is_cancelled = false;
  is_stopping = false;
  exit_code = none;
}

abbrev pub begin_stop : Execution → Execution
begin_stop x = record x {
  sent = x.sent ++ (stop_pending ∷ []);
  is_cancelled = true;
  is_stopping = true;
}

-- A round of the loop, or of the wait for the goroutine behind a request to stop.
unfoldable pub on_event : Event → Execution → Execution
on_event finished x = record x {
  is_cancelled = true;
  exit_code = some (if x.is_stopping then 0 else 1);
}
on_event interrogate x = if x.is_stopping then x else record x { sent = x.sent ++ (current ∷ []) }
on_event stopped x = if x.is_stopping then x else begin_stop x
on_event shut_down x = if x.is_stopping then x else begin_stop x
on_event other_request x = x

-- What follows the exit is nobody's.
unfoldable pub execute : List Event → Execution → Execution
execute [] x = x
execute (e ∷ es) x =
    let rest = execute es (on_event e x) in elim x.exit_code [ some code ↦ x | none ↦ rest ]
