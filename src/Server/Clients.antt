-- ===== src/Server/Clients.antt =====
-- server/state.go: the operations on the registered clients.
use caochuan.Base.{String, not, none, some, List, [], ◌∷◌, ◌++◌, if◌then◌else◌, str_eq, any}
use caochuan.Base.Dict.{lookup}
use caochuan.Config.{ServerConfig, ClientUser}
use caochuan.Config.File.{save}
use caochuan.Server.State.{World, Server, Outcome, conflict, not_found, save_failed, empty_name}
use caochuan.Server.Validate.{registered}

abbrev pub with_clients : List ClientUser → ServerConfig → ServerConfig
with_clients clients cfg = record cfg { clients = clients }

-- `Save` at the end of a call that does not put anything back.
unfoldable pub keep_clients : World → List ClientUser → Server → Outcome
keep_clients w clients s =
    let cfg = with_clients clients s.cfg in
    let (saved, disk) = save w.fault cfg s.disk in
    (if saved then none else some save_failed, record s { cfg = cfg; disk = disk })

-- `AddClient`
unfoldable pub add_client : World → String → String → Server → Outcome
add_client w name note s =
    if str_eq name ""
    then (some empty_name, s)
    else if registered name s.cfg.clients
    then (some conflict, s)
    else keep_clients w
        (s.cfg.clients ++ (record { name = name; token = w.token; note = note } ∷ [])) s

-- The clients without the first of a name.
unfoldable pub remove_client : String → List ClientUser → List ClientUser
remove_client name [] = []
remove_client name (c ∷ cs) =
    let rest = remove_client name cs in if str_eq c.name name then cs else c ∷ rest

-- `cc.Session.Close()` for the session of a client, if it is online.
unfoldable pub close_session : String → Server → Server
close_session name s = elim (lookup name s.clients) [
  | none ↦ s
  | some cc ↦ record s { closed = cc.session ∷ s.closed }
]

-- `DeleteClient`
unfoldable pub delete_client : World → String → Server → Outcome
delete_client w name s =
    if not (registered name s.cfg.clients)
    then (some not_found, s)
    else if any (λ r. str_eq r.client name) s.cfg.rules
    then (some conflict, s)
    else keep_clients w (remove_client name s.cfg.clients) (close_session name s)
