-- ===== src/Client/Reverse.antt =====
-- client/reverse.go: `reverseMgr`, which runs the rules pushed to this client.
--
-- `start` runs in a goroutine of its own, so it is an operation of its own here, which comes at any
-- time after the `apply` that asks for it. `binds` says whether its listener gets the port. The loops
-- over the maps visit every entry, in the order of the list.
pub mod Pushes
pub mod Started
use caochuan.Base.{
  ◌+◌, String, Bool, true, false, ◌&&◌, Option, none, some, List, [], ◌∷◌, ◌++◌, if◌then◌else◌,
  str_eq,
}
use caochuan.Base.Int.{eqb_ℤ}
use caochuan.Base.Dict.{Dict, lookup, insert, erase, contains}
use caochuan.Server.State.{ReverseRule, ReverseStatus}

pub record Manager : Type 0 where
  pub has_control : Bool
  pub tcp_lns : Dict ReverseRule
  pub udp_conns : Dict ReverseRule
  pub rules : Dict ReverseRule
  -- What has been written to the control streams, newest first.
  pub sent : List ReverseStatus

-- `newReverseMgr`
abbrev pub new_manager : Manager
new_manager = record { has_control = false; tcp_lns = []; udp_conns = []; rules = []; sent = [] }

-- The map `desired` of `apply`: the last rule of an id.
unfoldable pub by_id : List ReverseRule → Dict ReverseRule → Dict ReverseRule
by_id [] acc = acc
by_id (r ∷ rs) acc = by_id rs (insert r.id r acc)

-- `want` can go on with the listener of `cur`.
unfoldable pub same_listener : ReverseRule → ReverseRule → Bool
same_listener want cur =
    str_eq want.proto cur.proto && eqb_ℤ want.listen cur.listen && str_eq want.target cur.target

abbrev pub is_kept : Option ReverseRule → ReverseRule → Bool
is_kept none cur = false
is_kept (some want) cur = same_listener want cur

-- `stopLocked`
abbrev pub stop : String → Manager → Manager
stop id m = record m {
  tcp_lns = erase id m.tcp_lns;
  udp_conns = erase id m.udp_conns;
  rules = erase id m.rules;
}

-- The first loop of `apply`, over the entries of `m.rules`.
unfoldable pub stop_changed : Dict ReverseRule → Dict ReverseRule → Manager → Manager
stop_changed want [] m = m
stop_changed want ((id, cur) ∷ entries) m =
    stop_changed want entries (if is_kept (lookup id want) cur then m else stop id m)

-- The second loop, with the rules to start.
unfoldable pub take_missing :
    Dict ReverseRule → Manager → List ReverseRule → Manager × List ReverseRule
take_missing [] m acc = (m, acc)
take_missing ((id, r) ∷ want) m acc =
    if contains id m.rules
    then take_missing want m acc
    else take_missing want (record m { rules = insert id r m.rules }) (acc ++ (r ∷ []))

-- `apply`: the manager, and the rules that goroutines are to start.
unfoldable pub apply : List ReverseRule → Manager → Manager × List ReverseRule
apply rules m = let want = by_id rules [] in take_missing want (stop_changed want m.rules m) []

-- `report`
abbrev pub report : ReverseStatus → Manager → Manager
report st m = if m.has_control then record m { sent = st ∷ m.sent } else m

abbrev pub start_failed : ReverseRule → String → Manager → Manager
start_failed r e m =
    let m' = report (record { id = r.id; ok = false; err = e }) m in
    record m' { rules = erase r.id m'.rules }

-- `start`, as far as the accept loop; `binds` carries the error of a listener that cannot be had.
unfoldable pub start : Option String → ReverseRule → Manager → Manager
start binds r m =
    if str_eq r.proto "tcp"
    then elim binds [
      | some e ↦ start_failed r e m
      | none ↦
          report (record { id = r.id; ok = true; err = "" })
            (record m { tcp_lns = insert r.id r m.tcp_lns })
    ]
    else if str_eq r.proto "udp"
    then elim binds [
      | some e ↦ start_failed r e m
      | none ↦
          report (record { id = r.id; ok = true; err = "" })
            (record m { udp_conns = insert r.id r m.udp_conns })
    ]
    else m

unfoldable pub stop_each : Dict ReverseRule → Manager → Manager
stop_each [] m = m
stop_each ((id, r) ∷ entries) m = stop_each entries (stop id m)

-- `stopAll`
unfoldable pub stop_all : Manager → Manager
stop_all m = stop_each m.rules m

-- The end of `handleControl`.
unfoldable pub control_closed : Manager → Manager
control_closed m = stop_all (record m { has_control = false })
