-- ===== src/Server/State.antt =====
-- server/server.go and server/state.go: the state that the lock `s.mu` guards.
use caochuan.Base.{ℕ, String, Bool, Option, List}
use caochuan.Base.Int.{ℤ}
use caochuan.Base.Dict.{Dict}
use caochuan.Base.Text.{Text}
use caochuan.Config.{ServerConfig, Rule, Netip}
use caochuan.Config.File.{Disk, Fault}
use caochuan.Server.Notify.{Notifier}

-- `runner`. `rule` is the copy that the listener's goroutine was started with and works by.
pub record Runner : Type 0 where
  pub proto : String
  pub listen : ℤ
  pub target : String
  pub client : String
  pub rule : Rule

-- `proto.ReverseRule`
pub record ReverseRule : Type 0 where
  pub id : String
  pub name : String
  pub proto : String
  pub listen : ℤ
  pub target : String
  pub allow_from : List String
  pub max_mbps : ℤ
  pub max_conns : ℤ
  pub idle_min : ℤ
  pub proxy_proto : ℤ

-- `proto.ReverseStatus`
pub record ReverseStatus : Type 0 where
  pub id : String
  pub ok : Bool
  pub err : String

-- `clientConn`. A session is named by a number. `pushed` holds the frames that were written to the
-- control stream, newest first.
pub record ClientConn : Type 0 where
  pub name : String
  pub addr : String
  pub version : String
  pub session : ℕ
  pub since : ℕ
  pub has_control : Bool
  pub pushed : List (List ReverseRule)
  pub status : Dict ReverseStatus

-- `authFail`
pub record AuthFail : Type 0 where
  pub count : ℕ
  pub last_fail : ℕ
  pub until : ℕ

-- `Server`. `closed` lists the sessions that were told to close.
pub record Server : Type 0 where
  pub cfg : ServerConfig
  pub disk : Disk ServerConfig
  pub clients : Dict ClientConn
  pub runners : Dict Runner
  pub notifier : Notifier
  pub auth_fails : Dict AuthFail
  pub bl_ver : ℕ
  pub closed : List ℕ

pub data ServerError : Type 0 where
  empty_name bad_side bad_proto bad_port empty_target no_client bad_allow_from : ServerError
  negative_limit bad_idle bad_proxy_version proxy_needs_tcp bad_target too_many_targets :
      ServerError
  unknown_client conflict not_found save_failed bad_list empty_password bad_format : ServerError

-- What a call meets outside the program: the libraries' parsers, the time, the result of `RandToken`,
-- what the disk does, the ports that are held by others (other programs, the panel and the tunnel), the
-- order in which `range` visits a map, the length of the JSON text of a push, and whether the control
-- stream of a client takes a write.
pub record World : Type 1 where
  pub netip : Netip
  pub split_host_port : Text → Bool
  pub now : ℕ
  pub token : String
  pub fault : Fault
  pub taken : String → ℤ → Bool
  pub order : Dict Rule → Dict Rule
  pub frame_size : List ReverseRule → ℕ
  pub takes_frame : String → Bool

-- A call's error, if any, and the state after it.
abbrev pub Outcome : Type 0
Outcome = Option ServerError × Server
