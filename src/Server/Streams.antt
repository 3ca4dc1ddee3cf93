-- ===== src/Server/Streams.antt =====
-- server/server.go: `openStreamTo`, a stream to a client that is online.
--
-- A stream is named by the session that it runs over. `opens` says whether a session opens a stream
-- and takes the header.
use caochuan.Base.{ℕ, String, Bool, Option, none, some, if◌then◌else◌}
use caochuan.Base.Int.{ℤ, pos}
use caochuan.Base.Dict.{lookup}
use caochuan.Server.State.{Server}

-- `proto.StreamHeader`
pub record StreamHeader : Type 0 where
  pub id : String
  pub target : String
  pub udp : Bool
  pub visitor : String
  pub dst_addr : String
  pub proxy_proto : ℤ

-- The header of a stream that carries no address of a visitor.
abbrev pub plain_header : String → String → Bool → StreamHeader
plain_header id target udp = record {
  id = id;
  target = target;
  udp = udp;
  visitor = "";
  dst_addr = "";
  proxy_proto = pos 0;
}

-- `ControlID`
abbrev pub control_id : String
control_id = "__control__"

-- `openStreamTo`
unfoldable pub open_stream_to : (ℕ → Bool) → String → Server → Option ℕ
open_stream_to opens name s = elim (lookup name s.clients) [
  | none ↦ none
  | some cc ↦ if opens cc.session then some cc.session else none
]
