-- ===== src/Server/Tunnel.antt =====
-- server/server.go: how a client gets in, `handleTunnel`.
--
-- One connection is one call of `handle_tunnel`, up to the point where its session is in place, and
-- one of `session_closed` at the session's end. What the network does is the argument `Arrival`.
pub mod Lockout
pub mod Sessions
use caochuan.Base.{
  ℕ, ◌+◌, ◌-◌, ◌*◌, String, Bool, false, not, ◌&&◌, Option, none, some, List, [], ◌∷◌, ltb, leb,
  ◌==◌, if◌then◌else◌, str_eq,
}
use Prim.Native.String.{◌++◌ as append}
use caochuan.Base.Dict.{Dict, lookup, insert, erase}
use caochuan.Config.{ClientUser, Netip}
use caochuan.Config.Acl.{new_acl, allows}
use caochuan.Server.Notify.{send, second}
use caochuan.Server.State.{World, Server, ClientConn, AuthFail}

abbrev pub auth_max_fails : ℕ
auth_max_fails = 10

abbrev pub auth_block_for : ℕ
auth_block_for = 600 * second

abbrev is_stale : ℕ → AuthFail → Bool
is_stale now f = ltb f.until now && ltb auth_block_for (now - f.last_fail)

-- `sweepAuthFails`
pub sweep_auth_fails : ℕ → Dict AuthFail → Dict AuthFail
sweep_auth_fails now [] = []
sweep_auth_fails now ((ip, f) ∷ m) =
    let rest = sweep_auth_fails now m in if is_stale now f then rest else (ip, f) ∷ rest

-- A connection: its host, whether that is a loopback address, the first frame if one can be read, its
-- token and version, whether the answer can be written and the session built, and the session's number.
pub record Arrival : Type 0 where
  pub host : String
  pub addr : String
  pub is_loopback : Bool
  pub is_readable : Bool
  pub token : String
  pub version : String
  pub is_answered : Bool
  pub is_muxed : Bool
  pub session : ℕ

pub data Reception : Type 0 where
  locked blacklisted unreadable denied lost : Reception
  connected : String → Reception

-- `authToken`: the name of the first client with the token.
unfoldable pub auth_token : String → List ClientUser → Option String
auth_token token [] = none
auth_token token (c ∷ cs) =
    let rest = auth_token token cs in if str_eq c.token token then some c.name else rest

abbrev no_fail : AuthFail
no_fail = record { count = 0; last_fail = 0; until = 0 }

abbrev record_of : String → Dict AuthFail → AuthFail
record_of host m = elim (lookup host m) [ none ↦ no_fail | some f ↦ f ]

-- `recordAuthFail`
pub record_auth_fail : World → String → Server → Server
record_auth_fail w host s =
    let f = record_of host s.auth_fails in
    if leb auth_max_fails (f.count + 1)
    then record s {
      auth_fails =
          insert host (record { count = 0; last_fail = w.now; until = w.now + auth_block_for })
            s.auth_fails;
      notifier = send w.now (append "auth_block|" host) s.notifier;
    }
    else record s {
      auth_fails =
          insert host (record { count = f.count + 1; last_fail = w.now; until = f.until })
            s.auth_fails;
    }

pub is_locked : World → Arrival → Dict AuthFail → Bool
is_locked w a m = elim (lookup a.host m) [
  | none ↦ false
  | some f ↦ ltb w.now f.until && not a.is_loopback
]

-- The blacklist applies to addresses but the loopback ones; one that does not parse counts as empty.
unfoldable pub is_blacklisted : World → String → List String → Bool
is_blacklisted w host entries = elim (new_acl w.netip entries) [
  | none ↦ false
  | some none ↦ false
  | some (some acl) ↦ elim (Netip.parse_addr w.netip host) [
    | none ↦ false
    | some ip ↦ allows w.netip (some acl) ip && not (Netip.is_loopback w.netip ip)
  ]
]

-- The session of a client that was online under the name.
abbrev old_session : String → Dict ClientConn → List ℕ → List ℕ
old_session name m closed = elim (lookup name m) [ none ↦ closed | some old ↦ old.session ∷ closed ]

abbrev pub new_conn : World → Arrival → String → ClientConn
new_conn w a name = record {
  name = name;
  addr = a.addr;
  version = a.version;
  session = a.session;
  since = w.now;
  has_control = false;
  pushed = [];
  status = [];
}

-- The part behind the token check.
unfoldable pub welcome : World → Arrival → String → Server → Reception × Server
welcome w a name s =
    let s' = record s { auth_fails = erase a.host s.auth_fails } in
    if not (a.is_answered && a.is_muxed) then (lost, s') else (
      connected name,
      record s' {
        clients = insert name (new_conn w a name) s.clients;
        closed = old_session name s.clients s.closed;
        notifier = send w.now (append "client_up|" name) s.notifier;
      },
    )

-- `handleTunnel`, as far as the session.
unfoldable pub handle_tunnel : World → Arrival → Server → Reception × Server
handle_tunnel w a s₀ =
    let s = record s₀ { auth_fails = sweep_auth_fails w.now s₀.auth_fails } in
    if is_locked w a s.auth_fails
    then (locked, s)
    else if is_blacklisted w a.host s.cfg.ip_blacklist
    then (blacklisted, s)
    else if not a.is_readable
    then (unreadable, s)
    else elim (auth_token a.token s.cfg.clients) [
      | none ↦ (denied, record_auth_fail w a.host s)
      | some name ↦ welcome w a name s
    ]

abbrev pub is_current : ℕ → Option ClientConn → Bool
is_current session none = false
is_current session (some cc) = cc.session == session

-- The end of `handleTunnel`, after the session has been closed.
pub session_closed : World → String → ℕ → Server → Server
session_closed w name session s =
    let s' = record s { notifier = send w.now (append "client_down|" name) s.notifier } in
    if is_current session (lookup name s.clients)
    then record s' { clients = erase name s.clients }
    else s'
