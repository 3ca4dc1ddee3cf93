-- ===== src/Server/Tunnel/Sessions.antt =====
-- server/server.go: who gets in, and whose session a name stands for.
use caochuan.Base.{
  ℕ, String, ◌≡◌, refl, ◌≢◌, inl, inr, Bool, true, false, ◌&&◌, ◌||◌, none, some, List, [], ◌∷◌,
  arith, if◌then◌else◌, Bool-cases, Option-cases, str_eq,
}
use caochuan.Base.Dict.{lookup, lookup-insert, lookup-erase}
use caochuan.Config.{ClientUser}
use caochuan.Server.State.{World, Server, ClientConn}
use caochuan.Server.Tunnel.{
  Arrival, Reception, locked, blacklisted, unreadable, denied, lost, connected, auth_token,
  sweep_auth_fails, record_auth_fail, is_locked, is_blacklisted, welcome, handle_tunnel,
  session_closed, is_current, new_conn,
}

-- A client of the configuration has the name and the token.
pub holds_token : String → String → List ClientUser → Bool
holds_token name token [] = false
holds_token name token (c ∷ cs) =
    (str_eq c.name name && str_eq c.token token) || holds_token name token cs

auth_token-holds :
    (token name : String) (cs : List ClientUser)
    → auth_token token cs ≡ some name
    → holds_token name token cs ≡ true
unfolding auth_token holds_token
auth_token-holds token name [] e = cc
auth_token-holds token name (c ∷ cs) e = ground (arith, auth_token-holds token name cs)

-- What the clients online are after a connection, by how it ended.
abbrev pub Admits : World → Arrival → Server → Reception × Server → Type 0
Admits w a s (connected name, s') =
    (holds_token name a.token s.cfg.clients ≡ true)
    × (is_blacklisted w a.host s.cfg.ip_blacklist ≡ false)
    × ((cc : ClientConn) × (lookup name s'.clients ≡ some cc) × (cc.session ≡ a.session))
    × ((j : String) → name ≢ j → lookup j s'.clients ≡ lookup j s.clients)
    × (lookup a.host s'.auth_fails ≡ none)
Admits w a s (locked, s') = s'.clients ≡ s.clients
Admits w a s (blacklisted, s') = s'.clients ≡ s.clients
Admits w a s (unreadable, s') = s'.clients ≡ s.clients
Admits w a s (denied, s') = s'.clients ≡ s.clients
Admits w a s (lost, s') = s'.clients ≡ s.clients

welcome-Admits :
    (w : World) (a : Arrival) (s : Server) (name : String)
    → auth_token a.token s.cfg.clients ≡ some name
    → is_blacklisted w a.host s.cfg.ip_blacklist ≡ false
    → Admits w a s (welcome w a name s)
unfolding welcome
welcome-Admits w a s name e b = elim (Bool-cases (a.is_answered && a.is_muxed)) [
  | inr no_session ↦ rw (no_session, welcome) refl
  | inl session ↦
      rw (session, welcome)
        (
          auth_token-holds a.token name s.cfg.clients e,
          b,
          (
            new_conn w a name,
            ground (arith, lookup-insert name name (new_conn w a name) s.clients),
            refl,
          ),
          λ j ne. ground (arith, lookup-insert name j (new_conn w a name) s.clients),
          ground (arith, lookup-erase a.host a.host s.auth_fails),
        )
]

-- A connection ends with the name of a registered client only if it brought that client's token, from
-- a host that is not blacklisted; then the name stands for its session, the other names are as before
-- and the host's failures are forgotten. Any other end leaves the clients online alone.
pub handle_tunnel-Admits :
    (w : World) (a : Arrival) (s : Server) → Admits w a s (handle_tunnel w a s)
unfolding handle_tunnel record_auth_fail
handle_tunnel-Admits w a s =
    elim (Bool-cases (is_locked w a (sweep_auth_fails w.now s.auth_fails))) [
      | inl l ↦ rw (l, handle_tunnel) refl
      | inr l ↦ elim (Bool-cases (is_blacklisted w a.host s.cfg.ip_blacklist)) [
        | inl b ↦ rw (l, b, handle_tunnel) refl
        | inr b ↦ elim (Bool-cases a.is_readable) [
          | inr r ↦ rw (l, b, r, handle_tunnel) refl
          | inl r ↦ elim (Option-cases (auth_token a.token s.cfg.clients)) [
            | inl u ↦ rw (l, b, r, u, handle_tunnel) (ground arith)
            | inr (name, u) ↦
                rw (l, b, r, u, handle_tunnel)
                  (welcome-Admits w a
                    (record s { auth_fails = sweep_auth_fails w.now s.auth_fails }) name u b)
          ]
        ]
      ]
    ]

-- The end of a session takes its name offline if it is still the name's session; an end that comes
-- after the client has connected again leaves the new session in place. Other names stay.
pub lookup-session_closed :
    (w : World) (name j : String) (session : ℕ) (s : Server)
    → lookup j (session_closed w name session s).clients ≡ (
        if str_eq name j && is_current session (lookup name s.clients)
        then none
        else lookup j s.clients)
unfolding session_closed
lookup-session_closed w name j session s = ground (arith, lookup-erase name j s.clients)
