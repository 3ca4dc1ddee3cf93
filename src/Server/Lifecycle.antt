-- ===== src/Server/Lifecycle.antt =====
-- server/server.go: `New`, and `Run` from the start of the listeners to their end.
--
-- The loops that `Run` starts, which take samples, probe
-- targets and accept clients, are the steps of History, Health and Tunnel.
mod Listed
pub mod Start
mod Tests
use caochuan.Base.Int.{ℤ, eqb_ℤ}
use caochuan.Base.{
  ◌&&◌, ◌||◌, str_eq, ℕ, String, Bool, true, false, not, Option, none, some, List, [], ◌∷◌, ◌++◌,
  if◌then◌else◌,
}
use caochuan.Base.Dict.{Dict}
use caochuan.Base.Text.{Text}
use caochuan.Config.{ServerConfig}
use caochuan.Config.File.{Disk}
use caochuan.Server.Notify.{new_notifier}
use caochuan.Server.State.{World, Server, ClientConn, Runner}
use caochuan.Server.Apply.{apply_rules}
use caochuan.Server.Certificate.{Crypto, CertManager, Files, load_or_generate}

-- The maps of a server that has just been made.
unfoldable pub initial : ServerConfig → Disk ServerConfig → Server
initial cfg disk = record {
  cfg = cfg;
  disk = disk;
  clients = [];
  runners = [];
  notifier = new_notifier cfg.notify_url cfg.notify_format;
  auth_fails = [];
  bl_ver = 0;
  closed = [];
}

-- `New`: the server and its certificate, unless the certificate cannot be had.
unfoldable pub new_server :
    Crypto
    → (String → String)
    → ServerConfig
    → Disk ServerConfig
    → Files
    → Option (Server × Option CertManager)
new_server c in_dir cfg disk files =
    if cfg.no_tls
    then some (initial cfg disk, none)
    else elim (load_or_generate c in_dir cfg.tls_cert cfg.tls_key files).0 [
      | none ↦ none
      | some certs ↦ some (initial cfg disk, some certs)
    ]

-- `TlsFingerprint`
unfoldable pub tls_fingerprint : Option CertManager → Text
tls_fingerprint none = []
tls_fingerprint (some certs) = certs.fingerprint

-- `Run` while it runs: the server, `stopping`, and the rules whose listeners were told to stop.
pub record Life : Type 0 where
  pub server : Server
  pub is_stopping : Bool
  pub stopped : List String

-- The world with one more port that is held under TCP.
abbrev pub beside : ℤ → World → World
beside port w = record w {
  taken = λ proto p. (str_eq proto "tcp" && eqb_ℤ p port) || w.taken proto p;
}

-- The start of `Run`, with the port of the tunnel's listener, if it can be had: the listener holds it when
-- the rules are started.
unfoldable pub begin_run : World → Option ℤ → Server → Option Life
begin_run w tunnel s = elim tunnel [
  | none ↦ none
  | some port ↦
      some (record { server = apply_rules (beside port w) s; is_stopping = false; stopped = [] })
]

-- An error of `Accept`: whether the loop goes on, after a second.
unfoldable pub goes_on : Life → Bool
goes_on l = not l.is_stopping

-- The loops at the end of `Run`.
unfoldable pub stop_runners : Dict Runner → List String
stop_runners [] = []
stop_runners ((id, rn) ∷ m) = id ∷ stop_runners m

unfoldable pub close_sessions : Dict ClientConn → List ℕ
close_sessions [] = []
close_sessions ((name, cc) ∷ m) = cc.session ∷ close_sessions m

-- The end of `Run`, when its context is done.
unfoldable pub end_run : Life → Life
end_run l = record {
  server = record l.server { closed = close_sessions l.server.clients ++ l.server.closed };
  is_stopping = true;
  stopped = stop_runners l.server.runners ++ l.stopped;
}
