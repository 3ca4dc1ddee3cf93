-- ===== src/Server/Tunnel/Lockout.antt =====
-- server/server.go: guessing tokens.
use caochuan.Base.{
  ℕ, ◌+◌, ◌≤◌, ◌<◌, String, ◌≡◌, refl, ap, ◌∙◌, true, false, Option, none, some, List, [], ◌∷◌,
  arith, leb, if◌then◌else◌, length, All,
}
use caochuan.Base.Dict.{Dict, lookup, lookup-insert}
use caochuan.Config.{ServerConfig}
use caochuan.Server.State.{World, Server, AuthFail}
use caochuan.Server.Tunnel.{
  auth_max_fails, auth_block_for, is_stale, sweep_auth_fails, Arrival, locked, auth_token, no_fail,
  record_auth_fail, is_locked, is_blacklisted, handle_tunnel,
}

-- A host's record is swept only when it is stale.
lookup-sweep :
    (now : ℕ) (host : String) (m : Dict AuthFail) (f : AuthFail)
    → lookup host m ≡ some f
    → is_stale now f ≡ false
    → lookup host (sweep_auth_fails now m) ≡ some f
unfolding sweep_auth_fails
lookup-sweep now host [] f e h = cc
lookup-sweep now host ((ip, g) ∷ m) f e h = ground (arith, lookup-sweep now host m f)

lookup-sweep-none :
    (now : ℕ) (host : String) (m : Dict AuthFail)
    → lookup host m ≡ none
    → lookup host (sweep_auth_fails now m) ≡ none
unfolding sweep_auth_fails
lookup-sweep-none now host [] e = refl
lookup-sweep-none now host ((ip, g) ∷ m) e = ground (arith, lookup-sweep-none now host m)

-- While a host is locked out no token of its is looked at, not even a good one: the connection is
-- dropped, and nothing changes but that stale records are swept.
pub handle_tunnel-locked :
    (w : World) (a : Arrival) (s : Server) (f : AuthFail)
    → lookup a.host s.auth_fails ≡ some f
    → w.now < f.until
    → a.is_loopback ≡ false
    → handle_tunnel w a s ≡ (locked, record s { auth_fails = sweep_auth_fails w.now s.auth_fails })
unfolding handle_tunnel is_locked
handle_tunnel-locked w a s f e before far =
    ground (arith, lookup-sweep w.now a.host s.auth_fails f e)

-- The record after one more failure at a time.
abbrev failed_at : ℕ → AuthFail → AuthFail
failed_at now f =
    if leb auth_max_fails (f.count + 1)
    then record { count = 0; last_fail = now; until = now + auth_block_for }
    else record { count = f.count + 1; last_fail = now; until = f.until }

-- A readable first frame with an unknown token, from a host that the blacklist does not name.
pub record IsGuess (cfg : ServerConfig) (host : String) (w : World) (a : Arrival) : Type 0 where
  pub from : a.host ≡ host
  pub readable : a.is_readable ≡ true
  pub unknown : auth_token a.token cfg.clients ≡ none
  pub unlisted : is_blacklisted w a.host cfg.ip_blacklist ≡ false

-- A guess is denied and counted, from the record that the sweep has left.
guess_counts :
    (w : World) (a : Arrival) (s : Server) (host : String) (o : Option AuthFail)
    → IsGuess s.cfg host w a
    → lookup host (sweep_auth_fails w.now s.auth_fails) ≡ o
    → is_locked w a (sweep_auth_fails w.now s.auth_fails) ≡ false
    → (lookup host (handle_tunnel w a s).1.auth_fails
        ≡ some (failed_at w.now (elim o [ none ↦ no_fail | some f ↦ f ])))
      × ((handle_tunnel w a s).1.cfg ≡ s.cfg)
unfolding handle_tunnel record_auth_fail
guess_counts w a s host o g e l = ground (
  arith,
  lookup-insert a.host host (failed_at w.now (elim o [ none ↦ no_fail | some f ↦ f ]))
      (sweep_auth_fails w.now s.auth_fails),
)

-- A first guess, from a host without a record.
first_guess :
    (w : World) (a : Arrival) (s : Server) (host : String)
    → IsGuess s.cfg host w a
    → lookup host s.auth_fails ≡ none
    → (lookup host (handle_tunnel w a s).1.auth_fails ≡ some (failed_at w.now no_fail))
      × ((handle_tunnel w a s).1.cfg ≡ s.cfg)
unfolding is_locked
first_guess w a s host g e =
    let swept = lookup-sweep-none w.now host s.auth_fails e in
    guess_counts w a s host none g swept (rw g.from (ground (arith, swept)))

-- A further guess, not too late, of a host that is not locked out.
next_guess :
    (w : World) (a : Arrival) (s : Server) (host : String) (f : AuthFail)
    → IsGuess s.cfg host w a
    → lookup host s.auth_fails ≡ some f
    → f.until ≡ 0
    → w.now ≤ f.last_fail + auth_block_for
    → (lookup host (handle_tunnel w a s).1.auth_fails ≡ some (failed_at w.now f))
      × ((handle_tunnel w a s).1.cfg ≡ s.cfg)
unfolding is_locked
next_guess w a s host f g e u soon =
    let swept = lookup-sweep w.now host s.auth_fails f e (ground arith) in
    guess_counts w a s host (some f) g swept (rw g.from (ground (arith, swept)))

-- Connections one after the other.
pub attempts : List (World × Arrival) → Server → Server
attempts [] s = s
attempts ((w, a) ∷ es) s = attempts es (handle_tunnel w a s).1

-- Each comes at most ten minutes after the one before.
abbrev pub Close : ℕ → List (World × Arrival) → Type 0
Close t [] = Unit {0}
Close t ((w, a) ∷ es) = (w.now ≤ t + auth_block_for) × Close w.now es

abbrev pub last_time : ℕ → List (World × Arrival) → ℕ
last_time t [] = t
last_time t ((w, a) ∷ es) = last_time w.now es

abbrev AreWrong : ServerConfig → String → List (World × Arrival) → Type 0
AreWrong cfg host = All (λ e. IsGuess cfg host e.0 e.1)

-- The k-th guess, for k from 1 to 9, leaves a count of k; the tenth locks.
guesses_from :
    (es : List (World × Arrival)) (s : Server) (cfg : ServerConfig) (host : String) (f : AuthFail)
    → s.cfg ≡ cfg
    → lookup host s.auth_fails ≡ some f
    → f.until ≡ 0
    → f.count + length es ≡ auth_max_fails
    → f.count < auth_max_fails
    → AreWrong cfg host es
    → Close f.last_fail es
    → (g : AuthFail) × (lookup host (attempts es s).auth_fails ≡ some g)
      × (g.until ≡ last_time f.last_fail es + auth_block_for)
unfolding attempts
guesses_from [] s cfg host f c e u n lt gs cl = absurd (omega arith)
guesses_from ((w, a) ∷ []) s cfg host f c e u n lt gs cl =
    let after = (next_guess w a s host f (rw c gs.0) e u cl.0).0 in
    (failed_at w.now f, after, ground arith)
guesses_from ((w, a) ∷ (x, b) ∷ es) s cfg host f c e u n lt gs cl =
    let after = next_guess w a s host f (rw c gs.0) e u cl.0 in
    guesses_from ((x, b) ∷ es) (handle_tunnel w a s).1 cfg host
      (record { count = f.count + 1; last_fail = w.now; until = f.until }) (after.1 ∙ c)
      (ground (arith, after)) u (omega arith) (omega arith) gs.1 cl.1

-- Ten guesses in a row of one host without a record, each at most ten minutes after the one
-- before, lock it out for ten minutes from the last: a connection from it in that time is turned
-- away as locked, unless it is from the loopback host.
pub guesses_lock :
    (es : List (World × Arrival)) (w : World) (a x : Arrival) (y : World) (s : Server)
    → lookup a.host s.auth_fails ≡ none
    → length es ≡ 9
    → AreWrong s.cfg a.host ((w, a) ∷ es)
    → Close w.now es
    → x.host ≡ a.host
    → x.is_loopback ≡ false
    → y.now < last_time w.now es + auth_block_for
    → (handle_tunnel y x (attempts ((w, a) ∷ es) s)).0 ≡ locked
unfolding attempts
guesses_lock es w a x y s fresh nine gs cl host far soon =
    let first = first_guess w a s a.host gs.0 fresh in
    let (g, e, u) =
      guesses_from es (handle_tunnel w a s).1 s.cfg a.host
        (record { count = 1; last_fail = w.now; until = 0 }) first.1 (ground (arith, first)) refl
        (omega arith) (omega arith) gs.1 cl in
    ap (λ r. r.0)
      (handle_tunnel-locked y x (attempts es (handle_tunnel w a s).1) g (rw host e) (omega arith)
        far)
