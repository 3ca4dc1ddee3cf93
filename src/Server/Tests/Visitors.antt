-- ===== src/Server/Tests/Visitors.antt =====
-- server/server.go and server/forward.go: clients and visitors on concrete inputs.
use caochuan.Base.{
  ℕ, String, ◌≡◌, refl, true, false, not, ◌&&◌, ◌||◌, none, [], ◌∷◌, arith, String-discrete, str_eq,
  any,
}
use caochuan.Config.Fixtures.{some_netip}
use caochuan.Config.Acl.{new_acl, is_entry, addr_eq, entry_matches, all_entries}
use caochuan.Config.File.{no_fault}
use caochuan.Server.State.{World, Server}
use caochuan.Server.Tunnel.{Arrival, locked, auth_token, is_blacklisted, handle_tunnel}
use caochuan.Server.Tunnel.Lockout.{IsGuess, attempts, guesses_lock}
use caochuan.Server.Tunnel.Sessions.{Admits, handle_tunnel-Admits}
use caochuan.Server.Access.{ip_allowed, is_whitelisted, is_client_addr}
use caochuan.Server.Access.Decisions.{ip_allowed-decides}
use caochuan.Server.Fixtures.{world_at, live}

abbrev arrival : String → Arrival
arrival token = record {
  host = "203.0.113.7";
  addr = "203.0.113.7:4000";
  is_loopback = false;
  is_readable = true;
  token = token;
  version = "1";
  is_answered = true;
  is_muxed = true;
  session = 1;
}

abbrev at : ℕ → World
at now = world_at now no_fault

handle_tunnel-Admits_example :
    Admits (at 5) (arrival "token-of-pc") live (handle_tunnel (at 5) (arrival "token-of-pc") live)
handle_tunnel-Admits_example = handle_tunnel-Admits (at 5) (arrival "token-of-pc") live

at-IsGuess : (now : ℕ) → IsGuess live.cfg "203.0.113.7" (at now) (arrival "wrong")
unfolding auth_token is_blacklisted new_acl String-discrete
at-IsGuess now = record { from = refl; readable = refl; unknown = refl; unlisted = refl }

abbrev guess : ℕ → World × Arrival
guess now = (at now, arrival "wrong")

guesses_lock_example :
    (handle_tunnel (at 20) (arrival "token-of-pc") (
      attempts
        (guess 1
          ∷ guess 2
          ∷ guess 3
          ∷ guess 4
          ∷ guess 5
          ∷ guess 6
          ∷ guess 7
          ∷ guess 8
          ∷ guess 9
          ∷ guess 10
          ∷ [])
        live)).0
    ≡ locked
guesses_lock_example =
    guesses_lock
      (guess 2
        ∷ guess 3
        ∷ guess 4
        ∷ guess 5
        ∷ guess 6
        ∷ guess 7
        ∷ guess 8
        ∷ guess 9
        ∷ guess 10
        ∷ [])
      (at 1) (arrival "wrong") (arrival "token-of-pc") (at 20) live refl refl
      (
        at-IsGuess 1,
        (
          at-IsGuess 2,
          (
            at-IsGuess 3,
            (
              at-IsGuess 4,
              (
                at-IsGuess 5,
                (at-IsGuess 6, (at-IsGuess 7, (at-IsGuess 8, (at-IsGuess 9, (at-IsGuess 10, tt))))),
              ),
            ),
          ),
        ),
      )
      (omega arith) refl refl (omega arith)

abbrev banned : Server
banned = record live { cfg = record live.cfg { ip_blacklist = "10.0.0.0/8" ∷ [] } }

ip_allowed-decides_example : ip_allowed some_netip (λ t. none) [] "10.1.2.3" banned ≡ (
    str_eq "10.1.2.3" "127.0.0.1"
    || (not (any (entry_matches some_netip "10.1.2.3") ("10.0.0.0/8" ∷ []))
        && (any (λ a. addr_eq some_netip a "10.1.2.3") []
            || is_whitelisted some_netip [] "10.1.2.3"
            || is_client_addr some_netip (λ t. none) [] "10.1.2.3")))
unfolding all_entries is_entry String-discrete
ip_allowed-decides_example = ip_allowed-decides some_netip (λ t. none) [] "10.1.2.3" banned refl
