-- ===== src/Server/Fixtures.antt =====
-- A concrete world and server for the tests.
use caochuan.Base.{
  ℕ, String, ◌≡◌, refl, subst, true, false, none, some, [], ◌∷◌, arith, String-discrete, differ,
}
use caochuan.Base.Dict.{Dict, lookup, insert, Distinct, lookup-insert, insert-Distinct}
use caochuan.Config.{Rule, ServerConfig, ClientUser}
use caochuan.Config.Fixtures.{some_netip, some_rule, some_config}
use caochuan.Config.File.{whole, Fault}
use caochuan.Server.State.{World, Server}
use caochuan.Server.Apply.{runner_for, desired, collect_desired, same_as}
use caochuan.Server.Rules.Tidy.{IsTidy}
use caochuan.Server.Requests.Running.{Configured}
use caochuan.Server.Apply.Result.{VisitsAll}

-- The entries of a map, each key once.
abbrev pub keys_once : Dict Rule → Dict Rule
keys_once [] = []
keys_once ((k, r) ∷ m) = insert k r (keys_once m)

keys_once-Distinct : (m : Dict Rule) → Distinct (keys_once m)
keys_once-Distinct [] = tt
keys_once-Distinct ((k, r) ∷ m) = insert-Distinct k r (keys_once m) (keys_once-Distinct m)

lookup-keys_once : (j : String) (m : Dict Rule) → lookup j (keys_once m) ≡ lookup j m
lookup-keys_once j [] = refl
lookup-keys_once j ((k, r) ∷ m) =
    ground (arith, lookup-keys_once j m, lookup-insert k j r (keys_once m))

pub keys_once-VisitsAll : (m : Dict Rule) → VisitsAll keys_once m
keys_once-VisitsAll m = record { once = keys_once-Distinct m; each = λ j. lookup-keys_once j m }

-- Noon, with a disk that does what `fault` says.
abbrev pub world_at : ℕ → Fault → World
world_at now fault = record {
  netip = some_netip;
  split_host_port = λ t. true;
  now = now;
  token = "0123456789abcdef";
  fault = fault;
  taken = λ p l. false;
  frame_size = λ rules. 0;
  takes_frame = λ name. true;
  order = keys_once;
}

abbrev pub some_user : ClientUser
some_user = record { name = "pc"; token = "token-of-pc"; note = "" }

abbrev pub live_config : ServerConfig
live_config = record some_config { clients = some_user ∷ [] }

abbrev pub live : Server
live = record {
  cfg = live_config;
  disk = record { file = some (whole live_config); tmp = none };
  clients = [];
  runners = ("r1", runner_for some_rule) ∷ [];
  notifier = record { url = ""; format = "generic"; last = []; posted = [] };
  auth_fails = [];
  bl_ver = 0;
  closed = [];
}

pub desired-live : desired live.cfg.rules ≡ ("r1", some_rule) ∷ []
unfolding desired collect_desired String-discrete
desired-live = refl

same : same_as (runner_for some_rule) some_rule ≡ true
unfolding same_as String-discrete
same = refl

pub live-IsTidy : IsTidy live.cfg.rules
unfolding String-discrete
live-IsTidy = record { identified = (differ "r1" "" refl, tt); separate = (tt, tt) }

pub live-Configured : Configured live.runners live.cfg.rules
live-Configured id rn e = elim (String-discrete "r1" id) [
  | yes p ↦ (
    some_rule,
    ground (arith, desired-live, p),
    subst (λ z. same_as z some_rule ≡ true) (ground (arith, p, e)) same,
  )
  | no n ↦ ground (arith, e)
]
