-- ===== src/Server/Health.antt =====
-- server/health.go: `probeAll` and its loop.
--
-- `result` is what `probeRule` answers for a rule in this round, none for a target that can be reached; the
-- goroutines end in any order, each with one entry under the lock.
pub mod Shown
mod Tests
use caochuan.Base.{String, Option, List, [], ◌∷◌}
use caochuan.Base.Dict.{Dict, insert}
use caochuan.Config.{Rule}
use caochuan.Server.State.{Server}
use caochuan.Server.Views.{probed}

-- The rules that are probed, each with its goroutine.
abbrev pub by_id : List Rule → Dict Rule
by_id [] = []
by_id (r ∷ rs) = (r.id, r) ∷ by_id rs

-- The entries of `s.health` that the goroutines write, in the order in which they end.
unfoldable pub record_results :
    (Rule → Option String) → Dict Rule → Dict (Option String) → Dict (Option String)
record_results result [] health = health
record_results result ((id, r) ∷ m) health = record_results result m (insert id (result r) health)

-- `probeAll`
unfoldable pub probe_all :
    (Dict Rule → Dict Rule)
    → (Rule → Option String)
    → Server
    → Dict (Option String)
    → Dict (Option String)
probe_all order result s health = record_results result (order (by_id (probed s.cfg.rules))) health

-- A round of the loop: the order and the results in it, and the server as it then is.
pub record Round : Type 0 where
  pub order : Dict Rule → Dict Rule
  pub result : Rule → Option String
  pub server : Server

-- `probeLoop`, as far as it has come.
unfoldable pub probe_loop : List Round → Dict (Option String) → Dict (Option String)
probe_loop [] health = health
probe_loop (r ∷ rounds) health = probe_loop rounds (probe_all r.order r.result r.server health)
