-- ===== src/Server/Validate/Ports.antt =====
-- server/state.go: what `portConflict` has found out when it finds nothing.
use caochuan.Base.{
  ℕ, zero, suc, ◌+◌, ◌<◌, String, ◌≡◌, ap, ◌∙◌, ◌≢◌, false, none, some, List, [], ◌∷◌, arith, All,
  AllBut,
}
use caochuan.Base.Int.{ℤ}
use caochuan.Config.{Rule}
use caochuan.Server.Validate.{clashes, port_conflict}

pub port_conflict-none :
    (rules : List Rule) (i : ℕ) (listen : ℤ) (r : Rule)
    → port_conflict rules i none listen r "" ≡ none
    → All (λ cur. cur.id ≢ "" → clashes listen r cur ≡ false) rules
unfolding port_conflict
port_conflict-none [] i listen r h = tt
port_conflict-none (cur ∷ rules) i listen r h =
    (λ named. ground arith, port_conflict-none rules (i + 1) listen r (ground arith))

-- What `portConflict` has seen of the rules behind the one to skip, and of all but that one.
port_conflict_behind :
    (rules : List Rule) (i k : ℕ) (listen : ℤ) (r : Rule) (id : String)
    → k < i
    → port_conflict rules i (some k) listen r id ≡ none
    → All (λ cur. cur.id ≢ id → clashes listen r cur ≡ false) rules
unfolding port_conflict
port_conflict_behind [] i k listen r id lt h = tt
port_conflict_behind (cur ∷ rules) i k listen r id lt h = (
  λ other. ground arith,
  port_conflict_behind rules (i + 1) k listen r id (omega arith) (ground arith),
)

pub port_conflict-AllBut :
    (rules : List Rule) (i j : ℕ) (listen : ℤ) (r : Rule) (id : String)
    → port_conflict rules i (some (i + j)) listen r id ≡ none
    → AllBut j (λ cur. cur.id ≢ id → clashes listen r cur ≡ false) rules
unfolding port_conflict
port_conflict-AllBut [] i j listen r id h = tt
port_conflict-AllBut (cur ∷ rules) i zero listen r id h =
    port_conflict_behind rules (i + 1) (i + 0) listen r id (omega arith) (ground arith)
port_conflict-AllBut (cur ∷ rules) i (suc j) listen r id h =
    (λ other. ground arith, port_conflict-AllBut rules (i + 1) j listen r id (moved ∙ ground arith))
  where
    moved :
        port_conflict rules (i + 1) (some (i + 1 + j)) listen r id
        ≡ port_conflict rules (i + 1) (some (i + suc j)) listen r id
    moved = ap (λ k. port_conflict rules (i + 1) (some k) listen r id) (omega arith)
