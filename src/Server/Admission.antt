-- ===== src/Server/Admission.antt =====
-- server/forward.go and client/reverse.go: how many visitors `handleTCP` lets in at a time.
--
-- Each visitor has a goroutine. Its accesses to the shared counter are atomic, and between them any
-- other goroutine may run: a schedule lists whose turn it is. The dial and the copying in between touch
-- no shared counter, so they are no step; a visitor is served from the check of the limit to the end.
-- The counter is far below 2^63.
pub mod Limit
use caochuan.Base.{
  ℕ, zero, suc, ◌+◌, ◌-◌, Bool, ◌&&◌, none, some, List, [], ◌∷◌, if◌then◌else◌, get_elem?, set,
}
use caochuan.Base.Int.{ℤ, pos, ltb_ℤ}

-- Where a visitor's goroutine stands.
pub data Phase : Type 0 where
  fresh counted refused serving gone : Phase

-- `rule.MaxConns > 0 && st.Conns.Load() > int64(rule.MaxConns)`
unfoldable pub is_over : ℤ → ℕ → Bool
is_over max conns = ltb_ℤ (pos 0) max && ltb_ℤ max (pos conns)

-- The next atomic step of a goroutine: the counter and the phase after it.
unfoldable pub step : ℤ → ℕ → Phase → ℕ × Phase
step max conns fresh = (conns + 1, counted)
step max conns counted = (conns, if is_over max conns then refused else serving)
step max conns refused = (conns - 1, gone)
step max conns serving = (conns - 1, gone)
step max conns gone = (conns, gone)

-- The counter of the rule, and all visitors of the history.
pub record Visits : Type 0 where
  pub conns : ℕ
  pub phases : List Phase

-- One goroutine's turn; there is none at an index out of range.
unfoldable pub turn : ℤ → ℕ → Visits → Visits
turn max i s = elim (get_elem? s.phases i) [
  | none ↦ s
  | some p ↦
      let (conns, p') = step max s.conns p in record { conns = conns; phases = set s.phases i p' }
]

unfoldable pub run : ℤ → List ℕ → Visits → Visits
run max [] s = s
run max (i ∷ is) s = run max is (turn max i s)

-- Visitors that have not come yet.
unfoldable pub waiting : ℕ → List Phase
waiting zero = []
waiting (suc n) = fresh ∷ waiting n

-- How many visitors are counted, and how many of them are served.
abbrev pub weight : Phase → ℕ
weight fresh = 0
weight gone = 0
weight _ = 1

abbrev pub served : Phase → ℕ
served serving = 1
served _ = 0

unfoldable pub total : (Phase → ℕ) → List Phase → ℕ
total w [] = 0
total w (p ∷ ps) = w p + total w ps
