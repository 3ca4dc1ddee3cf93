-- ===== src/Relay/Visitors.antt =====
-- server/forward.go and client/reverse.go: the table of UDP visitors, which `udpTunnelRelay` and
-- `udpRelay` keep in the same way.
--
-- A visitor is named by the text of its address. A time is a count of nanoseconds; the identifier is a
-- `uint32`.
pub mod Ids
pub mod Size
use caochuan.Base.{
  ℕ, ◌+◌, ◌-◌, ◌%◌, ◌^◌, String, Bool, not, ◌&&◌, Option, none, some, [], ◌∷◌, ltb, ◌==◌,
  if◌then◌else◌, length,
}
use caochuan.Base.Int.{ℤ, pos, ltb_ℤ}
use caochuan.Base.Dict.{Dict, lookup, contains, insert}

-- `visitorEntry`
pub record Visitor : Type 0 where
  pub id : ℕ
  pub last_seen : ℕ

-- `udpIdle` and `udpIdleTimeout`
abbrev pub udp_idle : ℕ
udp_idle = 90_000_000_000

-- The local variables `visitors`, `nextID` and `packets`.
pub record Table : Type 0 where
  pub visitors : Dict Visitor
  pub next_id : ℕ
  pub packets : ℕ

abbrev pub new_table : Table
new_table = record { visitors = []; next_id = 0; packets = 0 }

-- A new visitor, and no room for it.
unfoldable pub is_full : {V : Type 0} → ℤ → String → Dict V → Bool
is_full max key m = not (contains key m) && ltb_ℤ (pos 0) max && not (ltb_ℤ (pos (length m)) max)

-- The visitor's entry, new or found, with the time of the packet.
unfoldable pub enter : ℕ → String → Table → Table
enter now key t = elim (lookup key t.visitors) [
  | none ↦
      let id = (t.next_id + 1) % 2 ^ 32 in
      record t {
        visitors = insert key (record { id = id; last_seen = now }) t.visitors;
        next_id = id;
      }
  | some v ↦ record t { visitors = insert key (record v { last_seen = now }) t.visitors }
]

abbrev pub is_idle : ℕ → Visitor → Bool
is_idle now v = ltb udp_idle (now - v.last_seen)

-- The loop that deletes the idle visitors, and how many they are.
unfoldable pub sweep : ℕ → Dict Visitor → Dict Visitor
sweep now [] = []
sweep now ((k, v) ∷ m) = let rest = sweep now m in if is_idle now v then rest else (k, v) ∷ rest

unfoldable pub expired : ℕ → Dict Visitor → ℕ
expired now [] = 0
expired now ((k, v) ∷ m) = let rest = expired now m in if is_idle now v then rest + 1 else rest

-- The count of packets, and the sweep at every 64th.
unfoldable pub is_sweep_due : Table → Bool
is_sweep_due t = (t.packets + 1) % 64 == 0

unfoldable pub tick : ℕ → Table → Table
tick now t = record t {
  visitors = if is_sweep_due t then sweep now t.visitors else t.visitors;
  packets = t.packets + 1;
}

-- The loop that looks for the visitor of a reply.
unfoldable pub visitor_of : ℕ → Dict Visitor → Option String
visitor_of id [] = none
visitor_of id ((k, v) ∷ m) = let rest = visitor_of id m in if v.id == id then some k else rest
