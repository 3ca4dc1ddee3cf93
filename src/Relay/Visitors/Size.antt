-- ===== src/Relay/Visitors/Size.antt =====
-- server/forward.go and client/reverse.go: how the table of UDP visitors grows.
use caochuan.Base.{
  ℕ, ◌+◌, ◌%◌, ◌^◌, ◌≤◌, String, ◌≡◌, refl, inl, inr, arith, if◌then◌else◌, Bool-cases,
  Option-cases, length,
}
use caochuan.Base.Dict.{lookup, contains, length-insert}
use caochuan.Relay.Visitors.{Table, enter, expired, is_sweep_due, tick}
use caochuan.Relay.Visitors.Ids.{length-sweep}

pub length-enter :
    (now : ℕ) (key : String) (t : Table)
    → length (enter now key t).visitors
      ≡ (if contains key t.visitors then length t.visitors else length t.visitors + 1)
unfolding enter
length-enter now key t = elim (Option-cases (lookup key t.visitors)) [
  | inl e ↦ ground (
    arith,
    e,
    length-insert key (record { id = (t.next_id + 1) % 2 ^ 32; last_seen = now }) t.visitors,
  )
  | inr (v, e) ↦ ground (arith, e, length-insert key (record v { last_seen = now }) t.visitors)
]

pub next_id-enter : (now : ℕ) (key : String) (t : Table) → (enter now key t).next_id ≤ t.next_id + 1
unfolding enter
next_id-enter now key t = elim (Option-cases (lookup key t.visitors)) [
  | inl e ↦ rw (e, enter) (omega arith)
  | inr (v, e) ↦ rw (e, enter) (omega arith)
]

pub length-tick :
    (now : ℕ) (t : Table)
    → length (tick now t).visitors + (if is_sweep_due t then expired now t.visitors else 0)
      ≡ length t.visitors
unfolding tick
length-tick now t = elim (Bool-cases (is_sweep_due t)) [
  | inl e ↦ rw (e, tick) (length-sweep now t.visitors)
  | inr e ↦ rw (e, tick) (omega arith)
]

pub next_id-tick : (now : ℕ) (t : Table) → (tick now t).next_id ≡ t.next_id
unfolding tick
next_id-tick now t = refl
