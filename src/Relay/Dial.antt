-- ===== src/Relay/Dial.antt =====
-- server/forward.go, client/client.go and relay/proxyproto.go: `dialBalanced` of both sides and
-- `DialUDPBalanced`, which choose the targets in the same way.
--
-- `dial` says which targets can be reached at this call; for UDP it stands for the resolution and the
-- dial together. The counter is a `uint64`, and the index is computed as an `int` of 64 bits.
pub mod Rotation
use caochuan.Base.{
  ℕ, zero, suc, ◌+◌, ◌-◌, ◌%◌, ◌^◌, Bool, Option, none, some, List, [], ◌∷◌, ltb, ◌==◌,
  if◌then◌else◌, length, get_elem?,
}
use caochuan.Base.Text.{Text}
use caochuan.Relay.Targets.{parse_targets}

pub data Dialed : Type 0 where
  reached : Text → Dialed
  unreachable no_target panicked : Dialed

-- `(start+i) % len(targets)`: the sum wraps, and a negative one has a negative or zero remainder.
unfoldable pub index : ℕ → ℕ → ℕ → Option ℕ
index rr i len =
    let v = (rr + i) % 2 ^ 64 in
    if ltb v (2 ^ 63) then some (v % len) else if (2 ^ 64 - v) % len == 0 then some 0 else none

-- The loop, with the rounds that are left.
unfoldable pub dial_loop : (Text → Bool) → List Text → ℕ → ℕ → ℕ → Dialed
dial_loop dial ts rr i zero = unreachable
dial_loop dial ts rr i (suc k) =
    let rest = dial_loop dial ts rr (i + 1) k in
    elim (index rr i (length ts)) [
      | none ↦ panicked
      | some j ↦ elim (get_elem? ts j) [
        | none ↦ panicked
        | some t ↦ if dial t then reached t else rest
      ]
    ]

-- The dial, and the counter after it.
unfoldable pub dial_balanced : (Text → Bool) → Text → ℕ → Dialed × ℕ
unfolding dial_loop
dial_balanced dial target rr = elim (parse_targets target) [
  | [] ↦ (no_target, rr)
  | t ∷ ts ↦ (dial_loop dial (t ∷ ts) rr 0 (length (t ∷ ts)), (rr + 1) % 2 ^ 64)
]
