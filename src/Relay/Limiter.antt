-- ===== src/Relay/Limiter.antt =====
-- relay/limiter.go: `Limiter`, the token bucket that all connections of a rule share.
--
-- The code counts tokens in bytes as floating-point numbers; here a token is a byte times a nanosecond
-- of time, 10^9 to the byte, which makes all of its arithmetic exact. The rate is in bytes a second, and
-- a time is a count of nanoseconds. `Wait` gives the lock up while it sleeps, so one round of its loop
-- is one step, and `readings` are what the clock says in its rounds.
pub mod Rate
pub mod Return
use caochuan.Base.{
  ℕ, ◌+◌, ◌-◌, ◌*◌, ◌/◌, min, Bool, true, false, Option, none, some, List, [], ◌∷◌, leb, ◌==◌,
  if◌then◌else◌,
}
use caochuan.Base.Int.{ℤ, pos, ltb_ℤ, pos_part}

abbrev pub second : ℕ
second = 1_000_000_000

pub record Limiter : Type 0 where
  pub rate : ℕ
  pub tokens : ℕ
  pub last : ℕ

-- `NewLimiter`: none is the nil limiter, which does not limit.
unfoldable pub new_limiter : ℕ → ℤ → Option Limiter
new_limiter now mbps =
    if ltb_ℤ (pos 0) mbps
    then some (record {
      rate = pos_part mbps * (1024 * 1024 / 8);
      tokens = pos_part mbps * (1024 * 1024 / 8) * second;
      last = now;
    })
    else none

-- The refill at the top of a round.
unfoldable pub refill : ℕ → Limiter → Limiter
refill now l = record l {
  tokens = min (l.rate * second) (l.tokens + (now - l.last) * l.rate);
  last = now;
}

-- One round: whether the bytes go through, and the limiter after it.
unfoldable pub round : ℕ → ℕ → Limiter → Bool × Limiter
round now n l₀ =
    let l = refill now l₀ in
    if leb (n * second) l.tokens
    then (true, record l { tokens = l.tokens - n * second })
    else (false, l)

-- How long a round that fails sleeps.
unfoldable pub sleep : ℕ → Limiter → ℕ
sleep n l = (n * second - l.tokens) / l.rate

-- `Wait`, if it returns within the readings; nothing to wait for returns at once.
unfoldable pub wait : List ℕ → ℕ → Limiter → Option Limiter
wait [] n l = none
wait (now ∷ readings) n l =
    let (ok, l') = round now n l in let rest = wait readings n l' in if ok then some l' else rest

unfoldable pub wait_for : List ℕ → ℕ → Option Limiter → Option (Option Limiter)
wait_for readings n none = some none
wait_for readings n (some l) =
    let rest = wait readings n l in
    if n == 0 then some (some l) else elim rest [ none ↦ none | some l' ↦ some (some l') ]
