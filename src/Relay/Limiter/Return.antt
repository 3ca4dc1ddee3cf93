-- ===== src/Relay/Limiter/Return.antt =====
-- relay/limiter.go: `Wait` returns.
use caochuan.Base.{
  ℕ, zero, ◌+◌, ◌-◌, ◌*◌, ◌/◌, ◌≤◌, ◌<◌, ◌≡◌, ◌≢◌, inl, inr, true, none, List, ◌∷◌, arith,
  Bool-cases,
}
use native.Mathlib.Nat.{mul-le-mul_right, lt-mul-div-succ, mul_comm}
use caochuan.Relay.Limiter.Rate.{last-round, rate-round}
use caochuan.Relay.Limiter.{second, Limiter, refill, round, sleep, wait}

round_passes :
    (now n : ℕ) (l : Limiter) → n * second ≤ (refill now l).tokens → (round now n l).0 ≡ true
unfolding round
round_passes now n l h = ground arith

-- A refill after the sleep of a limiter that lacks tokens.
tokens-refill_after :
    (next n : ℕ) (l : Limiter)
    → zero < l.rate
    → n ≤ l.rate
    → l.last + sleep n l < next
    → n * second ≤ (refill next l).tokens
unfolding refill sleep
tokens-refill_after next n l h fits late =
    let q = (n * second - l.tokens) / l.rate in
    let gained : (q + 1) * l.rate ≤ (next - l.last) * l.rate =
      mul-le-mul_right l.rate (omega arith) in
    omega (
      arith,
      gained,
      mul_comm (q + 1) l.rate,
      lt-mul-div-succ (n * second - l.tokens) h,
      mul-le-mul_right second fits,
    )

-- For a caller that has the limiter to itself, an amount of at most a second's bytes goes through in the
-- first round, or in the second if the clock has then passed the time for which the first one sleeps.
pub wait_returns :
    (first next n : ℕ) (readings : List ℕ) (l : Limiter)
    → zero < l.rate
    → n ≤ l.rate
    → first + sleep n (round first n l).1 < next
    → wait (first ∷ next ∷ readings) n l ≢ none
unfolding wait
wait_returns first next n readings l h fits late =
    let l' = (round first n l).1 in
    let passes = round_passes next n l' (
      tokens-refill_after next n l' (rw (rate-round first n l) h) (rw (rate-round first n l) fits)
        (rw (last-round first n l) late)) in
    elim (Bool-cases (round first n l).0) [
      | inl e ↦ ground (arith, e)
      | inr e ↦ ground (arith, e, passes)
    ]
