-- ===== src/Client/Session/Waits.antt =====
-- client/client.go: the waits between the attempts of `Run`.
use caochuan.Base.{
  ℕ, zero, suc, ◌*◌, ◌^◌, ◌<◌, min, ◌≡◌, ap, inl, inr, some, List, [], ◌∷◌, arith, ltb,
  if◌then◌else◌, Bool-cases, length, get_elem?,
}
use caochuan.Client.Session.{backoff_start, backoff_max, waited, doubled, run_loop, run}

-- How many attempts in a row, up to the i-th, were no longer than `backoff_max`, after `k` before.
pub streak : List ℕ → ℕ → ℕ → ℕ
streak [] i k = k
streak (d ∷ ds) zero k = if ltb backoff_max d then 0 else k
streak (d ∷ ds) (suc i) k = streak ds i (if ltb backoff_max d then 1 else suc k)

-- The wait after a number of short attempts in a row.
abbrev pub wait_for : ℕ → ℕ
wait_for k = min (backoff_start * 2 ^ k) backoff_max

doubled-wait_for : (k : ℕ) → doubled (wait_for k) ≡ wait_for (suc k)
unfolding doubled
doubled-wait_for k = ground (arith)

waited-wait_for : (d k : ℕ) → waited d (wait_for k) ≡ wait_for (if ltb backoff_max d then 0 else k)
unfolding waited
waited-wait_for d k = ground arith

-- The backoff after the wait that follows an attempt of length `d`.
next_wait :
    (d k : ℕ) → doubled (waited d (wait_for k)) ≡ wait_for (if ltb backoff_max d then 1 else suc k)
next_wait d k = elim (Bool-cases (ltb backoff_max d)) [
  | inl e ↦ rw (waited-wait_for d k, e) (doubled-wait_for 0)
  | inr e ↦ rw (waited-wait_for d k, e) (doubled-wait_for k)
]

run_loop-streak :
    (ds : List ℕ) (i k : ℕ)
    → i < length ds
    → get_elem? (run_loop ds (wait_for k)) i ≡ some (wait_for (streak ds i k))
unfolding run_loop streak
run_loop-streak [] i k lt = absurd (omega arith)
run_loop-streak (d ∷ ds) zero k lt = ap some (waited-wait_for d k)
run_loop-streak (d ∷ ds) (suc i) k lt =
    rw (next_wait d k) (run_loop-streak ds i (if ltb backoff_max d then 1 else suc k) (omega arith))

-- The wait after the i-th attempt is a second, doubled for each wait before it since the last attempt of
-- more than 30 seconds, or since the start, but never more than 30 seconds.
pub run-streak :
    (attempts : List ℕ) (i : ℕ)
    → i < length attempts
    → get_elem? (run attempts) i ≡ some (min (backoff_start * 2 ^ streak attempts i 0) backoff_max)
run-streak attempts i lt = run_loop-streak attempts i 0 lt
