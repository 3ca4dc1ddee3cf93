-- ===== src/Relay/Limiter/Rate.antt =====
-- relay/limiter.go: how many bytes a limiter lets through.
use caochuan.Base.{
  ℕ, ◌+◌, ◌-◌, ◌*◌, ◌≤◌, ◌≡◌, refl, sym, ap, subst, ◌∙◌, Bool, true, false, some, List, [], ◌∷◌,
  arith, if◌then◌else◌,
}
use mathlib.Core.Path.{subst₂}
use native.Mathlib.Nat.{add-mul, mul-add, mul_comm}
use caochuan.Base.Int.{ℤ}
use caochuan.Relay.Limiter.{second, Limiter, new_limiter, refill, round}

-- The rounds of all callers, in the order of the lock: the time of each and the bytes it asks for. The
-- bytes that went through, and the limiter at the end.
unfoldable pub rounds : List (ℕ × ℕ) → Limiter → ℕ × Limiter
rounds [] l = (0, l)
rounds ((now, n) ∷ rs) l =
    let (ok, l') = round now n l in
    let (sum, l'') = rounds rs l' in (if ok then n + sum else sum, l'')

-- The clock does not go back.
abbrev pub Ordered : ℕ → List (ℕ × ℕ) → Type 0
Ordered t [] = Unit {0}
Ordered t ((now, n) ∷ rs) = (t ≤ now) × Ordered now rs

abbrev pub end_of : ℕ → List (ℕ × ℕ) → ℕ
end_of t [] = t
end_of t ((now, n) ∷ rs) = end_of now rs

tokens-refill_le :
    (now : ℕ) (l : Limiter) → (refill now l).tokens ≤ l.tokens + (now - l.last) * l.rate
unfolding refill
tokens-refill_le now l = omega arith

tokens-refill_cap : (now : ℕ) (l : Limiter) → (refill now l).tokens ≤ l.rate * second
unfolding refill
tokens-refill_cap now l = omega arith

elapsed : (t now r : ℕ) → t ≤ now → (now - t) * r + t * r ≡ now * r
elapsed t now r h =
    sym (add-mul (now - t) t r) ∙ ap (λ z. z * r) {x = now - t + t} {y = now} (omega arith)

abbrev cost : ℕ → Bool → ℕ
cost n ok = if ok then n * second else 0

round-budget :
    (now n : ℕ) (l : Limiter)
    → l.last ≤ now
    → cost n (round now n l).0 + (round now n l).1.tokens + l.last * l.rate
      ≤ l.tokens + now * l.rate
unfolding round
round-budget now n l h = ground (arith, tokens-refill_le now l, elapsed l.last now l.rate h)

round-cap : (now n : ℕ) (l : Limiter) → (round now n l).1.tokens ≤ l.rate * second
unfolding round
round-cap now n l = ground (arith, tokens-refill_cap now l)

pub last-round : (now n : ℕ) (l : Limiter) → (round now n l).1.last ≡ now
unfolding round refill
last-round now n l = ground arith

pub rate-round : (now n : ℕ) (l : Limiter) → (round now n l).1.rate ≡ l.rate
unfolding round refill
rate-round now n l = ground arith

cost-round :
    (n : ℕ) (ok : Bool) (sum : ℕ)
    → (if ok then n + sum else sum) * second ≡ cost n ok + sum * second
cost-round n true sum = add-mul n sum second
cost-round n false sum = omega arith

rounds-budget :
    (rs : List (ℕ × ℕ)) (l : Limiter)
    → Ordered l.last rs
    → (rounds rs l).0 * second + (rounds rs l).1.tokens + l.last * l.rate
      ≤ l.tokens + end_of l.last rs * l.rate
unfolding rounds
rounds-budget [] l o = omega arith
rounds-budget ((now, n) ∷ rs) l (h, o) =
    let l' = (round now n l).1 in
    let ih = rounds-budget rs l' (subst (λ z. Ordered z rs) (sym (last-round now n l)) o) in
    let ih' : (rounds rs l').0 * second + (rounds rs l').1.tokens + now * l.rate
        ≤ l'.tokens + end_of now rs * l.rate =
      subst₂
        (λ t r.
          (rounds rs l').0 * second + (rounds rs l').1.tokens + t * r ≤ l'.tokens + end_of t rs * r)
        (last-round now n l) (rate-round now n l) ih in
    omega (arith, ih', round-budget now n l h, cost-round n (round now n l).0 (rounds rs l').0)

rounds-cap :
    (rs : List (ℕ × ℕ)) (l : Limiter)
    → l.tokens ≤ l.rate * second
    → ((rounds rs l).1.tokens ≤ l.rate * second)
      × ((rounds rs l).1.rate ≡ l.rate)
      × ((rounds rs l).1.last ≡ end_of l.last rs)
unfolding rounds
rounds-cap [] l h = (h, refl, refl)
rounds-cap ((now, n) ∷ rs) l h =
    let l' = (round now n l).1 in
    let (a, b, c) =
      rounds-cap rs l'
        (subst (λ r. l'.tokens ≤ r * second) (sym (rate-round now n l)) (round-cap now n l)) in
    (
      subst (λ r. (rounds rs l').1.tokens ≤ r * second) (rate-round now n l) a,
      b ∙ rate-round now n l,
      c ∙ ap (λ t. end_of t rs) (last-round now n l),
    )

end_of_le : (t : ℕ) (rs : List (ℕ × ℕ)) → Ordered t rs → t ≤ end_of t rs
end_of_le t [] o = omega arith
end_of_le t ((now, n) ∷ rs) (h, o) = omega (arith, h, end_of_le now rs o)

new_limiter-full :
    (now : ℕ) (mbps : ℤ) (l : Limiter)
    → new_limiter now mbps ≡ some l
    → (l.tokens ≡ l.rate * second) × (l.last ≡ now)
unfolding new_limiter
new_limiter-full now mbps l e = (ground (arith, e), ground (arith, e))

-- The rate over a stretch that starts at a limiter with at most a second's tokens.
stretch :
    (rs : List (ℕ × ℕ)) (l : Limiter)
    → Ordered l.last rs
    → l.tokens ≤ l.rate * second
    → (rounds rs l).0 * second ≤ l.rate * (second + (end_of l.last rs - l.last))
stretch rs l o h =
    let d = end_of l.last rs - l.last in
    omega (
      arith,
      h,
      rounds-budget rs l o,
      elapsed l.last (end_of l.last rs) l.rate (end_of_le l.last rs o),
      mul-add l.rate second d,
      mul_comm l.rate d,
    )

-- Over any stretch of time, whoever calls and however the calls interleave, the bytes that go through a
-- limiter are at most what its rate gives for the length of the stretch and one more second.
pub rounds-rate :
    (now : ℕ) (mbps : ℤ) (l : Limiter) (before during : List (ℕ × ℕ))
    → new_limiter now mbps ≡ some l
    → Ordered now before
    → Ordered (end_of now before) during
    → (rounds during (rounds before l).1).0 * second
      ≤ l.rate * (second + (end_of (end_of now before) during - end_of now before))
rounds-rate now mbps l before during e o o' =
    let (full, start) = new_limiter-full now mbps l e in
    let m = (rounds before l).1 in
    let (cap, rate, at) = rounds-cap before l (omega (arith, full)) in
    let here : m.last ≡ end_of now before = at ∙ ap (λ t. end_of t before) start in
    subst₂ (λ t r. (rounds during m).0 * second ≤ r * (second + (end_of t during - t))) here rate
      (stretch during m (subst (λ t. Ordered t during) (sym here) o')
        (subst (λ r. m.tokens ≤ r * second) (sym rate) cap))
