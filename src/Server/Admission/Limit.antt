-- ===== src/Server/Admission/Limit.antt =====
-- server/forward.go: the limit of connections under every interleaving.
use caochuan.Base.{
  ℕ, zero, suc, ◌+◌, ◌≤◌, ◌≡◌, refl, ◌⊎◌, inl, inr, false, some, List, [], ◌∷◌, arith, Bool-cases,
  Option-cases, get_elem?, set,
}
use caochuan.Base.Int.{ℤ, pos, ◌≤ℤ◌}
use caochuan.Server.Admission.{
  Phase, fresh, counted, refused, serving, gone, is_over, step, Visits, turn, run, waiting, weight,
  served, total,
}

total-set :
    (w : Phase → ℕ) (ps : List Phase) (i : ℕ) (p q : Phase)
    → get_elem? ps i ≡ some p
    → total w (set ps i q) + w p ≡ total w ps + w q
unfolding total
total-set w [] i p q e = cc
total-set w (r ∷ ps) zero p q e = ground (arith, e)
total-set w (r ∷ ps) (suc i) p q e = ground (arith, total-set w ps i p q e)

total-served_le : (ps : List Phase) → total served ps ≤ total weight ps
unfolding total
total-served_le [] = omega arith
total-served_le (p ∷ ps) =
    elim p as (λ p. served p + total served ps ≤ weight p + total weight ps) [
      | fresh ↦ omega (arith, total-served_le ps)
      | counted ↦ omega (arith, total-served_le ps)
      | refused ↦ omega (arith, total-served_le ps)
      | serving ↦ omega (arith, total-served_le ps)
      | gone ↦ omega (arith, total-served_le ps)
    ]

-- `others` are connections that other listeners have counted under the rule.
record Inv (max : ℤ) (others : ℕ) (s : Visits) : Type 0 where
  counter : s.conns ≡ others + total weight s.phases
  limit : pos 1 ≤ℤ max → (total served s.phases ≡ 0) ⊎ (pos (others + total served s.phases) ≤ℤ max)

step-Inv :
    (max : ℤ) (others i : ℕ) (s : Visits) (p : Phase)
    → get_elem? s.phases i ≡ some p
    → Inv max others s
    → let (conns, p') = step max s.conns p in
      Inv max others (record { conns = conns; phases = set s.phases i p' })
unfolding step is_over
step-Inv max others i s fresh e v = record {
  counter = omega (arith, v.counter, total-set weight s.phases i fresh counted e);
  limit = λ h. ground (arith, v.limit h, total-set served s.phases i fresh counted e);
}
step-Inv max others i s counted e v = elim (Bool-cases (is_over max s.conns)) [
  | inl o ↦ rw o (record {
    counter = omega (arith, v.counter, total-set weight s.phases i counted refused e);
    limit = λ h. ground (arith, v.limit h, total-set served s.phases i counted refused e);
  })
  | inr o ↦ rw o (record {
    counter = omega (arith, v.counter, total-set weight s.phases i counted serving e);
    limit = λ h. inr (admits o h);
  })
]
  where
    admits :
        is_over max s.conns ≡ false
        → pos 1 ≤ℤ max
        → pos (others + total served (set s.phases i serving)) ≤ℤ max
    admits o h = ground (
      arith,
      o,
      h,
      v.counter,
      total-set served s.phases i counted serving e,
      total-set weight s.phases i counted serving e,
      total-served_le (set s.phases i serving),
    )
step-Inv max others i s refused e v = record {
  counter = omega (arith, v.counter, total-set weight s.phases i refused gone e);
  limit = λ h. ground (arith, v.limit h, total-set served s.phases i refused gone e);
}
step-Inv max others i s serving e v = record {
  counter = omega (arith, v.counter, total-set weight s.phases i serving gone e);
  limit = λ h. ground (arith, v.limit h, total-set served s.phases i serving gone e);
}
step-Inv max others i s gone e v = record {
  counter = omega (arith, v.counter, total-set weight s.phases i gone gone e);
  limit = λ h. ground (arith, v.limit h, total-set served s.phases i gone gone e);
}

turn-Inv : (max : ℤ) (others i : ℕ) (s : Visits) → Inv max others s → Inv max others (turn max i s)
unfolding turn
turn-Inv max others i s v = elim (Option-cases (get_elem? s.phases i)) [
  | inl e ↦ rw (e, turn) v
  | inr (p, e) ↦ rw (e, turn) (step-Inv max others i s p e v)
]

run-Inv :
    (max : ℤ) (others : ℕ) (is : List ℕ) (s : Visits)
    → Inv max others s
    → Inv max others (run max is s)
unfolding run
run-Inv max others [] s v = v
run-Inv max others (i ∷ is) s v = run-Inv max others is (turn max i s) (turn-Inv max others i s v)

total-waiting : (w : Phase → ℕ) (n : ℕ) → w fresh ≡ 0 → total w (waiting n) ≡ 0
unfolding total waiting
total-waiting w zero h = refl
total-waiting w (suc n) h = omega (arith, total-waiting w n h)

-- Under every schedule of any number of visitors, when other listeners have counted some connections
-- under the rule: the counter is theirs and the visitors that have been counted and have not gone; and
-- where the rule has a limit, the visitors served, with those connections, never exceed it, and if
-- those alone exceed it nobody is served.
pub served-run :
    (max : ℤ) (others n : ℕ) (is : List ℕ)
    → pos 1 ≤ℤ max
    → let s = run max is (record { conns = others; phases = waiting n }) in
      (s.conns ≡ others + total weight s.phases)
      × ((total served s.phases ≡ 0) ⊎ (pos (others + total served s.phases) ≤ℤ max))
served-run max others n is h =
    let v =
      run-Inv max others is (record { conns = others; phases = waiting n })
        (record {
          counter = omega (arith, total-waiting weight n refl);
          limit = λ _. inl (total-waiting served n refl);
        }) in
    (v.counter, v.limit h)
