-- ===== src/Relay/Pipe/Ends.antt =====
-- relay/relay.go: when a direction of `Pipe` ends, what becomes of the other one.
use caochuan.Base.{
  ℕ, suc, ◌+◌, ◌≤◌, ◌≡◌, refl, subst, ◌∙◌, ◌⊎◌, Bool, true, false, Option, none, some, List, [],
  ◌∷◌, arith, length,
}
use mathlib.Core.Option.{some-injective}
use caochuan.Proto.{Bytes}
use caochuan.Relay.Pipe.{
  go_on, Phase, at_loop, reading, writing, ended, Action, Pipe, Direction, flow, other, has_ended,
  step, run, new_pipe,
}
use caochuan.Relay.Pipe.Copies.{Gives}
use caochuan.Relay.Pipe.Cuts.{run-Cuts, new_pipe-Cuts}
use caochuan.Relay.Pipe.Left.{left, OneEnded, OneEnded-of, Further, step-Further}
use caochuan.Relay.Pipe.Rounds.{go_on-Rests}

-- After a run from there.
record Over (d : Direction) (n : ℕ) (p q : Pipe) : Type 0 where
  few : n + left (flow (other d) q).phase ≤ left (flow (other d) p).phase
  same : (flow (other d) q).got ≡ (flow (other d) p).got

after :
    (d : Direction) (xs : List (Direction × Action)) (p : Pipe) (o : Option Pipe) (q : Pipe)
    → ((t : Pipe) → OneEnded d t → run false xs t ≡ some q → Over d (length xs) t q)
    → Gives (Further d p) o
    → elim o [ none ↦ none | some t ↦ run false xs t ] ≡ some q
    → Over d (suc (length xs)) p q
after d xs p none q go v e = cc
after d xs p (some t) q go v e =
    let o = go t v.over e in record { few = omega (arith, v.nearer, o.few); same = o.same ∙ v.same }

run-Over :
    (d : Direction) (xs : List (Direction × Action)) (p q : Pipe)
    → OneEnded d p
    → run false xs p ≡ some q
    → Over d (length xs) p q
unfolding run
run-Over d [] p q h e =
    let f = some-injective p q e in subst (Over d 0 p) f (record { few = omega arith; same = refl })
run-Over d (x ∷ xs) p q h e =
    after d xs p (step false x p) q (λ t v f. run-Over d xs t q v f) (step-Further d x p h) e

left-bound : (ph : Phase) → left ph ≤ 3
left-bound at_loop = omega arith
left-bound reading = omega arith
left-bound (writing chunk) = omega arith
left-bound (ended rest) = omega arith

-- Without an idle limit: once one direction has ended, the other one reads no more, and takes at most three
-- more steps, in any history. Left to itself it ends within three rounds if its destination takes what is
-- written; if not, it ends, or is left in a write, which no deadline ends.
pub run-ends :
    (takes : Bool) (xs ys : List (Direction × Action)) (p q : Pipe) (d : Direction)
    → run false xs new_pipe ≡ some p
    → has_ended (flow d p).phase ≡ true
    → run false ys p ≡ some q
    → let r = go_on false takes (other d) 3 p in
      (length ys ≤ 3)
      × ((flow (other d) q).got ≡ (flow (other d) p).got)
      × ((flow (other d) r).got ≡ (flow (other d) p).got)
      × ((has_ended (flow (other d) r).phase ≡ true)
          ⊎ (takes ≡ false) × ((chunk : Bytes) × ((flow (other d) r).phase ≡ writing chunk)))
run-ends takes xs ys p q d e f g =
    let h = OneEnded-of d p (run-Cuts xs new_pipe p new_pipe-Cuts e) f in
    let o = run-Over d ys p q h g in
    let b = left-bound (flow (other d) p).phase in
    let r = go_on-Rests takes d 3 p h b in (omega (arith, o.few, b), o.same, r.same, r.settled)
