-- ===== src/Relay/Pipe/Cuts.antt =====
-- relay/relay.go: without an idle limit, a direction of `Pipe` that has ended has cut the other one.
use caochuan.Base.{
  ◌≡◌, refl, subst, inl, inr, ◌||◌, Bool, true, false, Option, none, some, List, [], ◌∷◌, ltb, ◌==◌,
  Bool-cases, length,
}
use mathlib.Core.Option.{some-injective}
use caochuan.Relay.Pipe.{
  Phase, at_loop, reading, writing, Flow, Action, begin, stopped, gets, wrote, write_chunk,
  read_chunk, max_chunk, advance, Pipe, Direction, forward, backward, flow, has_ended, cut_if,
  with_flow, step, run, new_pipe,
}
use caochuan.Relay.Pipe.Copies.{Gives}

-- A direction that has ended has cut the other one, from the start on.
pub record Cuts (p : Pipe) : Type 0 where
  pub forth : has_ended p.forth.phase ≡ true → p.back.is_cut ≡ true
  pub back : has_ended p.back.phase ≡ true → p.forth.is_cut ≡ true

-- Without an idle limit a cut stays, and only a direction that has not ended takes steps.
record Keeps (f g : Flow) : Type 0 where
  was : has_ended f.phase ≡ false
  kept : f.is_cut ≡ true → g.is_cut ≡ true

advance-Keeps :
    (a : Action) (ph : Phase) (f : Flow) → f.phase ≡ ph → Gives (Keeps f) (advance false a ph f)
unfolding advance read_chunk write_chunk
advance-Keeps begin at_loop f e = record { was = rw e refl; kept = λ c. c }
advance-Keeps (gets chunk) reading f e =
    elim (Bool-cases (f.is_cut || length chunk == 0 || ltb max_chunk (length chunk))) [
      | inl p ↦ rw (p, read_chunk) tt
      | inr p ↦ rw (p, read_chunk) (record { was = rw e refl; kept = λ c. c })
    ]
advance-Keeps stopped reading f e = record { was = rw e refl; kept = λ c. c }
advance-Keeps (wrote k) (writing chunk) f e = elim (Bool-cases (ltb (length chunk) k)) [
  | inl p ↦ rw (p, write_chunk) tt
  | inr p ↦ rw (p, write_chunk) (record { was = rw e refl; kept = λ c. c })
]
advance-Keeps _ _ f e = tt

cut_if-true : (b : Bool) (f : Flow) → b ≡ true → (cut_if b f).is_cut ≡ true
cut_if-true b f e = rw e refl

cut_if-kept : (b : Bool) (f : Flow) → f.is_cut ≡ true → (cut_if b f).is_cut ≡ true
cut_if-kept true f e = refl
cut_if-kept false f e = e

moved-Cuts :
    (d : Direction) (p : Pipe) (o : Option Flow)
    → Cuts p
    → Gives (Keeps (flow d p)) o
    → Gives Cuts (elim o [ none ↦ none | some f ↦ some (with_flow d f p) ])
moved-Cuts d p none h v = tt
moved-Cuts forward p (some f) h v = record {
  forth = cut_if-true (has_ended f.phase) p.back;
  back = λ e. v.kept (h.back e);
}
moved-Cuts backward p (some f) h v = record {
  forth = λ e. v.kept (h.forth e);
  back = cut_if-true (has_ended f.phase) p.forth;
}

after :
    (xs : List (Direction × Action)) (o : Option Pipe) (q : Pipe)
    → ((t : Pipe) → Cuts t → run false xs t ≡ some q → Cuts q)
    → Gives Cuts o
    → elim o [ none ↦ none | some t ↦ run false xs t ] ≡ some q
    → Cuts q
after xs none q go v e = cc
after xs (some t) q go v e = go t v e

pub run-Cuts :
    (xs : List (Direction × Action)) (p q : Pipe) → Cuts p → run false xs p ≡ some q → Cuts q
unfolding run step
run-Cuts [] p q h e = subst Cuts (some-injective p q e) h
run-Cuts ((d, a) ∷ xs) p q h e =
    after xs (step false (d, a) p) q (λ t v f. run-Cuts xs t q v f)
      (moved-Cuts d p (advance false a (flow d p).phase (flow d p)) h
        (advance-Keeps a (flow d p).phase (flow d p) refl))
      e

pub new_pipe-Cuts : Cuts new_pipe
unfolding new_pipe
new_pipe-Cuts = record { forth = λ e. cc; back = λ e. cc }
