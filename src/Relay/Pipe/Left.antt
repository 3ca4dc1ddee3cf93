-- ===== src/Relay/Pipe/Left.antt =====
-- relay/relay.go: the steps that a direction of `Pipe` can still take when its reads are cut.
use caochuan.Base.{
  ℕ, ◌+◌, ◌≤◌, ◌≡◌, refl, inl, inr, Bool, true, false, Option, none, some, arith, ltb, ◌==◌,
  Bool-cases, length,
}
use caochuan.Proto.{Bytes}
use caochuan.Relay.Pipe.{
  Phase, at_loop, reading, writing, ended, Flow, Action, begin, stopped, gets, wrote, write_chunk,
  read_chunk, advance, Pipe, Direction, forward, backward, flow, other, has_ended, with_flow, step,
}
use caochuan.Relay.Pipe.Copies.{Gives}
use caochuan.Relay.Pipe.Cuts.{Cuts}

-- How many steps a direction that reads no more can still take.
abbrev pub left : Phase → ℕ
left (writing chunk) = 3
left at_loop = 2
left reading = 1
left (ended rest) = 0

-- A direction that is cut gets one step closer to its end.
record Closer (f g : Flow) : Type 0 where
  cut : g.is_cut ≡ true
  nearer : left g.phase + 1 ≤ left f.phase
  same : g.got ≡ f.got

write_chunk-Closer :
    (k : ℕ) (chunk : Bytes) (f : Flow)
    → f.phase ≡ writing chunk
    → f.is_cut ≡ true
    → Gives (Closer f) (write_chunk k chunk f)
unfolding write_chunk
write_chunk-Closer k chunk f e c = elim (Bool-cases (ltb (length chunk) k)) [
  | inl p ↦ rw (p, write_chunk) tt
  | inr p ↦ elim (Bool-cases (k == length chunk)) [
    | inl r ↦
        rw (p, write_chunk) (record { cut = c; nearer = rw (e, r) (omega arith); same = refl })
    | inr r ↦
        rw (p, write_chunk) (record { cut = c; nearer = rw (e, r) (omega arith); same = refl })
  ]
]

advance-Closer :
    (a : Action) (ph : Phase) (f : Flow)
    → f.phase ≡ ph
    → f.is_cut ≡ true
    → Gives (Closer f) (advance false a ph f)
unfolding advance read_chunk
advance-Closer begin at_loop f e c = record { cut = c; nearer = rw e (omega arith); same = refl }
advance-Closer (gets chunk) reading f e c = rw c tt
advance-Closer stopped reading f e c = record { cut = c; nearer = rw e (omega arith); same = refl }
advance-Closer (wrote k) (writing chunk) f e c = write_chunk-Closer k chunk f e c
advance-Closer _ _ f e c = tt

-- One direction has ended, and the other one is cut.
pub record OneEnded (d : Direction) (p : Pipe) : Type 0 where
  pub done : has_ended (flow d p).phase ≡ true
  pub cut : (flow (other d) p).is_cut ≡ true

ended-none :
    (idle : Bool) (a : Action) (ph : Phase) (f : Flow)
    → has_ended ph ≡ true
    → advance idle a ph f ≡ none
unfolding advance
ended-none idle begin (ended rest) f e = refl
ended-none idle stopped (ended rest) f e = refl
ended-none idle (gets chunk) (ended rest) f e = refl
ended-none idle (wrote k) (ended rest) f e = refl
ended-none idle a at_loop f e = cc
ended-none idle a reading f e = cc
ended-none idle a (writing chunk) f e = cc

-- One step further: nothing more is read.
pub record Further (d : Direction) (p t : Pipe) : Type 0 where
  pub over : OneEnded d t
  pub nearer : left (flow (other d) t).phase + 1 ≤ left (flow (other d) p).phase
  pub same : (flow (other d) t).got ≡ (flow (other d) p).got

none-Further :
    (d c : Direction) (p : Pipe) (o : Option Flow)
    → o ≡ none
    → Gives (Further d p) (elim o [ none ↦ none | some f ↦ some (with_flow c f p) ])
none-Further d c p none e = tt
none-Further d c p (some f) e = cc

some-Further :
    (d : Direction) (p : Pipe) (o : Option Flow)
    → OneEnded d p
    → Gives (Closer (flow (other d) p)) o
    → Gives (Further d p) (elim o [ none ↦ none | some f ↦ some (with_flow (other d) f p) ])
some-Further d p none h v = tt
some-Further forward p (some f) h v = record {
  over = record { done = h.done; cut = v.cut };
  nearer = v.nearer;
  same = v.same;
}
some-Further backward p (some f) h v = record {
  over = record { done = h.done; cut = v.cut };
  nearer = v.nearer;
  same = v.same;
}

pub step-Further :
    (d : Direction) (x : Direction × Action) (p : Pipe)
    → OneEnded d p
    → Gives (Further d p) (step false x p)
unfolding step
step-Further forward (forward, a) p h =
    none-Further forward forward p (advance false a p.forth.phase p.forth)
      (ended-none false a p.forth.phase p.forth h.done)
step-Further backward (backward, a) p h =
    none-Further backward backward p (advance false a p.back.phase p.back)
      (ended-none false a p.back.phase p.back h.done)
step-Further forward (backward, a) p h =
    some-Further forward p (advance false a p.back.phase p.back) h
      (advance-Closer a p.back.phase p.back refl h.cut)
step-Further backward (forward, a) p h =
    some-Further backward p (advance false a p.forth.phase p.forth) h
      (advance-Closer a p.forth.phase p.forth refl h.cut)

pub OneEnded-of :
    (d : Direction) (p : Pipe) → Cuts p → has_ended (flow d p).phase ≡ true → OneEnded d p
OneEnded-of forward p h e = record { done = e; cut = h.forth e }
OneEnded-of backward p h e = record { done = e; cut = h.back e }
