-- ===== src/Relay/Pipe/Rounds.antt =====
-- relay/relay.go: a direction of `Pipe` that is left to itself when its reads are cut.
use caochuan.Base.{
  ℕ, suc, ◌+◌, ◌≤◌, ◌≡◌, refl, sym, subst, ◌∙◌, ◌⊎◌, inl, inr, Bool, true, false, none, some, [],
  ◌++◌, arith, length, take, zero,
}
use caochuan.Proto.{Bytes}
use caochuan.Relay.Pipe.{
  next_action, go_on, Phase, at_loop, reading, writing, ended, Flow, Action, begin, stopped, wrote,
  write_chunk, advance, Pipe, Direction, flow, other, has_ended, with_flow, step,
}
use caochuan.Relay.Pipe.Copies.{Gives}
use caochuan.Relay.Pipe.Left.{left, OneEnded, Further, step-Further}

-- A direction whose reads are cut has ended, or writes to a destination that takes nothing, or goes on.
next_action-cases :
    (takes : Bool) (ph : Phase) (f : Flow)
    → f.is_cut ≡ true
    → (has_ended ph ≡ true)
      ⊎ (takes ≡ false) × ((chunk : Bytes) × (ph ≡ writing chunk))
      ⊎ ((a : Action) × (g : Flow) × (next_action takes ph f ≡ some a)
          × (advance false a ph f ≡ some g))
unfolding advance next_action write_chunk
next_action-cases takes (ended rest) f c = inl refl
next_action-cases takes at_loop f c =
    inr (inr (begin, record f { phase = reading; is_cut = f.is_cut }, refl, refl))
next_action-cases takes reading f c =
    inr (inr (stopped, record f { phase = ended [] }, rw (c, next_action) refl, refl))
next_action-cases false (writing chunk) f c = inr (inl (refl, (chunk, refl)))
next_action-cases true (writing chunk) f c =
    let g : Flow = record f {
      phase = at_loop;
      put = f.put ++ take (length chunk) chunk;
      counted = f.counted + length chunk;
    } in
    inr (inr (wrote (length chunk), g, refl, ground arith))

-- How a direction that is left to itself ends up.
abbrev pub Settled : Bool → Phase → Type 0
Settled takes ph =
    (has_ended ph ≡ true) ⊎ (takes ≡ false) × ((chunk : Bytes) × (ph ≡ writing chunk))

go_on-none :
    (takes : Bool) (d : Direction) (n : ℕ) (p : Pipe)
    → next_action takes (flow d p).phase (flow d p) ≡ none
    → go_on false takes d n p ≡ p
unfolding go_on
go_on-none takes d zero p e = refl
go_on-none takes d (suc n) p e = rw (e, go_on) refl

next_action-Settled :
    (takes : Bool) (ph : Phase) (f : Flow) → Settled takes ph → next_action takes ph f ≡ none
unfolding next_action
next_action-Settled takes (ended rest) f h = refl
next_action-Settled takes at_loop f (inl h) = cc
next_action-Settled takes at_loop f (inr (t, (chunk, h))) = cc
next_action-Settled takes reading f (inl h) = cc
next_action-Settled takes reading f (inr (t, (chunk, h))) = cc
next_action-Settled false (writing chunk) f h = refl
next_action-Settled true (writing chunk) f (inl h) = cc
next_action-Settled true (writing chunk) f (inr (t, (c, h))) = cc

-- The next step of the direction that has not ended.
moved :
    (d : Direction) (p : Pipe) (a : Action) (g : Flow)
    → OneEnded d p
    → advance false a (flow (other d) p).phase (flow (other d) p) ≡ some g
    → Further d p (with_flow (other d) g p)
unfolding step
moved d p a g h r =
    let e : step false (other d, a) p ≡ some (with_flow (other d) g p) = rw (r, step) refl in
    subst (Gives (Further d p)) e (step-Further d (other d, a) p h)

go_on-some :
    (takes : Bool) (d : Direction) (n : ℕ) (p : Pipe) (a : Action) (g : Flow)
    → next_action takes (flow d p).phase (flow d p) ≡ some a
    → advance false a (flow d p).phase (flow d p) ≡ some g
    → go_on false takes d (suc n) p ≡ go_on false takes d n (with_flow d g p)
unfolding go_on step
go_on-some takes d n p a g e r = rw (e, go_on) (rw (r, step) refl)

-- Over as many rounds as it has steps left.
pub record Rests (takes : Bool) (d : Direction) (p q : Pipe) : Type 0 where
  pub settled : Settled takes (flow (other d) q).phase
  pub same : (flow (other d) q).got ≡ (flow (other d) p).got

at_rest :
    (takes : Bool) (d : Direction) (n : ℕ) (p : Pipe)
    → Settled takes (flow (other d) p).phase
    → Rests takes d p (go_on false takes (other d) n p)
at_rest takes d n p h =
    let f = flow (other d) p in
    subst (Rests takes d p)
      (sym (go_on-none takes (other d) n p (next_action-Settled takes f.phase f h)))
      (record { settled = h; same = refl })

pub go_on-Rests :
    (takes : Bool) (d : Direction) (n : ℕ) (p : Pipe)
    → OneEnded d p
    → left (flow (other d) p).phase ≤ n
    → Rests takes d p (go_on false takes (other d) n p)
unfolding go_on
go_on-Rests takes d zero p h b =
    elim (next_action-cases takes (flow (other d) p).phase (flow (other d) p) h.cut) [
      | inl e ↦ record { settled = inl e; same = refl }
      | inr (inl e) ↦ record { settled = inr e; same = refl }
      | inr (inr (a, g, e, r)) ↦ absurd (let v = moved d p a g h r in omega (arith, v.nearer, b))
    ]
go_on-Rests takes d (suc n) p h b =
    elim (next_action-cases takes (flow (other d) p).phase (flow (other d) p) h.cut) [
      | inl e ↦ at_rest takes d (suc n) p (inl e)
      | inr (inl e) ↦ at_rest takes d (suc n) p (inr e)
      | inr (inr (a, g, e, r)) ↦
          let v = moved d p a g h r in
          let t = with_flow (other d) g p in
          let o = go_on-Rests takes d n t v.over (omega (arith, v.nearer, b)) in
          subst (Rests takes d p) (sym (go_on-some takes (other d) n p a g e r))
            (record { settled = o.settled; same = o.same ∙ v.same })
    ]
