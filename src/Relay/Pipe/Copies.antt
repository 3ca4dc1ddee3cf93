-- ===== src/Relay/Pipe/Copies.antt =====
-- relay/relay.go: what `Pipe` writes is what it has read, in order.
use caochuan.Base.{
  ℕ, ◌≡◌, refl, sym, ap, subst, ◌||◌, ◌∙◌, inl, inr, Bool, Option, none, some, List, [], ◌∷◌, ◌++◌,
  arith, ltb, ◌==◌, if◌then◌else◌, Bool-cases, length, take, drop, length-append, length-take,
  take-append-drop,
}
use mathlib.Core.List.{append-nil, append_assoc}
use mathlib.Core.Option.{some-injective}
use caochuan.Proto.{Bytes}
use caochuan.Relay.Pipe.{
  Phase, at_loop, reading, writing, ended, Flow, Action, begin, stopped, gets, wrote, write_chunk,
  read_chunk, max_chunk, advance, Pipe, Direction, forward, backward, flow, has_ended, cut_if,
  with_flow, step, run, new_pipe,
}

-- What has been read and not written.
abbrev pub unwritten : Phase → Bytes
unwritten at_loop = []
unwritten reading = []
unwritten (writing chunk) = chunk
unwritten (ended rest) = rest

pub record Copies (f : Flow) : Type 0 where
  pub same : f.got ≡ f.put ++ unwritten f.phase
  pub counts : f.counted ≡ length f.put

-- What holds of a result, if there is one.
abbrev pub Gives : {A : Type 0} → (A → Type 0) → Option A → Type 0
Gives P none = Unit
Gives P (some x) = P x

drop_all : (xs : Bytes) → drop (length xs) xs ≡ []
drop_all [] = refl
drop_all (x ∷ xs) = drop_all xs

unwritten-left :
    (k : ℕ) (chunk : Bytes)
    → unwritten (if k == length chunk then at_loop else ended (drop k chunk)) ≡ drop k chunk
unwritten-left k chunk = elim (Bool-cases (k == length chunk)) [
  | inr e ↦ rw e refl
  | inl e ↦
      let p : k ≡ length chunk = ground (arith, e) in
      rw e (sym (drop_all chunk) ∙ ap (λ j. drop j chunk) (sym p))
]

write_chunk-Copies :
    (k : ℕ) (chunk : Bytes) (f : Flow)
    → f.phase ≡ writing chunk
    → Copies f
    → Gives Copies (write_chunk k chunk f)
unfolding write_chunk
write_chunk-Copies k chunk f e v = elim (Bool-cases (ltb (length chunk) k)) [
  | inl p ↦ rw (p, write_chunk) tt
  | inr p ↦
      let was : f.got ≡ f.put ++ chunk = v.same ∙ ap (λ x. f.put ++ unwritten x) e in
      rw (p, write_chunk)
        (record {
          same =
              was
              ∙ ap (λ x. f.put ++ x) (sym (take-append-drop k chunk))
              ∙ sym (append_assoc f.put (take k chunk) (drop k chunk))
              ∙ ap (λ x. (f.put ++ take k chunk) ++ x) (sym (unwritten-left k chunk));
          counts =
              ground (arith, v.counts, p, length-append f.put (take k chunk), length-take k chunk);
        })
]

read_chunk-Copies :
    (chunk : Bytes) (f : Flow) → f.phase ≡ reading → Copies f → Gives Copies (read_chunk chunk f)
unfolding read_chunk
read_chunk-Copies chunk f e v =
    elim (Bool-cases (f.is_cut || length chunk == 0 || ltb max_chunk (length chunk))) [
      | inl p ↦ rw (p, read_chunk) tt
      | inr p ↦
          rw (p, read_chunk)
            (record {
              same =
                  ap (λ x. x ++ chunk)
                    (v.same ∙ ap (λ x. f.put ++ unwritten x) e ∙ append-nil f.put);
              counts = v.counts;
            })
    ]

advance-Copies :
    (idle : Bool) (a : Action) (ph : Phase) (f : Flow)
    → f.phase ≡ ph
    → Copies f
    → Gives Copies (advance idle a ph f)
unfolding advance
advance-Copies idle begin at_loop f e v = record {
  same = v.same ∙ ap (λ x. f.put ++ unwritten x) e;
  counts = v.counts;
}
advance-Copies idle (gets chunk) reading f e v = read_chunk-Copies chunk f e v
advance-Copies idle stopped reading f e v = record {
  same = v.same ∙ ap (λ x. f.put ++ unwritten x) e;
  counts = v.counts;
}
advance-Copies idle (wrote k) (writing chunk) f e v = write_chunk-Copies k chunk f e v
advance-Copies idle _ _ f e v = tt

abbrev BothCopy : Pipe → Type 0
BothCopy p = Copies p.forth × Copies p.back

cut_if-Copies : (b : Bool) (f : Flow) → Copies f → Copies (cut_if b f)
cut_if-Copies b f v = record { same = v.same; counts = v.counts }

with_flow-BothCopy :
    (d : Direction) (f : Flow) (p : Pipe) → Copies f → BothCopy p → BothCopy (with_flow d f p)
with_flow-BothCopy forward f p v h = (v, cut_if-Copies (has_ended f.phase) p.back h.1)
with_flow-BothCopy backward f p v h = (cut_if-Copies (has_ended f.phase) p.forth h.0, v)

flow-Copies : (d : Direction) (p : Pipe) → BothCopy p → Copies (flow d p)
flow-Copies forward p h = h.0
flow-Copies backward p h = h.1

moved-BothCopy :
    (d : Direction) (p : Pipe) (o : Option Flow)
    → BothCopy p
    → Gives Copies o
    → Gives BothCopy (elim o [ none ↦ none | some f ↦ some (with_flow d f p) ])
moved-BothCopy d p none h v = tt
moved-BothCopy d p (some f) h v = with_flow-BothCopy d f p v h

step-BothCopy :
    (idle : Bool) (x : Direction × Action) (p : Pipe) → BothCopy p → Gives BothCopy (step idle x p)
unfolding step
step-BothCopy idle (d, a) p h =
    moved-BothCopy d p (advance idle a (flow d p).phase (flow d p)) h
      (advance-Copies idle a (flow d p).phase (flow d p) refl (flow-Copies d p h))

-- The rest of a run, behind its first step.
after :
    (idle : Bool) (xs : List (Direction × Action)) (o : Option Pipe) (q : Pipe)
    → ((t : Pipe) → BothCopy t → run idle xs t ≡ some q → BothCopy q)
    → Gives BothCopy o
    → elim o [ none ↦ none | some t ↦ run idle xs t ] ≡ some q
    → BothCopy q
after idle xs none q go v e = cc
after idle xs (some t) q go v e = go t v e

run-BothCopy :
    (idle : Bool) (xs : List (Direction × Action)) (p q : Pipe)
    → BothCopy p
    → run idle xs p ≡ some q
    → BothCopy q
unfolding run
run-BothCopy idle [] p q h e = subst BothCopy (some-injective p q e) h
run-BothCopy idle (x ∷ xs) p q h e =
    after idle xs (step idle x p) q (λ t v f. run-BothCopy idle xs t q v f)
      (step-BothCopy idle x p h) e

new_pipe-BothCopy : BothCopy new_pipe
unfolding new_pipe
new_pipe-BothCopy = (record { same = refl; counts = refl }, record { same = refl; counts = refl })

-- Whatever both ends, the limits and the deadlines do: in each direction, the bytes that have been written
-- and then those of the chunk in hand (the rest of it, if its write has failed) are the bytes that have
-- been read, in order, and the counter is the number of bytes written. No chunk is in hand between two
-- rounds, or when the direction has ended with a failed read.
pub run-Copies :
    (idle : Bool) (xs : List (Direction × Action)) (q : Pipe) (d : Direction)
    → run idle xs new_pipe ≡ some q
    → ((flow d q).got ≡ (flow d q).put ++ unwritten (flow d q).phase)
      × ((flow d q).counted ≡ length (flow d q).put)
run-Copies idle xs q d e =
    let v = flow-Copies d q (run-BothCopy idle xs new_pipe q new_pipe-BothCopy e) in
    (v.same, v.counts)
