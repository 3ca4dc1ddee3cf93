-- ===== src/Relay/Pipe/Idle.antt =====
-- relay/relay.go: with an idle limit, a direction of `Pipe` may go on after the other one has ended.
use caochuan.Base.{
  ◌+◌, ◌≤◌, ◌<◌, ◌≡◌, refl, sym, ap, ◌∙◌, true, false, some, List, [], ◌∷◌, ◌++◌, arith, length,
  take, take-append, All,
}
use mathlib.Core.List.{append-nil, append_assoc}
use caochuan.Proto.{Bytes}
use caochuan.Relay.Pipe.{
  at_loop, ended, new_flow, Flow, Action, begin, stopped, gets, wrote, write_chunk, read_chunk,
  max_chunk, advance, Pipe, Direction, forward, backward, has_ended, step, run, new_pipe,
}

take_all : (xs : Bytes) → take (length xs) xs ≡ xs
take_all xs = ap (take (length xs)) (sym (append-nil xs)) ∙ take-append xs []

-- What one read can give.
abbrev pub Fits : Bytes → Type 0
Fits chunk = (0 < length chunk) × (length chunk ≤ max_chunk)

unfoldable pub joined : List Bytes → Bytes
joined [] = []
joined (c ∷ cs) = c ++ joined cs

-- A history in which the direction back copies chunks.
pub copied_back : List Bytes → List (Direction × Action)
copied_back [] = []
copied_back (c ∷ cs) =
    (backward, begin) ∷ (backward, gets c) ∷ (backward, wrote (length c)) ∷ copied_back cs

-- The direction back has copied a chunk.
abbrev with_chunk : Bytes → Flow → Flow
with_chunk c f = record {
  phase = at_loop;
  is_cut = false;
  got = f.got ++ c;
  put = f.put ++ c;
  counted = f.counted + length c;
}

round :
    (c : Bytes) (rest : List (Direction × Action)) (p : Pipe)
    → Fits c
    → p.back.phase ≡ at_loop
    → run true ((backward, begin) ∷ (backward, gets c) ∷ (backward, wrote (length c)) ∷ rest) p
      ≡ run true rest (record { forth = p.forth; back = with_chunk c p.back })
unfolding run step advance write_chunk read_chunk
round c rest p (small, large) e = ground (arith, e, small, large, take_all c)

-- The direction has copied some bytes, and the other one is as it was.
record Copied (bytes : Bytes) (p q : Pipe) : Type 0 where
  other : q.forth ≡ p.forth
  put : q.back.put ≡ p.back.put ++ bytes

run-copied_back :
    (chunks : List Bytes) (p : Pipe)
    → All Fits chunks
    → p.back.phase ≡ at_loop
    → (q : Pipe) × (run true (copied_back chunks) p ≡ some q) × Copied (joined chunks) p q
unfolding run copied_back joined
run-copied_back [] p h e = (p, refl, record { other = refl; put = sym (append-nil p.back.put) })
run-copied_back (c ∷ cs) p h e =
    let t : Pipe = record { forth = p.forth; back = with_chunk c p.back } in
    let (q, r, v) = run-copied_back cs t h.1 refl in
    (
      q,
      round c (copied_back cs) p h.0 e ∙ r,
      record { other = v.other; put = v.put ∙ append_assoc p.back.put c (joined cs) },
    )

-- With an idle limit: a direction may end, which cuts the other one, and the other one may still read and
-- write any chunks whatever, since each of its reads sets the deadline anew.
pub idle_goes_on :
    (chunks : List Bytes)
    → All Fits chunks
    → (p q : Pipe) × (run true ((forward, begin) ∷ (forward, stopped) ∷ []) new_pipe ≡ some p)
      × (p.back.is_cut ≡ true)
      × (run true (copied_back chunks) p ≡ some q)
      × (has_ended q.forth.phase ≡ true)
      × (q.back.put ≡ joined chunks)
unfolding run step advance new_pipe
idle_goes_on chunks h =
    let over : Flow = record {
      phase = ended [];
      is_cut = false;
      got = [];
      put = [];
      counted = 0;
    } in
    let p : Pipe = record { forth = over; back = record new_flow { is_cut = true } } in
    let (q, r, v) = run-copied_back chunks p h refl in
    (p, q, refl, refl, r, ap (λ (f : Flow). has_ended f.phase) v.other, v.put)
