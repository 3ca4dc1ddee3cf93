-- ===== src/Relay/Pipe/Tests.antt =====
-- relay/relay.go: `Pipe` on concrete inputs.
use caochuan.Base.{◌≤◌, ◌≡◌, refl, ◌⊎◌, true, false, some, List, [], ◌∷◌, ◌++◌, arith, length}
use caochuan.Proto.{Bytes}
use caochuan.Relay.Pipe.{
  at_loop, writing, ended, Action, begin, stopped, gets, wrote, write_chunk, read_chunk, advance,
  Pipe, Direction, forward, backward, flow, has_ended, step, next_action, go_on, run, new_pipe,
}
use caochuan.Relay.Pipe.Copies.{unwritten, run-Copies}
use caochuan.Relay.Pipe.Ends.{run-ends}
use caochuan.Relay.Pipe.Idle.{copied_back, joined, idle_goes_on}

-- A request goes forth, and half of a second chunk, before the target closes.
abbrev talk : List (Direction × Action)
talk =
    (forward, begin)
    ∷ (forward, gets (1 ∷ 2 ∷ []))
    ∷ (forward, wrote 2)
    ∷ (forward, begin)
    ∷ (forward, gets (3 ∷ 4 ∷ []))
    ∷ (forward, wrote 1)
    ∷ []

abbrev talked : Pipe
talked = record {
  forth = record {
    phase = ended (4 ∷ []);
    is_cut = false;
    got = 1 ∷ 2 ∷ 3 ∷ 4 ∷ [];
    put = 1 ∷ 2 ∷ 3 ∷ [];
    counted = 3;
  };
  back = record { phase = at_loop; is_cut = true; got = []; put = []; counted = 0 };
}

talk_runs : run false talk new_pipe ≡ some talked
unfolding run step advance write_chunk read_chunk new_pipe
talk_runs = refl

run-Copies_example :
    ((flow forward talked).got ≡ (flow forward talked).put ++ unwritten (flow forward talked).phase)
    × ((flow forward talked).counted ≡ length (flow forward talked).put)
run-Copies_example = run-Copies false talk talked forward talk_runs

abbrev closed : Pipe
closed = record {
  forth = record talked.forth { is_cut = true };
  back = record { phase = ended []; is_cut = true; got = []; put = []; counted = 0 };
}

abbrev end_of_back : List (Direction × Action)
end_of_back = (backward, begin) ∷ (backward, stopped) ∷ []

back_ends : run false end_of_back talked ≡ some closed
unfolding run step advance
back_ends = refl

run-ends_example :
    let r = go_on false true backward 3 talked in
    (length end_of_back ≤ 3)
    × ((flow backward closed).got ≡ (flow backward talked).got)
    × ((flow backward r).got ≡ (flow backward talked).got)
    × ((has_ended (flow backward r).phase ≡ true)
        ⊎ (true ≡ false) × ((chunk : Bytes) × ((flow backward r).phase ≡ writing chunk)))
run-ends_example = run-ends true talk end_of_back talked closed forward talk_runs refl back_ends

-- A target that has closed, and a visitor that takes nothing: the write to it goes on waiting.
abbrev hanging : Pipe
hanging = record {
  forth = talked.forth;
  back = record { phase = writing (9 ∷ []); is_cut = true; got = 9 ∷ []; put = []; counted = 0 };
}

hangs : go_on false false backward 100 hanging ≡ hanging
unfolding go_on next_action
hangs = refl

idle_goes_on_example :
    (p q : Pipe) × (run true ((forward, begin) ∷ (forward, stopped) ∷ []) new_pipe ≡ some p)
    × (p.back.is_cut ≡ true)
    × (run true (copied_back ((9 ∷ []) ∷ (8 ∷ 7 ∷ []) ∷ [])) p ≡ some q)
    × (has_ended q.forth.phase ≡ true)
    × (q.back.put ≡ 9 ∷ 8 ∷ 7 ∷ [])
unfolding joined
idle_goes_on_example =
    idle_goes_on ((9 ∷ []) ∷ (8 ∷ 7 ∷ []) ∷ [])
      ((omega arith, omega arith), ((omega arith, omega arith), tt))
