-- ===== src/Relay/Pipe.antt =====
-- relay/relay.go: `Pipe`, which copies between two connections in both directions.
--
-- Each direction is an `io.Copy` over the `reader` and the `writer` of the file: it starts a read (which
-- renews the deadline of its source where there is an idle limit), gets a chunk or fails, and writes the
-- chunk; the limit on the rate delays writes only. When a direction ends, `SetDeadline` on its destination
-- cuts the reads of the other one, until a deadline is set anew. A step of either direction is one entry
-- of a history; `none` says that a step cannot happen.
pub mod Copies
pub mod Cuts
pub mod Left
pub mod Rounds
pub mod Ends
pub mod Idle
mod Tests
use caochuan.Base.{
  ℕ, zero, suc, ◌+◌, ◌*◌, Bool, true, false, ◌||◌, Option, none, some, List, [], ◌∷◌, ◌++◌, ltb,
  ◌==◌, if◌then◌else◌, length, take, drop,
}
use caochuan.Proto.{Bytes}

-- The largest read of `reader`.
abbrev pub max_chunk : ℕ
max_chunk = 16 * 1024

-- Where a direction stands; what it has read and not written goes with it.
pub data Phase : Type 0 where
  at_loop reading : Phase
  writing : Bytes → Phase
  ended : Bytes → Phase

-- A direction: whether the deadline of its source has passed, what it has read, what it has written, and
-- its counter.
pub record Flow : Type 0 where
  pub phase : Phase
  pub is_cut : Bool
  pub got : Bytes
  pub put : Bytes
  pub counted : ℕ

-- A step of a direction: `wrote` has the number of bytes that the write takes.
pub data Action : Type 0 where
  begin stopped : Action
  gets : Bytes → Action
  wrote : ℕ → Action

-- `writer.Write`, with what the loop of `io.Copy` makes of it.
unfoldable pub write_chunk : ℕ → Bytes → Flow → Option Flow
write_chunk k chunk f =
    if ltb (length chunk) k
    then none
    else some (record f {
      phase = if k == length chunk then at_loop else ended (drop k chunk);
      put = f.put ++ take k chunk;
      counted = f.counted + k;
    })

-- `reader.Read`, of a chunk that is not empty.
unfoldable pub read_chunk : Bytes → Flow → Option Flow
read_chunk chunk f =
    if f.is_cut || length chunk == 0 || ltb max_chunk (length chunk)
    then none
    else some (record f { phase = writing chunk; got = f.got ++ chunk })

-- A step as it happens: a read or a write may wait before it, a write without any deadline.
unfoldable pub advance : Bool → Action → Phase → Flow → Option Flow
advance idle begin at_loop f =
    some (record f { phase = reading; is_cut = if idle then false else f.is_cut })
advance idle (gets chunk) reading f = read_chunk chunk f
advance idle stopped reading f = some (record f { phase = ended [] })
advance idle (wrote k) (writing chunk) f = write_chunk k chunk f
advance idle _ _ f = none

-- The two directions.
pub record Pipe : Type 0 where
  pub forth : Flow
  pub back : Flow

pub data Direction : Type 0 where
  forward backward : Direction

abbrev pub flow : Direction → Pipe → Flow
flow forward p = p.forth
flow backward p = p.back

abbrev pub other : Direction → Direction
other forward = backward
other backward = forward

abbrev pub has_ended : Phase → Bool
has_ended (ended _) = true
has_ended _ = false

-- `SetDeadline(time.Now())`, where the other direction has ended.
abbrev pub cut_if : Bool → Flow → Flow
cut_if b f = record f { is_cut = if b then true else f.is_cut }

-- The pipe with a flow in its place.
abbrev pub with_flow : Direction → Flow → Pipe → Pipe
with_flow forward f p = record { forth = f; back = cut_if (has_ended f.phase) p.back }
with_flow backward f p = record { forth = cut_if (has_ended f.phase) p.forth; back = f }

-- What a direction does without waiting for its source: `takes` says whether its destination takes bytes.
-- A read waits unless it is cut; a write waits while the destination takes nothing.
unfoldable pub next_action : Bool → Phase → Flow → Option Action
next_action takes at_loop f = some begin
next_action takes reading f = if f.is_cut then some stopped else none
next_action takes (writing chunk) f = if takes then some (wrote (length chunk)) else none
next_action takes (ended rest) f = none

unfoldable pub step : Bool → Direction × Action → Pipe → Option Pipe
step idle (d, a) p = elim (advance idle a (flow d p).phase (flow d p)) [
  | none ↦ none
  | some f ↦ some (with_flow d f p)
]

-- A direction left to itself, for a number of rounds.
unfoldable pub go_on : Bool → Bool → Direction → ℕ → Pipe → Pipe
go_on idle takes d zero p = p
go_on idle takes d (suc n) p = elim (next_action takes (flow d p).phase (flow d p)) [
  | none ↦ p
  | some a ↦ elim (step idle (d, a) p) [ none ↦ p | some q ↦ go_on idle takes d n q ]
]

unfoldable pub run : Bool → List (Direction × Action) → Pipe → Option Pipe
run idle [] p = some p
run idle (x ∷ xs) p = elim (step idle x p) [ none ↦ none | some q ↦ run idle xs q ]

abbrev pub new_flow : Flow
new_flow = record { phase = at_loop; is_cut = false; got = []; put = []; counted = 0 }

unfoldable pub new_pipe : Pipe
new_pipe = record { forth = new_flow; back = new_flow }
