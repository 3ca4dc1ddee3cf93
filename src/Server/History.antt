-- ===== src/Server/History.antt =====
-- server/history.go: the samples of a rule's traffic, taken every 30 seconds.
--
-- The counters of bytes of all rules at one time are a dictionary, as in the map `s.stats`.
use caochuan.Base.{
  ℕ, String, ◌≡◌, refl, sym, ap, ◌∙◌, Option, none, some, List, [], ◌∷◌, ◌++◌, arith,
  String-discrete, All,
}
use mathlib.Core.List.{append-nil, append_assoc}
use caochuan.Base.Dict.{Dict, lookup, insert, Distinct, lookup-insert}
use caochuan.Base.Recent.{push, push_all, last, push_all-last}

abbrev pub hist_max : ℕ
hist_max = 2880

-- `histPoint`
pub record HistPoint : Type 0 where
  pub t : ℕ
  pub bytes_in : ℕ
  pub bytes_out : ℕ

-- `Stat`
pub record Stat : Type 0 where
  pub bytes_in : ℕ
  pub bytes_out : ℕ
  pub conns : ℕ
  pub conns_total : ℕ

abbrev pub Histories : Type 0
Histories = Dict (List HistPoint)

-- The history of a rule, empty where there is none yet.
abbrev pub points_of : Option (List HistPoint) → List HistPoint
points_of none = []
points_of (some pts) = pts

abbrev pub point_at : ℕ → Stat → HistPoint
point_at now st = record { t = now; bytes_in = st.bytes_in; bytes_out = st.bytes_out }

-- `GetHistory`
abbrev pub get_history : String → Histories → List HistPoint
get_history id hist = points_of (lookup id hist)

-- `sampleHistory`, over the rules that have counters.
unfoldable pub sample_history : ℕ → Dict Stat → Histories → Histories
sample_history now [] hist = hist
sample_history now ((id, st) ∷ stats) hist =
    sample_history now stats
      (insert id (push hist_max (get_history id hist) (point_at now st)) hist)

-- The samples of a history of the server, one after the other.
unfoldable pub sample_all : List (ℕ × Dict Stat) → Histories → Histories
sample_all [] hist = hist
sample_all ((now, stats) ∷ rounds) hist = sample_all rounds (sample_history now stats hist)

-- What the rounds see of one rule.
abbrev pub seen_now : ℕ → Option Stat → List HistPoint
seen_now now none = []
seen_now now (some st) = point_at now st ∷ []

unfoldable pub seen : String → List (ℕ × Dict Stat) → List HistPoint
seen id [] = []
seen id ((now, stats) ∷ rounds) = seen_now now (lookup id stats) ++ seen id rounds

-- A round leaves the history of a rule without counters alone.
sample_history-absent :
    (id : String) (now : ℕ) (stats : Dict Stat) (hist : Histories)
    → lookup id stats ≡ none
    → lookup id (sample_history now stats hist) ≡ lookup id hist
unfolding sample_history
sample_history-absent id now [] hist e = refl
sample_history-absent id now ((j, st) ∷ stats) hist e =
    let pts = push hist_max (get_history j hist) (point_at now st) in
    ground
      (arith, sample_history-absent id now stats (insert j pts hist), lookup-insert j id pts hist)

sample_history-pushes :
    (id : String) (now : ℕ) (stats : Dict Stat) (hist : Histories)
    → Distinct stats
    → get_history id (sample_history now stats hist)
      ≡ push_all hist_max (get_history id hist) (seen_now now (lookup id stats))
unfolding sample_history
sample_history-pushes id now [] hist d = refl
sample_history-pushes id now ((j, st) ∷ stats) hist (h, d) =
    let pts = push hist_max (get_history j hist) (point_at now st) in
    elim (String-discrete j id) [
      | yes e ↦ ground (
        arith,
        e,
        sample_history-absent j now stats (insert j pts hist) h,
        lookup-insert j id pts hist,
      )
      | no n ↦ ground (
        arith,
        sample_history-pushes id now stats (insert j pts hist) d,
        lookup-insert j id pts hist,
      )
    ]

sampled :
    (id : String) (rounds : List (ℕ × Dict Stat)) (hist : Histories) (xs : List HistPoint)
    → All (λ r. Distinct r.1) rounds
    → get_history id hist ≡ last hist_max xs
    → get_history id (sample_all rounds hist) ≡ last hist_max (xs ++ seen id rounds)
unfolding sample_all seen
sampled id [] hist xs d e = e ∙ ap (last hist_max) (sym (append-nil xs))
sampled id ((now, stats) ∷ rounds) hist xs (h, d) e =
    let new = seen_now now (lookup id stats) in
    sampled id rounds (sample_history now stats hist) (xs ++ new) d (
      sample_history-pushes id now stats hist h
      ∙ ap (λ z. push_all hist_max z new) e
      ∙ push_all-last hist_max xs new)
    ∙ ap (last hist_max) (append_assoc xs new (seen id rounds))

-- In rounds whose counters name no rule twice, the history of a rule that had none becomes the last
-- 2880 of its samples, in the order in which they were taken.
pub get_history-sample_all :
    (id : String) (rounds : List (ℕ × Dict Stat))
    → All (λ r. Distinct r.1) rounds
    → get_history id (sample_all rounds []) ≡ last hist_max (seen id rounds)
get_history-sample_all id rounds d = sampled id rounds [] [] d refl
