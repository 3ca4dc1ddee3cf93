-- ===== src/Client/Reverse/Pushes.antt =====
-- client/reverse.go: the rules of a client after a push.
use caochuan.Base.{
  String, ◌≡◌, refl, sym, ap, ◌∙◌, inl, inr, Option, none, some, List, [], ◌∷◌, ◌++◌, arith,
  if◌then◌else◌, Option-cases, String-discrete,
}
use caochuan.Base.Dict.{Dict, lookup, insert, Distinct, lookup-insert, lookup-erase}
use caochuan.Server.State.{ReverseRule}
use caochuan.Client.Reverse.{
  Manager, by_id, same_listener, is_kept, stop, stop_changed, take_missing, apply, start, stop_each,
  stop_all, control_closed,
}

-- The rule that runs under an id after a push, from the one that ran and the one that was pushed.
unfoldable pub next_rule : Option ReverseRule → Option ReverseRule → Option ReverseRule
next_rule cur none = none
next_rule none (some want) = some want
next_rule (some cur) (some want) = if same_listener want cur then some cur else some want

abbrev kept_of : Option ReverseRule → Option ReverseRule → Option ReverseRule
kept_of want none = none
kept_of want (some cur) = if is_kept want cur then some cur else none

-- A stop under other ids changes nothing.
stop_changed-absent :
    (id : String) (want entries : Dict ReverseRule) (m : Manager)
    → lookup id entries ≡ none
    → lookup id (stop_changed want entries m).rules ≡ lookup id m.rules
unfolding stop_changed
stop_changed-absent id want [] m e = refl
stop_changed-absent id want ((j, cur) ∷ entries) m e = ground (
  arith,
  stop_changed-absent id want entries m,
  stop_changed-absent id want entries (stop j m),
  lookup-erase j id m.rules,
)

stop_changed-keeps :
    (id : String) (want entries : Dict ReverseRule) (m : Manager)
    → Distinct entries
    → lookup id m.rules ≡ lookup id entries
    → lookup id (stop_changed want entries m).rules ≡ kept_of (lookup id want) (lookup id entries)
unfolding stop_changed
stop_changed-keeps id want [] m d e = e
stop_changed-keeps id want ((j, cur) ∷ entries) m (h, d) e = elim (String-discrete j id) [
  | yes p ↦ ground (
    arith,
    p,
    stop_changed-absent j want entries m h,
    stop_changed-absent j want entries (stop j m) h,
    lookup-erase j id m.rules,
  )
  | no n ↦ ground (
    arith,
    stop_changed-keeps id want entries m d,
    stop_changed-keeps id want entries (stop j m) d,
    lookup-erase j id m.rules,
  )
]

abbrev or_else : Option ReverseRule → Option ReverseRule → Option ReverseRule
or_else none want = want
or_else (some cur) want = some cur

or_else-none : (cur : Option ReverseRule) → or_else cur none ≡ cur
or_else-none none = refl
or_else-none (some cur) = refl

take_missing-fills :
    (id : String) (want : Dict ReverseRule) (m : Manager) (acc : List ReverseRule)
    → lookup id (take_missing want m acc).0.rules ≡ or_else (lookup id m.rules) (lookup id want)
unfolding take_missing
take_missing-fills id [] m acc = sym (or_else-none (lookup id m.rules))
take_missing-fills id ((j, r) ∷ want) m acc =
    let m' = record m { rules = insert j r m.rules } in
    let IH = take_missing-fills id want m acc in
    let IH' = take_missing-fills id want m' (acc ++ (r ∷ [])) in
    let ins = lookup-insert j id r m.rules in
    elim (String-discrete j id) [
      | yes p ↦ elim (Option-cases (lookup j m.rules)) [
        | inl e ↦ ground (arith, p, e, IH', ins)
        | inr (c, e) ↦ ground (arith, p, e, IH)
      ]
      | no n ↦ elim (Option-cases (lookup j m.rules)) [
        | inl e ↦ ground (arith, n, e, IH', ins)
        | inr (c, e) ↦ ground (arith, n, e, IH)
      ]
    ]

settle : (cur want : Option ReverseRule) → or_else (kept_of want cur) want ≡ next_rule cur want
unfolding next_rule
settle none none = refl
settle none (some want) = refl
settle (some cur) none = refl
settle (some cur) (some want) = ground arith

-- After a push to a client whose rules have distinct ids, the rule under each id is: none if none was
-- pushed under it; the one that ran, if the one pushed has its protocol, port and target; and the one
-- pushed otherwise. Of several pushed under one id, the last counts.
pub apply-next_rule :
    (id : String) (rules : List ReverseRule) (m : Manager)
    → Distinct m.rules
    → lookup id (apply rules m).0.rules ≡ next_rule (lookup id m.rules) (lookup id (by_id rules []))
unfolding apply next_rule
apply-next_rule id rules m d =
    let want = by_id rules [] in
    take_missing-fills id want (stop_changed want m.rules m) []
    ∙ ap (λ z. or_else z (lookup id want)) (stop_changed-keeps id want m.rules m d refl)
    ∙ settle (lookup id m.rules) (lookup id want)

pushed_withdrawn :
    (r : ReverseRule) (m : Manager) → m.rules ≡ [] → (apply [] (apply (r ∷ []) m).0).0.rules ≡ []
unfolding apply by_id take_missing stop_changed
pushed_withdrawn r m f = ground (arith, f)

start_rules : (r : ReverseRule) (m : Manager) → r.proto ≡ "tcp" → (start none r m).rules ≡ m.rules
unfolding start
start_rules r m e = ground (arith, e)

late_listener :
    (r : ReverseRule) (m : Manager)
    → r.proto ≡ "tcp"
    → m.rules ≡ []
    → lookup r.id (control_closed (start none r m)).tcp_lns ≡ some r
unfolding control_closed stop_all stop_each start
late_listener r m e f = ground (arith, e, f, lookup-insert r.id r.id r m.tcp_lns)

-- A rule is pushed and withdrawn before its goroutine has the listener, which it then gets: no rule
-- runs, but the listener stays open, also when the connection to the server ends.
pub control_closed-leaves :
    (r : ReverseRule) (m : Manager)
    → r.proto ≡ "tcp"
    → m.rules ≡ []
    → ((start none r (apply [] (apply (r ∷ []) m).0).0).rules ≡ [])
      × (lookup r.id (control_closed (start none r (apply [] (apply (r ∷ []) m).0).0)).tcp_lns
          ≡ some r)
control_closed-leaves r m e f =
    let m' = (apply [] (apply (r ∷ []) m).0).0 in
    let rules_gone = pushed_withdrawn r m f in
    (start_rules r m' e ∙ rules_gone, late_listener r m' e rules_gone)
