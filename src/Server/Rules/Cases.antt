-- ===== src/Server/Rules/Cases.antt =====
-- server/state.go: the ways in which the calls on the rules can end.
use caochuan.Base.{
  ℕ, zero, suc, String, ◌≡◌, sym, inl, inr, Bool, none, some, List, [], ◌∷◌, ◌++◌, arith,
  Option-cases, get_elem?, set,
}
use caochuan.Config.{Rule}
use caochuan.Server.State.{World, Server, Outcome, ServerError, conflict, not_found}
use caochuan.Server.Validate.{port_conflict, validate_rule}
use caochuan.Server.Rules.{
  add_rule, update_rule, commit_rules, at_rule, update_at, set_rule_enabled, enrol, find_index,
}

find_index-get :
    (id : String) (rules : List Rule) (i : ℕ) (old : Rule)
    → find_index id rules ≡ some i
    → get_elem? rules i ≡ some old
    → old.id ≡ id
unfolding find_index
find_index-get id [] i old f g = cc
find_index-get id (r ∷ rules) zero old f g = ground arith
find_index-get id (r ∷ rules) (suc i) old f g = ground (arith, find_index-get id rules i old)

module _ {ℓ} (P : Outcome → Type ℓ) (w : World) (s : Server) where
  at_rule-cases :
      (id : String) (next : ℕ → Rule → Outcome)
      → P (some not_found, s)
      → ((i : ℕ) (old : Rule) → get_elem? s.cfg.rules i ≡ some old → old.id ≡ id → P (next i old))
      → P (at_rule id s next)
  unfolding at_rule
  at_rule-cases id next missing found = elim (Option-cases (find_index id s.cfg.rules)) [
    | inl e ↦ rw (e, at_rule) missing
    | inr (i, e) ↦ elim (Option-cases (get_elem? s.cfg.rules i)) [
      | inl f ↦ rw (e, f, at_rule) missing
      | inr (old, f) ↦ rw (e, f, at_rule) (found i old f (find_index-get id s.cfg.rules i old e f))
    ]
  ]

  -- `AddRule` refuses, or commits the rules with the new one at the end.
  pub add_rule-cases :
      (r : Rule)
      → ((e : ServerError) → P (some e, s))
      → (validate_rule w r s.cfg.clients ≡ none
          → port_conflict s.cfg.rules 0 none r.listen r "" ≡ none
          → P (commit_rules w (s.cfg.rules ++ (enrol w r ∷ [])) s))
      → P (add_rule w r s)
  unfolding add_rule
  add_rule-cases r refused done = elim (Option-cases (validate_rule w r s.cfg.clients)) [
    | inr (e, bad) ↦ rw (bad, add_rule) (refused e)
    | inl good ↦ elim (Option-cases (port_conflict s.cfg.rules 0 none r.listen r "")) [
      | inr (cur, taken) ↦ rw (good, taken, add_rule) (refused conflict)
      | inl clear ↦ rw (good, clear, add_rule) (done good clear)
    ]
  ]

  update_at-cases :
      (i : ℕ) (old nr : Rule)
      → ((e : ServerError) → P (some e, s))
      → (validate_rule w nr s.cfg.clients ≡ none
          → port_conflict s.cfg.rules 0 (some i) nr.listen nr nr.id ≡ none
          → P (commit_rules w (set s.cfg.rules i nr) s))
      → P (update_at w i old nr s)
  unfolding update_at
  update_at-cases i old nr refused done = elim (Option-cases (validate_rule w nr s.cfg.clients)) [
    | inr (e, bad) ↦ rw (bad, update_at) (refused e)
    | inl good ↦ elim (Option-cases (port_conflict s.cfg.rules 0 (some i) nr.listen nr nr.id)) [
      | inr (cur, taken) ↦ rw (good, taken, update_at) (refused conflict)
      | inl clear ↦ rw (good, clear, update_at) (done good clear)
    ]
  ]

  -- `UpdateRule` refuses, or commits the rules with the new one in the place of that with its id.
  pub update_rule-cases :
      (id : String) (r : Rule)
      → ((e : ServerError) → P (some e, s))
      → ((i : ℕ) (old nr : Rule)
          → get_elem? s.cfg.rules i ≡ some old
          → nr.id ≡ old.id
          → validate_rule w nr s.cfg.clients ≡ none
          → port_conflict s.cfg.rules 0 (some i) nr.listen nr nr.id ≡ none
          → P (commit_rules w (set s.cfg.rules i nr) s))
      → P (update_rule w id r s)
  unfolding update_rule
  update_rule-cases id r refused done = at_rule-cases id _ (refused not_found) λ i old g e.
      update_at-cases i old (record r { id = id; enabled = old.enabled }) refused
        (done i old (record r { id = id; enabled = old.enabled }) g (sym e))

  -- `SetRuleEnabled` refuses, or commits the rules with one switched.
  pub set_rule_enabled-cases :
      (id : String) (on : Bool)
      → ((e : ServerError) → P (some e, s))
      → ((i : ℕ) (old : Rule)
          → get_elem? s.cfg.rules i ≡ some old
          → P (commit_rules w (set s.cfg.rules i (record old { enabled = on })) s))
      → P (set_rule_enabled w id on s)
  unfolding set_rule_enabled
  set_rule_enabled-cases id on refused done =
      at_rule-cases id _ (refused not_found) λ i old g e. done i old g
