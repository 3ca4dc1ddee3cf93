-- ===== src/Server/Rules/Tidy.antt =====
-- server/state.go: ids and ports stay apart.
use caochuan.Base.{
  ℕ, zero, suc, String, ◌≡◌, refl, sym, ap, ◌∙◌, ◌≢◌, inl, inr, Bool, false, some, List, [], ◌∷◌,
  ◌++◌, arith, Bool-cases, str_eq, is_some, get_elem?, set, All, AllBut, AllPairs, All-snoc,
  All-set, All-AllBut, All-get_elem?, AllPairs-snoc, AllPairs-set, AllPairs-AllBut,
}
use caochuan.Config.{Rule}
use caochuan.Config.File.{save, short}
use caochuan.Server.State.{World, Server}
use caochuan.Server.Validate.{clashes, port_conflict}
use caochuan.Server.Validate.Ports.{port_conflict-none, port_conflict-AllBut}
use caochuan.Server.Apply.{apply_rules}
use caochuan.Server.Rules.Cases.{add_rule-cases, update_rule-cases, set_rule_enabled-cases}
use caochuan.Server.Rules.{
  add_rule, update_rule, commit_rules, delete_rule, set_rule_enabled, broadcast_rules, with_rules,
  enrol, remove_rule, find_index,
}

-- Two rules have different ids, and do not want one port on one machine.
pub record Separate (a b : Rule) : Type 0 where
  pub ids : a.id ≢ b.id
  pub ports : clashes a.listen a b ≡ false

pub Separate-swap : (a b : Rule) → Separate a b → Separate b a
Separate-swap a b h = record { ids = λ e. h.ids (sym e); ports = ground arith }

pub record IsTidy (rules : List Rule) : Type 0 where
  pub identified : All (λ r. r.id ≢ "") rules
  pub separate : AllPairs Separate rules

-- Two facts about all but one rule, joined.
AllBut-zip :
    {P Q S : Rule → Type 0}
    → ((r : Rule) → P r → Q r → S r)
    → (rules : List Rule) (i : ℕ) → AllBut i P rules
    → AllBut i Q rules
    → AllBut i S rules
AllBut-zip f [] i p q = tt
AllBut-zip f (r ∷ rules) zero p q = All-zip f rules p q
  where
    All-zip :
        {P Q S : Rule → Type 0}
        → ((r : Rule) → P r → Q r → S r)
        → (rs : List Rule) → All P rs
        → All Q rs
        → All S rs
    All-zip f [] p q = tt
    All-zip f (r ∷ rs) p q = (f r p.0 q.0, All-zip f rs p.1 q.1)
AllBut-zip f (r ∷ rules) (suc i) p q = (f r p.0 q.0, AllBut-zip f rules i p.1 q.1)

-- A rule put in the place of another, with its id and clear of the other rules' ports.
set-IsTidy :
    (rules : List Rule) (i : ℕ) (old nr : Rule)
    → IsTidy rules
    → get_elem? rules i ≡ some old
    → nr.id ≡ old.id
    → AllBut i (λ cur. cur.id ≢ nr.id → clashes nr.listen nr cur ≡ false) rules
    → IsTidy (set rules i nr)
set-IsTidy rules i old nr t g same clear = record {
  identified =
      All-set (λ r. r.id ≢ "") rules i nr (All-AllBut (λ r. r.id ≢ "") rules i t.identified)
        (λ e. All-get_elem? (λ r. r.id ≢ "") rules i old t.identified g (sym same ∙ e));
  separate = AllPairs-set Separate Separate-swap rules i nr t.separate (
      AllBut-zip
        (λ cur far ports. record {
          ids = λ e. far.ids (sym same ∙ e);
          ports = ports (λ e. far.ids (sym same ∙ sym e));
        })
        rules i (AllPairs-AllBut Separate Separate-swap rules i old t.separate g) clear);
}

snoc-IsTidy :
    (rules : List Rule) (r : Rule)
    → IsTidy rules
    → r.id ≢ ""
    → All (λ cur. cur.id ≢ r.id) rules
    → All (λ cur. cur.id ≢ "" → clashes r.listen r cur ≡ false) rules
    → IsTidy (rules ++ (r ∷ []))
snoc-IsTidy rules r t named fresh clear = record {
  identified = All-snoc (λ q. q.id ≢ "") rules r t.identified named;
  separate = AllPairs-snoc Separate rules r t.separate (joined rules t.identified fresh clear);
}
  where
    joined :
        (rs : List Rule)
        → All (λ q. q.id ≢ "") rs
        → All (λ cur. cur.id ≢ r.id) rs
        → All (λ cur. cur.id ≢ "" → clashes r.listen r cur ≡ false) rs
        → All (λ q. Separate q r) rs
    joined [] n f c = tt
    joined (q ∷ rs) n f c = (
      Separate-swap r q (record { ids = λ e. f.0 (sym e); ports = c.0 n.0 }),
      joined rs n.1 f.1 c.1,
    )

commit_rules-IsTidy :
    (w : World) (rules : List Rule) (s : Server)
    → IsTidy s.cfg.rules
    → IsTidy rules
    → IsTidy (commit_rules w rules s).1.cfg.rules
unfolding commit_rules broadcast_rules apply_rules
commit_rules-IsTidy w rules s t u =
    elim (Bool-cases (save w.fault (with_rules rules s.cfg) s.disk).0) [
      | inl p ↦ rw (p, commit_rules) u
      | inr p ↦ rw (p, commit_rules) t
    ]

-- `AddRule` keeps ids and ports apart, if the id that is drawn is new and not empty.
pub add_rule-IsTidy :
    (w : World) (r : Rule) (s : Server)
    → short w.token ≢ ""
    → All (λ cur. cur.id ≢ short w.token) s.cfg.rules
    → IsTidy s.cfg.rules
    → IsTidy (add_rule w r s).1.cfg.rules
add_rule-IsTidy w r s named fresh t =
    add_rule-cases (λ o. IsTidy o.1.cfg.rules) w s r (λ e. t)
      λ good clear. commit_rules-IsTidy w (s.cfg.rules ++ (enrol w r ∷ [])) s t (
        snoc-IsTidy s.cfg.rules (enrol w r) t named fresh
          (port_conflict-none s.cfg.rules 0 r.listen r clear))

pub update_rule-IsTidy :
    (w : World) (id : String) (r : Rule) (s : Server)
    → IsTidy s.cfg.rules
    → IsTidy (update_rule w id r s).1.cfg.rules
update_rule-IsTidy w id r s t =
    update_rule-cases (λ o. IsTidy o.1.cfg.rules) w s id r (λ e. t)
      λ i old nr g same good clear. commit_rules-IsTidy w (set s.cfg.rules i nr) s t (
        set-IsTidy s.cfg.rules i old nr t g same (
          port_conflict-AllBut s.cfg.rules 0 i nr.listen nr nr.id (
            ap (λ k. port_conflict s.cfg.rules 0 (some k) nr.listen nr nr.id) (omega arith)
            ∙ clear)))

pub set_rule_enabled-IsTidy :
    (w : World) (id : String) (on : Bool) (s : Server)
    → IsTidy s.cfg.rules
    → IsTidy (set_rule_enabled w id on s).1.cfg.rules
set_rule_enabled-IsTidy w id on s t =
    set_rule_enabled-cases (λ o. IsTidy o.1.cfg.rules) w s id on (λ e. t)
      λ i old g.
        let apart = AllPairs-AllBut Separate Separate-swap s.cfg.rules i old t.separate g in
        commit_rules-IsTidy w (set s.cfg.rules i (record old { enabled = on })) s t (
          set-IsTidy s.cfg.rules i old (record old { enabled = on }) t g refl
            (AllBut-zip (λ cur far _ other. far.ports) s.cfg.rules i apart apart))

pub remove_rule-All :
    (P : Rule → Type 0) (id : String) (rules : List Rule)
    → All P rules
    → All P (remove_rule id rules)
unfolding remove_rule
remove_rule-All P id [] h = tt
remove_rule-All P id (r ∷ rules) h = elim (Bool-cases (str_eq r.id id)) [
  | inl e ↦ rw (e, remove_rule) h.1
  | inr e ↦ rw (e, remove_rule) (h.0, remove_rule-All P id rules h.1)
]

remove_rule-Separate :
    (id : String) (rules : List Rule)
    → AllPairs Separate rules
    → AllPairs Separate (remove_rule id rules)
unfolding remove_rule
remove_rule-Separate id [] h = tt
remove_rule-Separate id (r ∷ rules) h = elim (Bool-cases (str_eq r.id id)) [
  | inl e ↦ rw (e, remove_rule) h.1
  | inr e ↦
      rw (e, remove_rule)
        (remove_rule-All (Separate r) id rules h.0, remove_rule-Separate id rules h.1)
]

pub delete_rule-IsTidy :
    (w : World) (id : String) (s : Server)
    → IsTidy s.cfg.rules
    → IsTidy (delete_rule w id s).1.cfg.rules
unfolding delete_rule broadcast_rules
delete_rule-IsTidy w id s t = elim (Bool-cases (is_some (find_index id s.cfg.rules))) [
  | inr e ↦ rw (e, delete_rule) t
  | inl e ↦
      rw (e, delete_rule)
        (record {
          identified = remove_rule-All (λ r. r.id ≢ "") id s.cfg.rules t.identified;
          separate = remove_rule-Separate id s.cfg.rules t.separate;
        })
]
