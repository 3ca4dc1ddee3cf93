-- ===== src/Server/Views/Running.antt =====
-- server/state.go: the rules that the panel shows as running.
use caochuan.Base.{
  ℕ, zero, suc, String, ◌≡◌, refl, ◌⊎◌, inl, inr, true, false, ◌&&◌, Option, none, some, List, [],
  ◌∷◌, arith, Bool-cases, Option-cases, str_eq, get_elem?, All, AllBut, AllPairs-AllBut,
}
use caochuan.Base.Dict.{Dict, lookup, contains}
use caochuan.Config.{Rule, side_of}
use caochuan.Server.State.{Server, Runner, ClientConn, ReverseStatus}
use caochuan.Server.History.{Stat}
use caochuan.Server.Apply.{desired, wanted, same_as}
use caochuan.Server.Rules.Tidy.{Separate, Separate-swap, IsTidy}
use caochuan.Server.Requests.Running.{Configured, last_wanted, lookup-collect_desired}
use caochuan.Server.Views.{reported, running_of, rule_view}

-- Rules that are not both wanted and of this id.
last_wanted-unwanted :
    (id : String) (rs : List Rule) (o : Option Rule)
    → All (λ q. (wanted q && str_eq q.id id) ≡ false) rs
    → last_wanted id rs o ≡ o
unfolding last_wanted
last_wanted-unwanted id [] o h = refl
last_wanted-unwanted id (q ∷ rs) o h = ground (arith, h.0, last_wanted-unwanted id rs o h.1)

others_unwanted :
    (r : Rule) (rs : List Rule)
    → All (Separate r) rs
    → All (λ q. (wanted q && str_eq q.id r.id) ≡ false) rs
others_unwanted r [] h = tt
others_unwanted r (q ∷ rs) h = (ground (arith, h.0.ids), others_unwanted r rs h.1)

all_unwanted :
    (r : Rule) (i : ℕ) (rs : List Rule)
    → wanted r ≡ false
    → AllBut i (Separate r) rs
    → get_elem? rs i ≡ some r
    → All (λ q. (wanted q && str_eq q.id r.id) ≡ false) rs
all_unwanted r i [] u b g = tt
all_unwanted r zero (q ∷ rs) u b g = (ground (arith, u, g), others_unwanted r rs b)
all_unwanted r (suc i) (q ∷ rs) u b g = (ground (arith, b.0.ids), all_unwanted r i rs u b.1 g)

runners-unwanted :
    (s : Server) (i : ℕ) (r : Rule)
    → Configured s.runners s.cfg.rules
    → IsTidy s.cfg.rules
    → get_elem? s.cfg.rules i ≡ some r
    → wanted r ≡ false
    → contains r.id s.runners ≡ false
unfolding desired
runners-unwanted s i r c t g u = elim (Option-cases (lookup r.id s.runners)) [
  | inl e ↦ ground (arith, e)
  | inr (rn, e) ↦
      let (q, l, same) = c r.id rn e in
      let far =
        all_unwanted r i s.cfg.rules u
          (AllPairs-AllBut Separate Separate-swap s.cfg.rules i r t.separate g) g in
      ground (
        arith,
        l,
        lookup-collect_desired r.id s.cfg.rules [],
        last_wanted-unwanted r.id s.cfg.rules none far,
      )
]

last_wanted-itself :
    (r : Rule) (i : ℕ) (rs : List Rule) (o : Option Rule)
    → wanted r ≡ true
    → AllBut i (Separate r) rs
    → get_elem? rs i ≡ some r
    → last_wanted r.id rs o ≡ some r
unfolding last_wanted
last_wanted-itself r i [] o u b g = cc
last_wanted-itself r zero (q ∷ rs) o u b g =
    ground (arith, u, g, last_wanted-unwanted r.id rs (some r) (others_unwanted r rs b))
last_wanted-itself r (suc i) (q ∷ rs) o u b g =
    ground (arith, b.0.ids, last_wanted-itself r i rs o u b.1 g)

-- A listener of the server with the addresses of the rule.
abbrev pub Listens : Server → Rule → Type 0
Listens s r = (rn : Runner) × (lookup r.id s.runners ≡ some rn) × (same_as rn r ≡ true)

-- The client of the rule is online, and has reported last that it listens.
abbrev pub IsReported : Server → Rule → Type 0
IsReported s r =
    (conn : ClientConn) × (st : ReverseStatus) × (lookup r.client s.clients ≡ some conn)
    × (lookup r.id conn.status ≡ some st)
    × (st.ok ≡ true)

Listens-itself :
    (s : Server) (i : ℕ) (r : Rule)
    → Configured s.runners s.cfg.rules
    → IsTidy s.cfg.rules
    → get_elem? s.cfg.rules i ≡ some r
    → contains r.id s.runners ≡ true
    → (r.enabled ≡ true) × Listens s r
unfolding desired
Listens-itself s i r c t g h = elim (Bool-cases (wanted r)) [
  | inr u ↦ absurd (ground (arith, h, runners-unwanted s i r c t g u))
  | inl u ↦ elim (Option-cases (lookup r.id s.runners)) [
    | inl e ↦ absurd (ground (arith, e, h))
    | inr (rn, e) ↦
        let (q, l, same) = c r.id rn e in
        let itself =
          last_wanted-itself r i s.cfg.rules none u
            (AllPairs-AllBut Separate Separate-swap s.cfg.rules i r t.separate g) g in
        (
          ground (arith, u),
          (rn, e, ground (arith, l, lookup-collect_desired r.id s.cfg.rules [], itself, same)),
        )
  ]
]

IsReported-itself :
    (s : Server) (r : Rule)
    → str_eq (side_of r) "server" ≡ false
    → (running_of s r).0 ≡ true
    → (r.enabled ≡ true) × IsReported s r
unfolding running_of reported
IsReported-itself s r side h = elim (Option-cases (lookup r.client s.clients)) [
  | inl e ↦ absurd (ground (arith, e, side, h))
  | inr (conn, e) ↦ elim (Option-cases (lookup r.id conn.status)) [
    | inl f ↦ absurd (ground (arith, e, f, side, h))
    | inr (st, f) ↦ (ground (arith, e, f, side, h), (conn, st, e, f, ground (arith, e, f, side, h)))
  ]
]

-- While listeners are those of the configuration and its rules are apart, as the panel's calls but the
-- import keep them, a rule of the configuration that the panel shows as running is enabled; and the
-- server has a listener with its addresses, or its client is online and has last reported that it
-- listens.
pub rule_view-running :
    (s : Server) (stats : Dict Stat) (health : Dict (Option String)) (i : ℕ) (r : Rule)
    → Configured s.runners s.cfg.rules
    → IsTidy s.cfg.rules
    → get_elem? s.cfg.rules i ≡ some r
    → (rule_view s stats health r).running ≡ true
    → (r.enabled ≡ true) × (Listens s r ⊎ IsReported s r)
unfolding rule_view running_of
rule_view-running s stats health i r c t g h = elim (Bool-cases (str_eq (side_of r) "server")) [
  | inl side ↦ let (on, l) = Listens-itself s i r c t g (ground (arith, side, h)) in (on, inl l)
  | inr side ↦ let (on, l) = IsReported-itself s r side h in (on, inr l)
]
