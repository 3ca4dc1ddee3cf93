-- ===== src/EndToEnd/Rules.antt =====
-- server/reverse.go and client/reverse.go: the rules that the manager of a client has, from
-- the panel's call on.
use caochuan.Base.{
  String, ◌<◌, ◌≡◌, refl, sym, ap, subst, ◌∙◌, ◌≢◌, inl, inr, Bool, true, ◌&&◌, Option, none, some,
  List, [], ◌∷◌, arith, if◌then◌else◌, Bool-cases, String-discrete, str_eq, All, AllPairs,
}
use caochuan.Base.Dict.{Dict, lookup, insert, Distinct, lookup-insert}
use caochuan.Config.{Rule, side_of}
use caochuan.Proto.{max_frame}
use caochuan.Server.State.{World, Server, ClientConn, ReverseRule}
use caochuan.Server.Rules.{is_written, reverse_rule, reverse_rules}
use caochuan.Server.Rules.Tidy.{Separate, IsTidy}
use caochuan.Server.Requests.{Request, handle}
use caochuan.Server.Requests.Push.{is_about_rules, Tells, handle-Tells}
use caochuan.Client.Reverse.{Manager, by_id, same_listener, apply}
use caochuan.Client.Reverse.Started.{IsHanded, apply-IsHanded}
use caochuan.Client.Reverse.Pushes.{next_rule, apply-next_rule}

-- An enabled rule of a client.
pub is_own : String → Rule → Bool
is_own name r = str_eq (side_of r) "client" && str_eq r.client name && r.enabled

-- The rule with an id that a client is to run.
pub own_rule : String → String → List Rule → Option Rule
own_rule name id [] = none
own_rule name id (r ∷ rs) =
    let rest = own_rule name id rs in if str_eq r.id id && is_own name r then some r else rest

-- What the manager has agrees in protocol, port and target with what is to run.
pub Agree : Option Rule → Option ReverseRule → Type 0
Agree none none = Unit {0}
Agree none (some cur) = ⊥
Agree (some r) none = ⊥
Agree (some r) (some cur) = same_listener (reverse_rule r) cur ≡ true

last_of : String → List ReverseRule → Option ReverseRule → Option ReverseRule
last_of id [] d = d
last_of id (r ∷ rs) d = last_of id rs (if str_eq r.id id then some r else d)

lookup-by_id :
    (id : String) (rs : List ReverseRule) (acc : Dict ReverseRule)
    → lookup id (by_id rs acc) ≡ last_of id rs (lookup id acc)
unfolding by_id last_of
lookup-by_id id [] acc = refl
lookup-by_id id (r ∷ rs) acc =
    lookup-by_id id rs (insert r.id r acc) ∙ ap (last_of id rs) (lookup-insert r.id id r acc)

-- Rules with other ids.
last_of-absent :
    (name id : String) (rules : List Rule) (d : Option ReverseRule)
    → All (λ r. r.id ≢ id) rules
    → last_of id (reverse_rules name rules) d ≡ d
unfolding last_of reverse_rules
last_of-absent name id [] d h = refl
last_of-absent name id (r ∷ rs) d h = ground (arith, h.0, last_of-absent name id rs d h.1)

own_rule-absent :
    (name id : String) (rules : List Rule)
    → All (λ r. r.id ≢ id) rules
    → own_rule name id rules ≡ none
unfolding own_rule
own_rule-absent name id [] h = refl
own_rule-absent name id (r ∷ rs) h = ground (arith, h.0, own_rule-absent name id rs h.1)

abbrev pushed_as : Option Rule → Option ReverseRule
pushed_as none = none
pushed_as (some r) = some (reverse_rule r)

others :
    (r : Rule) (id : String) (rs : List Rule)
    → r.id ≡ id
    → All (Separate r) rs
    → All (λ q. q.id ≢ id) rs
others r id [] e h = tt
others r id (q ∷ rs) e h = ((λ f. h.0.ids (e ∙ sym f)), others r id rs e h.1)

last_of-own_rule :
    (name id : String) (rules : List Rule)
    → AllPairs Separate rules
    → last_of id (reverse_rules name rules) none ≡ pushed_as (own_rule name id rules)
unfolding last_of reverse_rules own_rule is_own
last_of-own_rule name id [] h = refl
last_of-own_rule name id (r ∷ rs) h = elim (String-discrete r.id id) [
  | yes e ↦
      let far = others r id rs e h.0 in
      ground (
        arith,
        e,
        own_rule-absent name id rs far,
        last_of-absent name id rs none far,
        last_of-absent name id rs (some (reverse_rule r)) far,
      )
  | no ne ↦ ground (arith, ne, last_of-own_rule name id rs h.1)
]

same_listener_refl : (r : ReverseRule) → same_listener r r ≡ true
unfolding same_listener
same_listener_refl r = ground arith

Agree-next_rule :
    (want : Option Rule) (cur : Option ReverseRule) → Agree want (next_rule cur (pushed_as want))
unfolding Agree next_rule
Agree-next_rule none cur = tt
Agree-next_rule (some r) none = same_listener_refl (reverse_rule r)
Agree-next_rule (some r) (some cur) = elim (Bool-cases (same_listener (reverse_rule r) cur)) [
  | inl e ↦ rw e e
  | inr e ↦ rw e (same_listener_refl (reverse_rule r))
]

Agree-apply :
    (name id : String) (rules : List Rule) (m : Manager)
    → IsTidy rules
    → Distinct m.rules
    → Agree (own_rule name id rules) (lookup id (apply (reverse_rules name rules) m).0.rules)
Agree-apply name id rules m t d =
    subst (Agree (own_rule name id rules))
      (sym (
        apply-next_rule id (reverse_rules name rules) m d
        ∙ ap (next_rule (lookup id m.rules)) (
            lookup-by_id id (reverse_rules name rules) []
            ∙ last_of-own_rule name id rules t.separate)))
      (Agree-next_rule (own_rule name id rules) (lookup id m.rules))

-- The panel's call changes rules and succeeds, and leaves rules whose ids and ports are apart. A client is
-- then online with a control stream that takes the frame of its rules, whose JSON text is shorter than
-- 64 KiB. It has been sent a frame after which, whatever rules its manager had before (each id once), the
-- manager has a rule under an id exactly if the configuration has an enabled rule of that client with the
-- id, and with the protocol, the port and the target of that rule. A rule that the manager did not have
-- before is among those that goroutines are to start.
pub handle-Agree :
    (w : World) (q : Request) (s s' : Server) (key id : String) (cc : ClientConn) (m : Manager)
    → is_about_rules q ≡ true
    → handle w q s ≡ (none, s')
    → IsTidy s'.cfg.rules
    → lookup key s'.clients ≡ some cc
    → cc.has_control ≡ true
    → w.takes_frame cc.name ≡ true
    → w.frame_size (reverse_rules cc.name s'.cfg.rules) < max_frame
    → Distinct m.rules
    → (frame : List ReverseRule) × (earlier : List (List ReverseRule)) × (cc.pushed
        ≡ frame ∷ earlier)
      × Agree (own_rule cc.name id s'.cfg.rules) (lookup id (apply frame m).0.rules)
      × IsHanded (lookup id m.rules) (lookup id (apply frame m).0.rules) (apply frame m).1
unfolding is_written
handle-Agree w q s s' key id cc m about done tidy online control takes small d =
    let told : Tells w (none, s') = subst (Tells w) done (handle-Tells w q s about) in
    let (earlier, e) = told key cc online control (ground (arith, takes, small)) in
    let frame = reverse_rules cc.name s'.cfg.rules in
    (frame, earlier, e, Agree-apply cc.name id s'.cfg.rules m tidy d, apply-IsHanded id frame m)
