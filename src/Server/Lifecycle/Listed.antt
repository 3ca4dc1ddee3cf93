-- ===== src/Server/Lifecycle/Listed.antt =====
-- server/server.go: the rules that `applyRulesLocked` wants, in a list of rules that are apart.
use caochuan.Base.{
  ℕ, zero, suc, String, ◌≡◌, refl, sym, ap, subst, ◌∙◌, ◌≢◌, ◌⊎◌, inl, inr, true, false, Option,
  none, some, List, [], ◌∷◌, arith, Bool-cases, String-discrete, str_eq, if◌then◌else◌, get_elem?,
  AllBut, All-get_elem?, AllPairs-AllBut,
}
use mathlib.Core.Option.{some-injective}
use caochuan.Base.Dict.{lookup}
use caochuan.Config.{Rule}
use caochuan.Server.Apply.{wanted, desired, runner_for, on_port}
use caochuan.Server.Rules.Tidy.{Separate, Separate-swap, IsTidy}
use caochuan.Server.Requests.Running.{last_wanted, lookup-collect_desired}

-- A rule of the list under an id.
abbrev pub Listed : String → List Rule → Rule → Type 0
Listed id rules r = (i : ℕ) × (get_elem? rules i ≡ some r) × (r.id ≡ id) × (wanted r ≡ true)

last_wanted-Listed :
    (id : String) (rules : List Rule) (o : Option Rule) (r : Rule)
    → last_wanted id rules o ≡ some r
    → (o ≡ some r) ⊎ Listed id rules r
unfolding last_wanted
last_wanted-Listed id [] o r e = inl e
last_wanted-Listed id (q ∷ rs) o r e =
    let o' : Option Rule = if wanted q then if str_eq q.id id then some q else o else o in
    elim (last_wanted-Listed id rs o' r e) [
      | inr (i, f, g, h) ↦ inr (suc i, f, g, h)
      | inl f ↦ elim (Bool-cases (wanted q)) [
        | inr n ↦ inl (ground (arith, f, n))
        | inl y ↦ elim (String-discrete q.id id) [
          | no n ↦ inl (ground (arith, f, y, n))
          | yes p ↦
              let same : q ≡ r = some-injective q r (ground (arith, f, y, p)) in
              inr (
                zero,
                ap some same,
                ap (λ (z : Rule). z.id) (sym same) ∙ p,
                subst (λ z. wanted z ≡ true) same y,
              )
        ]
      ]
    ]

pub desired-Listed :
    (id : String) (rules : List Rule) (r : Rule)
    → lookup id (desired rules) ≡ some r
    → Listed id rules r
unfolding desired
desired-Listed id rules r e =
    elim (last_wanted-Listed id rules none r (sym (lookup-collect_desired id rules []) ∙ e)) [
      | inl f ↦ cc
      | inr l ↦ l
    ]

AllBut-get {ℓ κ} :
    {A : Type ℓ} (P : A → Type κ) (xs : List A) (i j : ℕ) (x : A)
    → AllBut i P xs
    → get_elem? xs j ≡ some x
    → j ≢ i
    → P x
AllBut-get P [] i j x h e n = cc
AllBut-get P (y ∷ xs) zero zero x h e n = absurd (n refl)
AllBut-get P (y ∷ xs) zero (suc j) x h e n = All-get_elem? P xs j x h e
AllBut-get P (y ∷ xs) (suc i) zero x h e n = subst P (some-injective y x e) h.0
AllBut-get P (y ∷ xs) (suc i) (suc j) x h e n = AllBut-get P xs i j x h.1 e (λ p. n (ap suc p))

-- Two server-side rules that do not clash do not want one port.
on_port-apart :
    (r q : Rule)
    → Separate r q
    → wanted r ≡ true
    → wanted q ≡ true
    → on_port (runner_for q) r ≡ false
unfolding on_port
on_port-apart r q h a b = ground (arith, h.ports, a, b)

-- In tidy rules no other wanted rule has the port.
pub alone-IsTidy :
    (rules : List Rule) (id j : String) (r q : Rule)
    → IsTidy rules
    → lookup id (desired rules) ≡ some r
    → lookup j (desired rules) ≡ some q
    → j ≢ id
    → on_port (runner_for q) r ≡ false
alone-IsTidy rules id j r q t e f n =
    let (i, a, b, c) = desired-Listed id rules r e in
    let (k, a', b', c') = desired-Listed j rules q f in
    let but = AllPairs-AllBut Separate Separate-swap rules i r t.separate a in
    let apart : k ≢ i = λ p. n (
      sym b'
      ∙ ap (λ (z : Rule). z.id) (some-injective q r (sym a' ∙ ap (get_elem? rules) p ∙ a))
      ∙ b) in
    on_port-apart r q (AllBut-get (Separate r) rules i k q but a' apart) c c'
