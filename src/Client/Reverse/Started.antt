-- ===== src/Client/Reverse/Started.antt =====
-- client/reverse.go: the rules that a push hands to goroutines of `start`.
use caochuan.Base.{
  String, ◌≡◌, refl, ◌⊎◌, inl, inr, Bool, true, false, subst, Option-cases, Option, none, some,
  List, [], ◌∷◌, ◌++◌, arith, if◌then◌else◌, Bool-cases, String-discrete,
}
use mathlib.Core.Option.{some-injective}
use caochuan.Base.Dict.{Dict, lookup, insert, contains, lookup-insert, lookup-erase}
use caochuan.Server.State.{ReverseRule}
use caochuan.Client.Reverse.{Manager, by_id, is_kept, stop, stop_changed, take_missing, apply}

pub Among : ReverseRule → List ReverseRule → Type 0
Among r [] = ⊥
Among r (x ∷ xs) = (x ≡ r) ⊎ Among r xs

-- A rule that is there now was there before, or is handed to a goroutine that starts it.
pub IsHanded : Option ReverseRule → Option ReverseRule → List ReverseRule → Type 0
IsHanded was none started = Unit {0}
IsHanded was (some r) started = (was ≡ some r) ⊎ Among r started

append-Among : (r : ReverseRule) (xs ys : List ReverseRule) → Among r xs → Among r (xs ++ ys)
unfolding Among
append-Among r [] ys h = absurd h
append-Among r (x ∷ xs) ys (inl e) = inl e
append-Among r (x ∷ xs) ys (inr h) = inr (append-Among r xs ys h)

snoc-Among : (r : ReverseRule) (xs : List ReverseRule) → Among r (xs ++ (r ∷ []))
unfolding Among
snoc-Among r [] = inl refl
snoc-Among r (x ∷ xs) = inr (snoc-Among r xs)

if-pair :
    (P : Manager × List ReverseRule → Type 0) (b : Bool) (x y : Manager × List ReverseRule)
    → P x
    → P y
    → P (if b then x else y)
if-pair P true x y p q = p
if-pair P false x y p q = q

take_missing-Among :
    (r : ReverseRule) (want : Dict ReverseRule) (m : Manager) (acc : List ReverseRule)
    → Among r acc
    → Among r (take_missing want m acc).1
unfolding take_missing
take_missing-Among r [] m acc h = h
take_missing-Among r ((j, q) ∷ want) m acc h =
    let m' = record m { rules = insert j q m.rules } in
    if-pair (λ o. Among r o.1) (contains j m.rules) (take_missing want m acc)
      (take_missing want m' (acc ++ (q ∷ []))) (take_missing-Among r want m acc h)
      (take_missing-Among r want m' (acc ++ (q ∷ [])) (append-Among r acc (q ∷ []) h))

take_missing-cases :
    (id : String) (r : ReverseRule) (want : Dict ReverseRule) (m : Manager) (acc : List ReverseRule)
    → lookup id (take_missing want m acc).0.rules ≡ some r
    → (lookup id m.rules ≡ some r) ⊎ Among r (take_missing want m acc).1
unfolding take_missing
take_missing-cases id r [] m acc = λ e. inl e
take_missing-cases id r ((j, q) ∷ want) m acc =
    let m' = record m { rules = insert j q m.rules } in
    let more = acc ++ (q ∷ []) in
    if-pair (λ o. lookup id o.0.rules ≡ some r → (lookup id m.rules ≡ some r) ⊎ Among r o.1)
      (contains j m.rules) (take_missing want m acc) (take_missing want m' more)
      (take_missing-cases id r want m acc)
      (λ e. elim (take_missing-cases id r want m' more e) [
        | inr h ↦ inr h
        | inl f ↦ elim (String-discrete j id) [
          | no n ↦ inl (ground (arith, f, n, lookup-insert j id q m.rules))
          | yes p ↦
              let same : q ≡ r =
                some-injective q r (ground (arith, f, p, lookup-insert j id q m.rules)) in
              inr (
                take_missing-Among r want m' more
                  (subst (λ x. Among x more) same (snoc-Among q acc)))
        ]
      ])

stop_changed-kept :
    (id : String) (r : ReverseRule) (want entries : Dict ReverseRule) (m : Manager)
    → lookup id (stop_changed want entries m).rules ≡ some r
    → lookup id m.rules ≡ some r
unfolding stop_changed
stop_changed-kept id r want [] m e = e
stop_changed-kept id r want ((j, cur) ∷ entries) m e =
    elim (Bool-cases (is_kept (lookup j want) cur)) [
      | inl k ↦ ground (arith, e, k, stop_changed-kept id r want entries m)
      | inr k ↦
          ground
            (arith, e, k, stop_changed-kept id r want entries (stop j m), lookup-erase j id m.rules)
    ]

-- Whatever a push does: a rule that the manager then has was there before, or is among those that
-- goroutines are to start.
pub apply-IsHanded :
    (id : String) (rules : List ReverseRule) (m : Manager)
    → IsHanded (lookup id m.rules) (lookup id (apply rules m).0.rules) (apply rules m).1
unfolding apply IsHanded
apply-IsHanded id rules m = elim (Option-cases (lookup id (apply rules m).0.rules)) [
  | inl e ↦ rw (e, apply) tt
  | inr (r, e) ↦
      let want = by_id rules [] in
      let m' = stop_changed want m.rules m in
      rw (e, apply)
        (elim (take_missing-cases id r want m' [] e) [
          | inr h ↦ inr h
          | inl f ↦ inl (stop_changed-kept id r want m.rules m f)
        ])
]
