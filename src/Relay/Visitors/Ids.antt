-- ===== src/Relay/Visitors/Ids.antt =====
-- server/forward.go and client/reverse.go: identifiers of UDP visitors, and the size of their table.
use caochuan.Base.{
  ℕ, ◌+◌, ◌%◌, ◌^◌, ◌≤◌, ◌<◌, String, ◌≡◌, refl, sym, ap, subst, ◌∙◌, ◌⊎◌, inl, inr, false, none,
  some, [], ◌∷◌, arith, ℕ_discrete, Bool-cases, Option-cases, String-discrete, length,
}
use caochuan.Base.Dict.{Dict, lookup, insert, Distinct, lookup-insert, insert-Distinct}
use caochuan.Relay.Visitors.{
  Visitor, Table, new_table, enter, is_idle, sweep, expired, is_sweep_due, tick, visitor_of,
}

lookup-sweep-none :
    (now : ℕ) (k : String) (m : Dict Visitor) → lookup k m ≡ none → lookup k (sweep now m) ≡ none
unfolding sweep
lookup-sweep-none now k [] e = refl
lookup-sweep-none now k ((j, u) ∷ m) e = ground (arith, lookup-sweep-none now k m)

sweep-Distinct : (now : ℕ) (m : Dict Visitor) → Distinct m → Distinct (sweep now m)
unfolding sweep
sweep-Distinct now [] d = tt
sweep-Distinct now ((j, u) ∷ m) (h, d) =
    ground (arith, sweep-Distinct now m d, lookup-sweep-none now j m h)

pub lookup-sweep :
    (now : ℕ) (k : String) (v : Visitor) (m : Dict Visitor)
    → Distinct m
    → lookup k (sweep now m) ≡ some v
    → (lookup k m ≡ some v) × (is_idle now v ≡ false)
unfolding sweep
lookup-sweep now k v [] d e = cc
lookup-sweep now k v ((j, u) ∷ m) (h, d) e = elim (String-discrete j k) [
  | yes p ↦ ground (arith, p, h, e, lookup-sweep-none now j m h)
  | no n ↦ ground (arith, n, e, lookup-sweep now k v m d)
]

pub length-sweep : (now : ℕ) (m : Dict Visitor) → length (sweep now m) + expired now m ≡ length m
unfolding sweep expired
length-sweep now [] = refl
length-sweep now ((j, u) ∷ m) = ground (arith, length-sweep now m)

-- Each address is listed once, no identifier is given twice, and the last one given is the greatest.
pub record AreApart (t : Table) : Type 0 where
  pub once : Distinct t.visitors
  pub bounded : (k : String) (v : Visitor) → lookup k t.visitors ≡ some v → v.id ≤ t.next_id
  pub unique :
      (k l : String) (v u : Visitor)
      → lookup k t.visitors ≡ some v
      → lookup l t.visitors ≡ some u
      → v.id ≡ u.id
      → k ≡ l

pub new_table-AreApart : AreApart new_table
new_table-AreApart = record { once = tt; bounded = λ k v e. cc; unique = λ k l v u e f g. cc }

-- What an insertion leaves under a key.
pub lookup_inserted :
    (k key : String) (v w : Visitor) (m : Dict Visitor)
    → lookup k (insert key w m) ≡ some v
    → ((key ≡ k) × (w ≡ v)) ⊎ (lookup k m ≡ some v)
lookup_inserted k key v w m e = elim (String-discrete key k) [
  | yes p ↦ inl (p, ground (arith, p, e, lookup-insert key k w m))
  | no n ↦ inr (ground (arith, n, e, lookup-insert key k w m))
]

-- An insertion under an identifier that no other address has.
insert-AreApart :
    (key : String) (w : Visitor) (t : Table) (n : ℕ)
    → AreApart t
    → t.next_id ≤ n
    → w.id ≤ n
    → ((k : String) (v : Visitor) → lookup k t.visitors ≡ some v → v.id ≡ w.id → k ≡ key)
    → AreApart (record t { visitors = insert key w t.visitors; next_id = n })
insert-AreApart key w t n a h b own = record {
  once = insert-Distinct key w t.visitors a.once;
  bounded = λ k v e. elim (lookup_inserted k key v w t.visitors e) [
    | inl (p, q) ↦ subst (λ z. z.id ≤ n) q b
    | inr f ↦ omega (arith, a.bounded k v f)
  ];
  unique = λ k l v u e f same. elim (lookup_inserted k key v w t.visitors e) [
    | inl (p, q) ↦ elim (lookup_inserted l key u w t.visitors f) [
      | inl (p', q') ↦ sym p ∙ p'
      | inr g ↦ sym p ∙ sym (own l u g (sym same ∙ ap (λ (z : Visitor). z.id) (sym q)))
    ]
    | inr g ↦ elim (lookup_inserted l key u w t.visitors f) [
      | inl (p', q') ↦ own k v g (same ∙ ap (λ (z : Visitor). z.id) (sym q')) ∙ p'
      | inr g' ↦ a.unique k l v u g g' same
    ]
  ];
}

pub enter-AreApart :
    (now : ℕ) (key : String) (t : Table)
    → t.next_id + 1 < 2 ^ 32
    → AreApart t
    → AreApart (enter now key t)
unfolding enter
enter-AreApart now key t lt a = elim (Option-cases (lookup key t.visitors)) [
  | inl e ↦
      rw (e, enter)
        (insert-AreApart key (record { id = (t.next_id + 1) % 2 ^ 32; last_seen = now }) t
          ((t.next_id + 1) % 2 ^ 32) a (omega arith) (omega arith)
          (λ k v f same. absurd (omega (arith, a.bounded k v f))))
  | inr (w, e) ↦
      rw (e, enter)
        (insert-AreApart key (record w { last_seen = now }) t t.next_id a (omega arith)
          (a.bounded key w e) (λ k v f same. a.unique k key v w f e same))
]

pub tick-AreApart : (now : ℕ) (t : Table) → AreApart t → AreApart (tick now t)
unfolding tick
tick-AreApart now t a = elim (Bool-cases (is_sweep_due t)) [
  | inr e ↦ rw (e, tick) (record { once = a.once; bounded = a.bounded; unique = a.unique })
  | inl e ↦
      rw (e, tick)
        (record {
          once = sweep-Distinct now t.visitors a.once;
          bounded = λ k v f. a.bounded k v (lookup-sweep now k v t.visitors a.once f).0;
          unique = λ k l v u f g.
              a.unique k l v u (lookup-sweep now k v t.visitors a.once f).0
                (lookup-sweep now l u t.visitors a.once g).0;
        })
]

pub beyond :
    (j l : String) (w u : Visitor) (m : Dict Visitor)
    → lookup j m ≡ none
    → lookup l m ≡ some u
    → lookup l ((j, w) ∷ m) ≡ some u
beyond j l w u m h e = elim (String-discrete j l) [
  | yes p ↦ ground (arith, p, h, e)
  | no n ↦ ground (arith, n, e)
]

-- A reply to the identifier of a visitor goes to that visitor.
visitor_of-some :
    (id : ℕ) (k : String) (v : Visitor) (m : Dict Visitor)
    → lookup k m ≡ some v
    → v.id ≡ id
    → Distinct m
    → (l : String) × (u : Visitor) × (visitor_of id m ≡ some l)
      × (lookup l m ≡ some u)
      × (u.id ≡ id)
unfolding visitor_of
visitor_of-some id k v [] e f d = cc
visitor_of-some id k v ((j, w) ∷ m) e f (h, d) = elim (ℕ_discrete w.id id) [
  | yes p ↦ (j, w, ground (arith, p), ground arith, p)
  | no n ↦
      let other : lookup k m ≡ some v = ground (arith, n, e, f) in
      let (l, u, found, there, same) = visitor_of-some id k v m other f d in
      (l, u, ground (arith, n, found), beyond j l w u m h there, same)
]

pub visitor_of-lookup :
    (t : Table) (k : String) (v : Visitor)
    → AreApart t
    → lookup k t.visitors ≡ some v
    → visitor_of v.id t.visitors ≡ some k
visitor_of-lookup t k v a e =
    let (l, u, found, there, same) = visitor_of-some v.id k v t.visitors e refl a.once in
    found ∙ ap some (a.unique l k u v there e same)
