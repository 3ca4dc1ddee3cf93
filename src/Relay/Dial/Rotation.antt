-- ===== src/Relay/Dial/Rotation.antt =====
-- `dialBalanced`: the targets in turn.
use caochuan.Base.{
  ℕ, zero, suc, ◌+◌, ◌-◌, ◌%◌, ◌^◌, ◌≤◌, ◌<◌, ◌≡◌, refl, sym, ap, ◌∙◌, Bool, some, List, [], ◌∷◌,
  ◌++◌, arith, dec_lt, if◌then◌else◌, length, get_elem?, take, drop, length-append, length-take,
  length-drop,
}
use mathlib.Core.Option.{some-injective}
use native.Mathlib.Nat.{mod-eq_of_lt, mod-eq-sub-mod, mod-lt, mod-add-mod}
use caochuan.Base.Text.{Text}
use caochuan.Relay.Targets.{parse_targets}
use caochuan.Relay.Dial.{Dialed, reached, unreachable, index, dial_loop, dial_balanced}

module _ {ℓ} {A : Type ℓ} where
  elem_at : (xs : List A) (i j : ℕ) → i ≡ j → get_elem? xs i ≡ get_elem? xs j
  elem_at xs i j e = ap (get_elem? xs) e

  get_elem?-drop : (k i : ℕ) (xs : List A) → get_elem? (drop k xs) i ≡ get_elem? xs (k + i)
  get_elem?-drop zero i xs = elem_at xs i (0 + i) (omega arith)
  get_elem?-drop (suc k) i [] = refl
  get_elem?-drop (suc k) i (x ∷ xs) =
      get_elem?-drop k i xs ∙ elem_at (x ∷ xs) (suc (k + i)) (suc k + i) (omega arith)

  get_elem?-take : (k i : ℕ) (xs : List A) → i < k → get_elem? (take k xs) i ≡ get_elem? xs i
  get_elem?-take zero i xs h = absurd (omega arith)
  get_elem?-take (suc k) i [] h = refl
  get_elem?-take (suc k) zero (x ∷ xs) h = refl
  get_elem?-take (suc k) (suc i) (x ∷ xs) h = get_elem?-take k i xs (omega arith)

  get_elem?-append_left :
      (xs ys : List A) (i : ℕ) → i < length xs → get_elem? (xs ++ ys) i ≡ get_elem? xs i
  get_elem?-append_left [] ys i h = absurd (omega arith)
  get_elem?-append_left (x ∷ xs) ys zero h = refl
  get_elem?-append_left (x ∷ xs) ys (suc i) h = get_elem?-append_left xs ys i (omega arith)

  get_elem?-append_right :
      (xs ys : List A) (i : ℕ) → get_elem? (xs ++ ys) (length xs + i) ≡ get_elem? ys i
  get_elem?-append_right [] ys i = elem_at ys (0 + i) i (omega arith)
  get_elem?-append_right (x ∷ xs) ys i =
      elem_at (x ∷ (xs ++ ys)) (suc (length xs) + i) (suc (length xs + i)) (omega arith)
      ∙ get_elem?-append_right xs ys i

  drop-get_elem? :
      (xs : List A) (i : ℕ) (x : A) → get_elem? xs i ≡ some x → drop i xs ≡ x ∷ drop (suc i) xs
  drop-get_elem? [] i x e = cc
  drop-get_elem? (y ∷ xs) zero x e = ap (λ z. z ∷ xs) (some-injective y x e)
  drop-get_elem? (y ∷ xs) (suc i) x e = drop-get_elem? xs i x e

  -- The list from its k-th element on, and then the elements before.
  pub rotate : ℕ → List A → List A
  rotate k xs = drop k xs ++ take k xs

  length-rotate : (k : ℕ) (xs : List A) → length (rotate k xs) ≡ length xs
  unfolding rotate
  length-rotate k xs =
      length-append (drop k xs) (take k xs) ∙ omega (arith, length-take k xs, length-drop k xs)

  drop-all : (xs : List A) (k : ℕ) → length xs ≤ k → drop k xs ≡ []
  drop-all [] zero h = refl
  drop-all [] (suc k) h = refl
  drop-all (x ∷ xs) zero h = absurd (omega arith)
  drop-all (x ∷ xs) (suc k) h = drop-all xs k (omega arith)

  get_elem?-rotate :
      (k i : ℕ) (xs : List A)
      → k < length xs
      → i < length xs
      → get_elem? (rotate k xs) i ≡ get_elem? xs ((k + i) % length xs)
  unfolding rotate
  get_elem?-rotate k i xs hk hi = elim (dec_lt (k + i) (length xs)) [
    | yes h ↦
        get_elem?-append_left (drop k xs) (take k xs) i (omega (arith, length-drop k xs))
        ∙ get_elem?-drop k i xs
        ∙ elem_at xs (k + i) ((k + i) % length xs) (sym (mod-eq_of_lt h))
    | no h ↦
        elem_at (drop k xs ++ take k xs) i (length (drop k xs) + (k + i - length xs))
          (omega (arith, length-drop k xs))
        ∙ get_elem?-append_right (drop k xs) (take k xs) (k + i - length xs)
        ∙ get_elem?-take k (k + i - length xs) xs (omega arith)
        ∙ elem_at xs (k + i - length xs) ((k + i) % length xs)
            (sym (mod-eq-sub-mod {n = k + i} (omega arith) ∙ mod-eq_of_lt (omega arith)))
  ]

  get_elem?-here : (xs : List A) (i : ℕ) → i < length xs → ((x : A) × (get_elem? xs i ≡ some x))
  get_elem?-here [] i h = absurd (omega arith)
  get_elem?-here (x ∷ xs) zero h = (x, refl)
  get_elem?-here (x ∷ xs) (suc i) h = get_elem?-here xs i (omega arith)

-- The first target that can be reached.
pub first_reached : (Text → Bool) → List Text → Dialed
first_reached dial [] = unreachable
first_reached dial (t ∷ ts) = let rest = first_reached dial ts in if dial t then reached t else rest

index-in_range : (rr i n : ℕ) → rr + i < 2 ^ 63 → index rr i n ≡ some ((rr + i) % n)
unfolding index
index-in_range rr i n h = ground arith

dial_loop-suc :
    (dial : Text → Bool) (ts : List Text) (rr i k j : ℕ) (t : Text)
    → index rr i (length ts) ≡ some j
    → get_elem? ts j ≡ some t
    → dial_loop dial ts rr i (suc k)
      ≡ (if dial t then reached t else dial_loop dial ts rr (i + 1) k)
unfolding dial_loop
dial_loop-suc dial ts rr i k j t e f = ground (arith, e, f)

dial_loop-first :
    (dial : Text → Bool) (ts : List Text) (rr i k : ℕ)
    → zero < length ts
    → i + k ≡ length ts
    → rr + length ts ≤ 2 ^ 63
    → dial_loop dial ts rr i k ≡ first_reached dial (drop i (rotate (rr % length ts) ts))
unfolding dial_loop first_reached
dial_loop-first dial ts rr i zero hp hl hr =
    rw (drop-all (rotate (rr % length ts) ts) i (omega (arith, length-rotate (rr % length ts) ts)))
      refl
dial_loop-first dial ts rr i (suc k) hp hl hr =
    let ys = rotate (rr % length ts) ts in
    let there = get_elem?-here ys i (omega (arith, length-rotate (rr % length ts) ts)) in
    let here =
      sym (
        get_elem?-rotate (rr % length ts) i ts (mod-lt rr hp) (omega arith)
        ∙ elem_at ts ((rr % length ts + i) % length ts) ((rr + i) % length ts)
            (mod-add-mod rr (length ts) i))
      ∙ there.1 in
    dial_loop-suc dial ts rr i k ((rr + i) % length ts) there.0
      (index-in_range rr i (length ts) (omega arith)) here
    ∙ ap (λ z. if dial there.0 then reached there.0 else z)
        (ap (λ z. dial_loop dial ts rr z k) {x = i + 1} {y = suc i} (omega arith)
          ∙ dial_loop-first dial ts rr (suc i) k hp (omega arith) hr)
    ∙ ap (first_reached dial) (sym (drop-get_elem? ys i there.0 there.1))

-- What one call returns for the parsed list.
Turns : (Text → Bool) → Text → ℕ → List Text → Type 0
Turns dial target rr ts =
    dial_balanced dial target rr ≡ (first_reached dial (rotate (rr % length ts) ts), rr + 1)

turns :
    (dial : Text → Bool) (target : Text) (rr : ℕ) (ts : List Text)
    → parse_targets target ≡ ts
    → zero < length ts
    → rr + length ts ≤ 2 ^ 63
    → Turns dial target rr ts
unfolding Turns dial_balanced
turns dial target rr [] e hp hr = absurd (omega arith)
turns dial target rr (t ∷ ts) e hp hr =
    ground (arith, e, dial_loop-first dial (t ∷ ts) rr 0 (length (t ∷ ts)) hp (omega arith) hr)

-- With at least one target, and while the counter and the number of targets together are at most
-- 2^63, the dial reaches the first target that can be reached of the list that starts at the
-- counter's turn and wraps around once, or none if none can be, and the counter is one more.
pub dial_balanced-first :
    (dial : Text → Bool) (target : Text) (rr : ℕ)
    → zero < length (parse_targets target)
    → rr + length (parse_targets target) ≤ 2 ^ 63
    → dial_balanced dial target rr ≡ (
      first_reached dial (rotate (rr % length (parse_targets target)) (parse_targets target)),
      rr + 1,
    )
unfolding Turns
dial_balanced-first dial target rr hp hr = turns dial target rr (parse_targets target) refl hp hr
