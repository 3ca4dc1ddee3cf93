-- ===== src/Base/Recent.antt =====
-- The last elements of a list, which the ring of log lines and the traffic history keep.
use Prim.Native.Nat.{ℕ, zero, suc, ◌+◌, ◌-◌, ◌≤◌, min}
use mathlib.Core.Logic.{inl, inr}
use mathlib.Core.Bool.{false}
use mathlib.Core.Path.{◌≡◌, refl, ap, sym, ◌∙◌}
use mathlib.Core.List.{List, [], ◌∷◌, ◌++◌}
use mathlib.Core.List.{append-nil, append_assoc}
use native.Mathlib.Omega.{arith}
use caochuan.Base.Tests.{if◌then◌else◌, ltb, Bool-cases}
use caochuan.Base.Lists.{length, drop, length-append, length-drop}

not_less : (n m : ℕ) → ltb n m ≡ false → m - n ≡ zero
not_less n m e = ground arith

module _ {ℓ} {A : Type ℓ} where
  -- Go's `xs[len(xs)-n:]`, of a list that may be shorter.
  abbrev pub last : ℕ → List A → List A
  last n xs = drop (length xs - n) xs

  -- `append`, and the slice that cuts what is too much.
  abbrev pub push : ℕ → List A → A → List A
  push n xs x =
      let all = xs ++ (x ∷ []) in if ltb n (length all) then drop (length all - n) all else all

  abbrev pub push_all : ℕ → List A → List A → List A
  push_all n xs [] = xs
  push_all n xs (y ∷ ys) = push_all n (push n xs y) ys

  drop_none : (k : ℕ) (xs : List A) → k ≡ zero → drop k xs ≡ xs
  drop_none zero xs e = refl
  drop_none (suc k) xs e = absurd (omega arith)

  pub drop-nil : (k : ℕ) → drop {A = A} k [] ≡ []
  drop-nil zero = refl
  drop-nil (suc k) = refl

  drop-drop : (j k : ℕ) (xs : List A) → drop j (drop k xs) ≡ drop (k + j) xs
  drop-drop j zero xs = ap (λ z. drop z xs) {x = j} {y = 0 + j} (omega arith)
  drop-drop j (suc k) [] = drop-nil j ∙ sym (drop-nil (suc k + j))
  drop-drop j (suc k) (x ∷ xs) =
      drop-drop j k xs ∙ ap (λ z. drop z (x ∷ xs)) {x = suc (k + j)} {y = suc k + j} (omega arith)

  drop-left : (k : ℕ) (xs ys : List A) → k ≤ length xs → drop k (xs ++ ys) ≡ drop k xs ++ ys
  drop-left zero xs ys h = refl
  drop-left (suc k) [] ys h = absurd (omega arith)
  drop-left (suc k) (x ∷ xs) ys h = drop-left k xs ys (omega arith)

  push-last : (n : ℕ) (xs : List A) (x : A) → push n xs x ≡ last n (xs ++ (x ∷ []))
  push-last n xs x = elim (Bool-cases (ltb n (length (xs ++ (x ∷ []))))) [
    | inl e ↦ rw e refl
    | inr e ↦ rw e (sym (drop_none _ (xs ++ (x ∷ [])) (not_less n (length (xs ++ (x ∷ []))) e)))
  ]

  -- Cutting before an append, or only after it.
  pub last-last : (n : ℕ) (xs ys : List A) → last n (last n xs ++ ys) ≡ last n (xs ++ ys)
  last-last n xs ys =
      ap (drop (length (last n xs ++ ys) - n)) (sym (drop-left (length xs - n) xs ys (omega arith)))
      ∙ drop-drop (length (last n xs ++ ys) - n) (length xs - n) (xs ++ ys)
      ∙ ap (λ z. drop z (xs ++ ys)) {x = length xs - n + (length (last n xs ++ ys) - n)}
          {y = length (xs ++ ys) - n}
          (omega (
            arith,
            length-append (last n xs) ys,
            length-drop (length xs - n) xs,
            length-append xs ys,
          ))

  pub push-last_last :
      (n : ℕ) (xs : List A) (y : A) → push n (last n xs) y ≡ last n (xs ++ (y ∷ []))
  push-last_last n xs y = push-last n (last n xs) y ∙ last-last n xs (y ∷ [])

  pub last-of-last : (k n : ℕ) (xs : List A) → last k (last n xs) ≡ last (min k n) xs
  last-of-last k n xs =
      drop-drop (length (last n xs) - k) (length xs - n) xs
      ∙ ap (λ z. drop z xs) {x = length xs - n + (length (last n xs) - k)} {y = length xs - min k n}
          (omega (arith, length-drop (length xs - n) xs))

  pub push_all-last : (n : ℕ) (xs ys : List A) → push_all n (last n xs) ys ≡ last n (xs ++ ys)
  push_all-last n xs [] = ap (last n) (sym (append-nil xs))
  push_all-last n xs (y ∷ ys) =
      ap (λ z. push_all n z ys) (push-last_last n xs y)
      ∙ push_all-last n (xs ++ (y ∷ [])) ys
      ∙ ap (last n) (append_assoc xs (y ∷ []) ys)
