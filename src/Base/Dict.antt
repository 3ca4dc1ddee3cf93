-- ===== src/Base/Dict.antt =====
-- A Go map with string keys, as an association list.
use Prim.Native.Nat.{◌+◌}
use Prim.Native.String.{String}
use mathlib.Core.Path.{◌≡◌, refl, ap, subst}
use mathlib.Core.Bool.{Bool, true, false}
use mathlib.Core.List.{List, [], ◌∷◌}
use mathlib.Core.Option.{Option, none, some}
use native.Mathlib.Omega.{arith}
use caochuan.Base.Tests.{if◌then◌else◌, str_eq, String-discrete}
use caochuan.Base.Lists.{length}

abbrev pub Dict {ℓ} : Type ℓ → Type ℓ
Dict V = List (String × V)

module _ {ℓ} {V : Type ℓ} where
  abbrev pub lookup : String → Dict V → Option V
  lookup k [] = none
  lookup k ((j, v) ∷ m) = if str_eq j k then some v else lookup k m

  -- `_, ok := m[k]`
  abbrev pub contains : String → Dict V → Bool
  contains k m = elim (lookup k m) [ none ↦ false | some _ ↦ true ]

  -- `m[k] = v`
  abbrev pub insert : String → V → Dict V → Dict V
  insert k v [] = (k, v) ∷ []
  insert k v ((j, w) ∷ m) = if str_eq j k then (j, v) ∷ m else (j, w) ∷ insert k v m

  -- `delete(m, k)`
  abbrev pub erase : String → Dict V → Dict V
  erase k [] = []
  erase k ((j, w) ∷ m) = if str_eq j k then erase k m else (j, w) ∷ erase k m

  pub lookup-insert :
      (k j : String) (v : V) (m : Dict V)
      → lookup j (insert k v m) ≡ (if str_eq k j then some v else lookup j m)
  lookup-insert k j v [] = refl
  lookup-insert k j v ((i, w) ∷ m) = ground (arith, lookup-insert k j v m)

  pub lookup-erase :
      (k j : String) (m : Dict V) → lookup j (erase k m) ≡ (if str_eq k j then none else lookup j m)
  lookup-erase k j [] = ground arith
  lookup-erase k j ((i, w) ∷ m) = ground (arith, lookup-erase k j m)

module _ {ℓ} {V : Type ℓ} where
  -- No key is listed twice.
  abbrev pub Distinct : Dict V → Type ℓ
  Distinct [] = Unit
  Distinct ((k, v) ∷ m) = (lookup k m ≡ none) × Distinct m

  pub insert-Distinct : (k : String) (v : V) (m : Dict V) → Distinct m → Distinct (insert k v m)
  insert-Distinct k v [] d = (refl, tt)
  insert-Distinct k v ((j, u) ∷ m) (h, d) = elim (String-discrete j k) [
    | yes e ↦ ground (arith, e, h, d)
    | no n ↦ ground (arith, n, h, insert-Distinct k v m d, lookup-insert k j v m)
  ]

  pub length-insert :
      (k : String) (v : V) (m : Dict V)
      → length (insert k v m) ≡ (if contains k m then length m else length m + 1)
  length-insert k v [] = refl
  length-insert k v ((j, u) ∷ m) = elim (String-discrete j k) [
    | yes e ↦ ground (arith, e)
    | no n ↦ ground (arith, n, length-insert k v m)
  ]

  erase-absent : (k : String) (m : Dict V) → lookup k m ≡ none → erase k m ≡ m
  erase-absent k [] h = refl
  erase-absent k ((j, u) ∷ m) h = ground (arith, h, erase-absent k m)

  pub erase-Distinct : (k : String) (m : Dict V) → Distinct m → Distinct (erase k m)
  erase-Distinct k [] d = tt
  erase-Distinct k ((j, u) ∷ m) (h, d) = elim (String-discrete j k) [
    | yes e ↦ subst Distinct (ground (arith, e)) (erase-Distinct k m d)
    | no n ↦ ground (arith, n, h, erase-Distinct k m d, lookup-erase k j m)
  ]

  pub length-erase :
      (k : String) (m : Dict V)
      → Distinct m
      → length m ≡ (if contains k m then length (erase k m) + 1 else length (erase k m))
  length-erase k [] d = refl
  length-erase k ((j, u) ∷ m) (h, d) = elim (String-discrete j k) [
    | yes e ↦ ground (arith, e, h, erase-absent k m)
    | no n ↦ ground (arith, n, length-erase k m d)
  ]

  -- The entries whose key passes a test.
  abbrev pub restrict : (String → Bool) → Dict V → Dict V
  restrict p [] = []
  restrict p ((k, v) ∷ m) = if p k then (k, v) ∷ restrict p m else restrict p m

  pub lookup-restrict :
      (p : String → Bool) (j : String) (m : Dict V)
      → lookup j (restrict p m) ≡ (if p j then lookup j m else none)
  lookup-restrict p j [] = ground arith
  lookup-restrict p j ((k, v) ∷ m) = elim (String-discrete k j) [
    | yes e ↦ ground (arith, lookup-restrict p j m, ap p e)
    | no e ↦ ground (arith, lookup-restrict p j m)
  ]

module _ {ℓ κ} {V : Type ℓ} {W : Type κ} where
  abbrev pub map_values : (V → W) → Dict V → Dict W
  map_values f [] = []
  map_values f ((k, v) ∷ m) = (k, f v) ∷ map_values f m
