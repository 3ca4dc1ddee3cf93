-- ===== src/Relay/Targets/Clean.antt =====
-- relay/proxyproto.go: what `ParseTargets` gives, and which lists it gives back.
use caochuan.Base.{
  ℕ, ◌≡◌, refl, ap, ◌∙◌, ◌≢◌, inl, inr, Bool, true, false, not, ◌&&◌, List, [], ◌∷◌, ◌++◌, arith,
  ◌==◌, Bool-cases, All,
}
use caochuan.Base.Text.{Text}
use caochuan.Relay.Targets.{
  is_space, comma, extend, split, trim_left, trim_right, trim_space, keep, collect, parse_targets,
}

abbrev pub comma_free : Text → Bool
comma_free [] = true
comma_free (c ∷ s) = not (c == comma) && comma_free s

-- An address as the panel shows it: not empty, no comma, no space at either end.
pub record IsClean (t : Text) : Type 0 where
  pub filled : t ≢ []
  pub whole : comma_free t ≡ true
  pub trimmed : trim_space t ≡ t

trim_right_idem : (s : Text) → trim_right (trim_right s) ≡ trim_right s
unfolding trim_right
trim_right_idem [] = refl
trim_right_idem (c ∷ s) = keep_again (trim_right s) (trim_right_idem s)
  where
    keep_again : (t : Text) → trim_right t ≡ t → trim_right (keep c t) ≡ keep c t
    keep_again [] e = ground arith
    keep_again (d ∷ t) e = ground arith

abbrev starts_with_space : Text → Bool
starts_with_space [] = false
starts_with_space (c ∷ s) = is_space c

trim_left-start : (s : Text) → starts_with_space (trim_left s) ≡ false
unfolding trim_left
trim_left-start [] = refl
trim_left-start (c ∷ s) = ground (arith, trim_left-start s)

trim_left-fixed : (s : Text) → starts_with_space s ≡ false → trim_left s ≡ s
unfolding trim_left
trim_left-fixed [] h = refl
trim_left-fixed (c ∷ s) h = ground arith

keep-start : (c : ℕ) (t : Text) → is_space c ≡ false → starts_with_space (keep c t) ≡ false
unfolding keep
keep-start c [] h = ground arith
keep-start c (d ∷ t) h = h

trim_right-start :
    (s : Text) → starts_with_space s ≡ false → starts_with_space (trim_right s) ≡ false
unfolding trim_right
trim_right-start [] h = refl
trim_right-start (c ∷ s) h = keep-start c (trim_right s) h

trim_space_idem : (s : Text) → trim_space (trim_space s) ≡ trim_space s
unfolding trim_space
trim_space_idem s =
    rw
      (trim_left-fixed (trim_right (trim_left s))
        (trim_right-start (trim_left s) (trim_left-start s)))
      (trim_right_idem (trim_left s))

trim_left-comma_free : (s : Text) → comma_free s ≡ true → comma_free (trim_left s) ≡ true
unfolding trim_left
trim_left-comma_free [] h = refl
trim_left-comma_free (c ∷ s) h = ground (arith, trim_left-comma_free s)

keep-comma_free :
    (c : ℕ) (t : Text) → (c == comma) ≡ false → comma_free t ≡ true → comma_free (keep c t) ≡ true
unfolding keep
keep-comma_free c [] h k = ground arith
keep-comma_free c (d ∷ t) h k = ground arith

trim_right-comma_free : (s : Text) → comma_free s ≡ true → comma_free (trim_right s) ≡ true
unfolding trim_right
trim_right-comma_free [] h = refl
trim_right-comma_free (c ∷ s) h =
    ground (arith, trim_right-comma_free s, keep-comma_free c (trim_right s))

abbrev CommaFree : Text → Type 0
CommaFree t = comma_free t ≡ true

extend-CommaFree :
    (c : ℕ) (ws : List Text) → (c == comma) ≡ false → All CommaFree ws → All CommaFree (extend c ws)
extend-CommaFree c [] h k = ground arith
extend-CommaFree c (w ∷ ws) h k = ground arith

split-CommaFree : (s : Text) → All CommaFree (split s)
unfolding split
split-CommaFree [] = (refl, tt)
split-CommaFree (c ∷ s) = elim (Bool-cases (c == comma)) [
  | inl p ↦ rw (p, split) (refl, split-CommaFree s)
  | inr q ↦ rw (q, split) (extend-CommaFree c (split s) q (split-CommaFree s))
]

collect-IsClean : (ts : List Text) → All CommaFree ts → All IsClean (collect ts)
unfolding collect
collect-IsClean [] h = tt
collect-IsClean (t ∷ ts) h = one (trim_space t) (trim_space_idem t) free (collect-IsClean ts h.1)
  where
    free : comma_free (trim_space t) ≡ true
    free = unfold trim_space in trim_right-comma_free (trim_left t) (trim_left-comma_free t h.0)

    one :
        (u : Text)
        → trim_space u ≡ u
        → comma_free u ≡ true
        → All IsClean (collect ts)
        → All IsClean (elim u [ [] ↦ collect ts | c ∷ s ↦ (c ∷ s) ∷ collect ts ])
    one [] e f rest = rest
    one (c ∷ s) e f rest = (record { filled = λ p. cc; whole = f; trimmed = e }, rest)

-- Every target that a text is parsed into is clean: not empty, without a comma, and without white
-- space at its ends.
pub parse_targets-IsClean : (s : Text) → All IsClean (parse_targets s)
unfolding parse_targets
parse_targets-IsClean s = collect-IsClean (split s) (split-CommaFree s)

-- The list as the panel's input field has it: joined by commas.
pub join : List Text → Text
join [] = []
join (t ∷ []) = t
join (t ∷ u ∷ ts) = t ++ (comma ∷ join (u ∷ ts))

split-comma : (t s : Text) → comma_free t ≡ true → split (t ++ (comma ∷ s)) ≡ t ∷ split s
unfolding split
split-comma [] s h = refl
split-comma (c ∷ t) s h = ground (arith, split-comma t s)

split_one : (t : Text) → comma_free t ≡ true → split t ≡ t ∷ []
unfolding split
split_one [] h = refl
split_one (c ∷ t) h = ground (arith, split_one t)

split-join : (t : Text) (ts : List Text) → All IsClean (t ∷ ts) → split (join (t ∷ ts)) ≡ t ∷ ts
unfolding join
split-join t [] h = split_one t h.0.whole
split-join t (u ∷ ts) h = split-comma t (join (u ∷ ts)) h.0.whole ∙ ap (◌∷◌ t) (split-join u ts h.1)

collect_clean : (ts : List Text) → All IsClean ts → collect ts ≡ ts
unfolding collect
collect_clean [] h = refl
collect_clean ([] ∷ ts) h = absurd (h.0.filled refl)
collect_clean ((c ∷ s) ∷ ts) h = rw (h.0.trimmed, collect) (ap (◌∷◌ (c ∷ s)) (collect_clean ts h.1))

-- A list of clean targets is parsed back from its text, in which commas join them, in order.
pub parse_targets-join : (ts : List Text) → All IsClean ts → parse_targets (join ts) ≡ ts
unfolding parse_targets
parse_targets-join [] h = unfold join split collect trim_space trim_left trim_right in refl
parse_targets-join (t ∷ ts) h = rw (split-join t ts h) (collect_clean (t ∷ ts) h)

pub parse_targets_one : (t : Text) → IsClean t → parse_targets t ≡ t ∷ []
unfolding join
parse_targets_one t c = parse_targets-join (t ∷ []) (c, tt)
