-- ===== src/Panel/Session/Signed.antt =====
-- panel/panel.go: which cookies are taken for a login.
use caochuan.Base.{
  ℕ, ◌+◌, ◌≡◌, ap, ◌∙◌, inl, inr, true, false, Option, none, some, [], ◌∷◌, ◌++◌, arith, leb, ◌==◌,
  Bool-cases, Option-cases, All,
}
use caochuan.Base.Int.{ℤ, pos, ltb_ℤ, ◌≤ℤ◌}
use caochuan.Base.Text.{Text, text_eq_sound, text_eq_refl}
use caochuan.Panel.Session.{Codec, session_ttl, split_bar, set_session, valid_session}

split_bar-join :
    (xs ys : Text)
    → All (λ c. (c == b'|') ≡ false) xs
    → split_bar (xs ++ (b'|' ∷ ys)) ≡ some (xs, ys)
unfolding split_bar
split_bar-join [] ys h = ground arith
split_bar-join (x ∷ xs) ys h = ground (arith, h.0, split_bar-join xs ys h.1)

split_bar_sound : (v xs ys : Text) → split_bar v ≡ some (xs, ys) → v ≡ xs ++ (b'|' ∷ ys)
unfolding split_bar
split_bar_sound [] xs ys e = cc
split_bar_sound (c ∷ cs) xs ys e = elim (Bool-cases (c == b'|')) [
  | inl b ↦ ground (arith, b, e)
  | inr b ↦ elim (Option-cases (split_bar cs)) [
    | inl f ↦ absurd (ground (arith, b, f, e))
    | inr (p, f) ↦ ground (arith, b, f, e, split_bar_sound cs p.0 p.1 f)
  ]
]

module _ (codec : Codec) (mac : ℤ → Text) where
  -- A cookie is taken only if it is some text, a bar, and the signature of a time of expiry that the text
  -- says and that has not passed.
  pub valid_session-Signed :
      (now : ℕ) (cookie : Option Text)
      → valid_session codec mac now cookie ≡ true
      → (text : Text) × (exp : ℤ) × (cookie ≡ some (text ++ (b'|' ∷ mac exp)))
        × (codec.parse text ≡ some exp)
        × (pos now ≤ℤ exp)
  unfolding valid_session
  valid_session-Signed now none e = cc
  valid_session-Signed now (some v) e = elim (Option-cases (split_bar v)) [
    | inl f ↦ absurd (ground (arith, f, e))
    | inr (p, f) ↦ elim (Option-cases (codec.parse p.0)) [
      | inl g ↦ absurd (ground (arith, f, g, e))
      | inr (exp, g) ↦ elim (Bool-cases (ltb_ℤ exp (pos now))) [
        | inl h ↦ absurd (ground (arith, f, g, h, e))
        | inr h ↦
            let same = text_eq_sound p.1 (mac exp) (ground (arith, f, g, h, e)) in
            (
              p.0,
              exp,
              ap some (split_bar_sound v p.0 p.1 f ∙ ap (λ (s : Text). p.0 ++ (b'|' ∷ s)) same),
              g,
              ground (arith, h),
            )
      ]
    ]
  ]

  -- The cookie that a login sets is taken up to 24 hours later, the last second included, and not after it,
  -- if numbers are read back from their texts, which have no bar.
  pub valid_session-set_session :
      (now later : ℕ)
      → codec.parse (codec.print (pos (now + session_ttl))) ≡ some (pos (now + session_ttl))
      → All (λ c. (c == b'|') ≡ false) (codec.print (pos (now + session_ttl)))
      → valid_session codec mac later (some (set_session codec mac now))
        ≡ leb later (now + session_ttl)
  unfolding valid_session set_session
  valid_session-set_session now later back clean =
      let exp = pos (now + session_ttl) in
      rw (valid_session, split_bar-join (codec.print exp) (mac exp) clean, back)
        (ground (arith, text_eq_refl (mac exp)))
