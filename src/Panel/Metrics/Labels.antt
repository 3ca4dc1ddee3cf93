-- ===== src/Panel/Metrics/Labels.antt =====
-- panel/metrics.go: what a reader of the metrics makes of a name.
use caochuan.Base.{
  ℕ, ◌+◌, ◌≤◌, ◌≡◌, refl, sym, ap, ◌∙◌, ◌↔◌, inl, inr, Bool, false, ◌||◌, Option, some, [], ◌∷◌,
  arith, ◌==◌, if◌then◌else◌, Bool-cases, length, any,
}
use mathlib.Core.Option.{some-injective}
use caochuan.Base.Text.{Text}
use caochuan.Panel.Metrics.{
  Format, backslash, double_quote, newline, replace_all, sanitize_label, label,
}

-- One pass over the text, character by character.
unfoldable pub escape : Text → Text
escape [] = []
escape (c ∷ s) =
    let rest = escape s in
    if c == backslash
    then backslash ∷ backslash ∷ rest
    else if c == double_quote
    then backslash ∷ double_quote ∷ rest
    else if c == newline
    then backslash ∷ b'n' ∷ rest
    else c ∷ rest

abbrev pub is_special : ℕ → Bool
is_special c = c == backslash || c == double_quote || c == newline

sanitize_label-escape : (s : Text) → sanitize_label s ≡ escape s
unfolding sanitize_label replace_all escape
sanitize_label-escape [] = refl
sanitize_label-escape (c ∷ s) = ground (arith, sanitize_label-escape s)

abbrev one_if : Bool → ℕ
one_if b = if b then 1 else 0

length-escape : (s : Text) → length s + one_if (any is_special s) ≤ length (escape s)
unfolding escape
length-escape [] = omega arith
length-escape (c ∷ s) = ground (arith, length-escape s)

escape-plain : (s : Text) → any is_special s ≡ false → escape s ≡ s
unfolding escape
escape-plain [] h = refl
escape-plain (c ∷ s) h = ground (arith, h, escape-plain s)

plain-escape : (s : Text) → escape s ≡ s → any is_special s ≡ false
plain-escape s e = elim (Bool-cases (any is_special s)) [
  | inr n ↦ n
  | inl y ↦ absurd (omega (arith, length-escape s, ap length e, ap one_if y))
]

-- A reader that undoes the quoting of a label gets the name of the rule or client back exactly if it has
-- no backslash, no double quote and no line break.
pub label-plain :
    (f : Format) (unquote : Text → Option Text) (s : Text)
    → ((t : Text) → unquote (f.quote t) ≡ some t)
    → (unquote (label f s) ≡ some s) ↔ (any is_special s ≡ false)
unfolding label
label-plain f unquote s reads =
    let read = reads (sanitize_label s) ∙ ap some (sanitize_label-escape s) in
    (
      λ e. plain-escape s (some-injective (escape s) s (sym read ∙ e)),
      λ h. read ∙ ap some (escape-plain s h),
    )
