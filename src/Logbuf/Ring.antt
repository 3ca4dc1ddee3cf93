-- ===== src/Logbuf/Ring.antt =====
-- logbuf/logbuf.go: the ring of the last log lines.
use caochuan.Base.{
  ℕ, ◌-◌, ◌<◌, min, ◌≡◌, refl, sym, ap, ◌∙◌, inl, inr, ◌||◌, List, [], ◌∷◌, ◌++◌, arith, dec_lt,
  ℕ_discrete, ltb, ◌==◌, if◌then◌else◌, Bool-cases, length, drop,
}
use mathlib.Core.List.{append-nil, append_assoc}
use caochuan.Base.Text.{Text}
use caochuan.Base.Recent.{push, last, push-last_last, last-of-last, drop-nil}

abbrev pub newline : ℕ
newline = 10

pub record Ring : Type 0 where
  pub lines : List Text
  pub max : ℕ

-- `strings.TrimRight(s, "\n")`
unfoldable pub trim_newlines : Text → Text
trim_newlines [] = []
trim_newlines (c ∷ s) = elim (trim_newlines s) [
  | [] ↦ if c == newline then [] else c ∷ []
  | d ∷ rest ↦ c ∷ d ∷ rest
]

-- `strings.SplitSeq(s, "\n")`
abbrev pub on_first : ℕ → List Text → List Text
on_first c [] = (c ∷ []) ∷ []
on_first c (w ∷ ws) = (c ∷ w) ∷ ws

unfoldable pub split_lines : Text → List Text
split_lines [] = [] ∷ []
split_lines (c ∷ s) =
    let rest = split_lines s in if c == newline then [] ∷ rest else on_first c rest

-- The loop of `Write`: an empty line is skipped.
unfoldable pub add_lines : List Text → Ring → Ring
add_lines [] r = r
add_lines ([] ∷ ls) r = add_lines ls r
add_lines ((c ∷ l) ∷ ls) r = add_lines ls (record r { lines = push r.max r.lines (c ∷ l) })

-- `Ring.Write`
unfoldable pub write_ring : Text → Ring → Ring
write_ring p r = add_lines (split_lines (trim_newlines p)) r

-- `Ring.Tail`, for an `n` that is not negative; zero asks for all lines.
unfoldable pub tail : ℕ → Ring → List Text
tail n r =
    let len = length r.lines in
    let k = if n == 0 || ltb len n then len else n in drop (len - k) r.lines

unfoldable pub write_all : List Text → Ring → Ring
write_all [] r = r
write_all (p ∷ ps) r = write_all ps (write_ring p r)

-- The lines with something in them, in order.
unfoldable pub solid : List Text → List Text
solid [] = []
solid ([] ∷ ls) = solid ls
solid ((c ∷ l) ∷ ls) = (c ∷ l) ∷ solid ls

unfoldable pub logged : List Text → List Text
logged [] = []
logged (p ∷ ps) = solid (split_lines (trim_newlines p)) ++ logged ps

add_lines-last :
    (ls : List Text) (max : ℕ) (xs : List Text)
    → add_lines ls (record { lines = last max xs; max = max })
      ≡ record { lines = last max (xs ++ solid ls); max = max }
unfolding add_lines solid
add_lines-last [] max xs = ap (λ z. record { lines = last max z; max = max }) (sym (append-nil xs))
add_lines-last ([] ∷ ls) max xs = add_lines-last ls max xs
add_lines-last ((c ∷ l) ∷ ls) max xs =
    ap (λ z. add_lines ls (record { lines = z; max = max })) (push-last_last max xs (c ∷ l))
    ∙ add_lines-last ls max (xs ++ ((c ∷ l) ∷ []))
    ∙ ap (λ z. record { lines = last max z; max = max }) (append_assoc xs ((c ∷ l) ∷ []) (solid ls))

write_all-last :
    (ps : List Text) (max : ℕ) (xs : List Text)
    → write_all ps (record { lines = last max xs; max = max })
      ≡ record { lines = last max (xs ++ logged ps); max = max }
unfolding write_all logged write_ring
write_all-last [] max xs = ap (λ z. record { lines = last max z; max = max }) (sym (append-nil xs))
write_all-last (p ∷ ps) max xs =
    let ls = split_lines (trim_newlines p) in
    ap (write_all ps) (add_lines-last ls max xs)
    ∙ write_all-last ps max (xs ++ solid ls)
    ∙ ap (λ z. record { lines = last max z; max = max }) (append_assoc xs (solid ls) (logged ps))

no_drop : (k : ℕ) (xs : List Text) → drop (k - k) xs ≡ xs
no_drop k xs = ap (λ z. drop z xs) {x = k - k} {y = 0} (omega arith)

both_zero : (k n : ℕ) → k < n → k - k ≡ k - n
both_zero k n h = omega arith

tail-lines : (n : ℕ) (r : Ring) → tail n r ≡ (if n == 0 then r.lines else last n r.lines)
unfolding tail
tail-lines n r = elim (ℕ_discrete n 0) [
  | yes e ↦ ground (arith, no_drop (length r.lines) r.lines)
  | no h ↦ elim (dec_lt (length r.lines) n) [
    | yes l ↦ ground (arith, ap (λ z. drop z r.lines) (both_zero (length r.lines) n l))
    | no g ↦ ground arith
  ]
]

-- After any writes into an empty ring, `Tail` of a number that is not zero gives the last lines that
-- were logged, as many as were asked for and as the ring keeps; a zero gives all that it keeps.
pub tail-write_all :
    (ps : List Text) (max n : ℕ)
    → tail n (write_all ps (record { lines = []; max = max }))
      ≡ last (if n == 0 then max else min n max) (logged ps)
tail-write_all ps max n =
    tail-lines n (write_all ps (record { lines = []; max = max }))
    ∙ ap (λ (r : Ring). if n == 0 then r.lines else last n r.lines)
        (ap (λ z. write_all ps (record { lines = z; max = max })) (sym (drop-nil (0 - max)))
          ∙ write_all-last ps max [])
    ∙ elim (Bool-cases (n == 0)) [
      | inl e ↦ rw e refl
      | inr e ↦ rw e (last-of-last n max (logged ps))
    ]
