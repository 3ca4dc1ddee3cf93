-- ===== src/Relay/Targets.antt =====
-- relay/proxyproto.go: `ParseTargets`, with `strings.Split` and `strings.TrimSpace`.
pub mod Clean
use caochuan.Base.{ℕ, Bool, ◌&&◌, ◌||◌, List, [], ◌∷◌, leb, ◌==◌, if◌then◌else◌}
use caochuan.Base.Text.{Text}

-- `unicode.IsSpace`
unfoldable pub is_space : ℕ → Bool
is_space c =
    (leb 9 c && leb c 13)
    || c == 32
    || c == 0x85
    || c == 0xa0
    || c == 0x1680
    || (leb 0x2000 c && leb c 0x200a)
    || c == 0x2028
    || c == 0x2029
    || c == 0x202f
    || c == 0x205f
    || c == 0x3000

abbrev pub comma : ℕ
comma = b','

-- One more code point in front of the first part.
abbrev extend : ℕ → List Text → List Text
extend c [] = (c ∷ []) ∷ []
extend c (w ∷ ws) = (c ∷ w) ∷ ws

-- `strings.Split(s, ",")`
unfoldable pub split : Text → List Text
split [] = [] ∷ []
split (c ∷ s) = let rest = split s in if c == comma then [] ∷ rest else extend c rest

unfoldable pub trim_left : Text → Text
trim_left [] = []
trim_left (c ∷ s) = if is_space c then trim_left s else c ∷ s

-- A code point in front of a text that is trimmed at its right end.
unfoldable pub keep : ℕ → Text → Text
keep c [] = if is_space c then [] else c ∷ []
keep c (d ∷ s) = c ∷ d ∷ s

unfoldable pub trim_right : Text → Text
unfolding keep
trim_right [] = []
trim_right (c ∷ s) = keep c (trim_right s)

-- `strings.TrimSpace`
unfoldable pub trim_space : Text → Text
trim_space s = trim_right (trim_left s)

-- The loop of `ParseTargets`.
unfoldable pub collect : List Text → List Text
collect [] = []
collect (t ∷ ts) = elim (trim_space t) [ [] ↦ collect ts | c ∷ s ↦ (c ∷ s) ∷ collect ts ]

-- `ParseTargets`
unfoldable pub parse_targets : Text → List Text
parse_targets s = collect (split s)
