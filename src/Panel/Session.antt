-- ===== src/Panel/Session.antt =====
-- panel/panel.go: the cookie of a login, `sign`, `setSession` and `validSession`.
--
-- `Codec` is `fmt` and `strconv` on an `int64`; `mac` is the hexadecimal text of the HMAC of a time of
-- expiry under the panel's secret. Times are in seconds.
pub mod Signed
use caochuan.Base.{ℕ, ◌+◌, Bool, false, Option, none, some, [], ◌∷◌, ◌++◌, ◌==◌, if◌then◌else◌}
use caochuan.Base.Int.{ℤ, pos, ltb_ℤ}
use caochuan.Base.Text.{Text, text_eq}

pub record Codec : Type 0 where
  pub print : ℤ → Text
  pub parse : Text → Option ℤ

-- `sessionTTL`
abbrev pub session_ttl : ℕ
session_ttl = 86_400

-- `strings.SplitN(v, "|", 2)`: the parts before and after the first bar, if there is one.
unfoldable pub split_bar : Text → Option (Text × Text)
split_bar [] = none
split_bar (c ∷ cs) =
    let rest = split_bar cs in
    if c == b'|' then some ([], cs) else elim rest [ none ↦ none | some p ↦ some (c ∷ p.0, p.1) ]

module _ (codec : Codec) (mac : ℤ → Text) where
  -- The value of the cookie that `setSession` sets.
  unfoldable pub set_session : ℕ → Text
  set_session now = let exp = pos (now + session_ttl) in codec.print exp ++ (b'|' ∷ mac exp)

  -- `validSession`
  unfoldable pub valid_session : ℕ → Option Text → Bool
  valid_session now cookie = elim cookie [
    | none ↦ false
    | some v ↦ elim (split_bar v) [
      | none ↦ false
      | some p ↦ elim (codec.parse p.0) [
        | none ↦ false
        | some exp ↦ if ltb_ℤ exp (pos now) then false else text_eq p.1 (mac exp)
      ]
    ]
  ]

-- The cookie that `handleLogout` sets.
abbrev pub logged_out : Text
logged_out = []
