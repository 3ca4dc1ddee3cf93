-- ===== src/Panel/Tests.antt =====
-- panel/panel.go: logins on concrete inputs.
use caochuan.Base.{
  ℕ, ◌+◌, ◌-◌, ◌≡◌, refl, ◌≢◌, true, false, none, some, [], ◌∷◌, ◌++◌, arith, String-discrete,
}
use caochuan.Base.Int.{ℤ, pos, pos_part, ◌≤ℤ◌}
use caochuan.Base.Text.{Text, text_eq}
use caochuan.Panel.Session.{Codec, split_bar, set_session, valid_session, logged_out}
use caochuan.Panel.Session.Signed.{valid_session-Signed}
use caochuan.Config.Fixtures.{some_netip}
use caochuan.Server.Fixtures.{live}
use caochuan.Server.Access.{ip_allowed, is_banned}
use caochuan.Panel.Login.{Panel, Host, welcome, handle_login}
use caochuan.Panel.Login.Guard.{IsGuess, guesses, handle_login-guesses}

abbrev at : ℕ → Host
at now = record { netip = some_netip; parse_addr_port = λ t. none; local = []; now = now }

abbrev fresh : Panel
fresh = record { no_auth = false; fails = [] }

at-IsGuess : (now : ℕ) → IsGuess live "127.0.0.1" (at now, "wrong")
unfolding ip_allowed is_banned String-discrete
at-IsGuess now = record { allowed = refl; wrong = refl }

handle_login-guesses_example :
    (handle_login (at 20) live "127.0.0.1" (some "secret") (
      guesses live "127.0.0.1"
        ((at 1, "wrong")
          ∷ (at 2, "wrong")
          ∷ (at 3, "wrong")
          ∷ (at 4, "wrong")
          ∷ (at 5, "wrong")
          ∷ [])
        fresh)).0
    ≢ welcome
handle_login-guesses_example =
    handle_login-guesses (at 1) "wrong"
      ((at 2, "wrong") ∷ (at 3, "wrong") ∷ (at 4, "wrong") ∷ (at 5, "wrong") ∷ []) live "127.0.0.1"
      fresh (at 20) (some "secret") refl refl
      (at-IsGuess 1, (at-IsGuess 2, (at-IsGuess 3, (at-IsGuess 4, (at-IsGuess 5, tt)))))
      (omega arith) (omega arith)

-- A number is one character, from 1000 on.
abbrev codec : Codec
codec = record {
  print = λ n. (1000 + pos_part n) ∷ [];
  parse = λ t. elim t [ [] ↦ none | c ∷ _ ↦ some (pos (c - 1000)) ];
}

abbrev mac : ℤ → Text
mac n = (7 + pos_part n) ∷ []

accepted : valid_session codec mac 60 (some (set_session codec mac 50)) ≡ true
unfolding valid_session set_session split_bar text_eq
accepted = refl

valid_session-Signed_example :
    (text : Text) × (exp : ℤ) × (some (set_session codec mac 50) ≡ some (text ++ (b'|' ∷ mac exp)))
    × (codec.parse text ≡ some exp)
    × (pos 60 ≤ℤ exp)
valid_session-Signed_example =
    valid_session-Signed codec mac 60 (some (set_session codec mac 50)) accepted

logged_out_test : valid_session codec mac 60 (some logged_out) ≡ false
unfolding valid_session split_bar
logged_out_test = refl
