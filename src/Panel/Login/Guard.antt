-- ===== src/Panel/Login/Guard.antt =====
-- panel/panel.go: who gets past the login, and when an address is locked.
use caochuan.Base.{
  ℕ, ◌+◌, ◌≤◌, ◌<◌, String, ◌≡◌, refl, ap, ◌∙◌, ◌≢◌, ◌↔◌, true, false, Option, none, some, List, [],
  ◌∷◌, arith, length, All,
}
use caochuan.Base.Dict.{Dict, lookup, lookup-insert}
use caochuan.Server.State.{Server, AuthFail}
use caochuan.Panel.Login.{
  Panel, Host, may_visit, welcome, fail_block_for, max_fails, is_stale, sweep_fails, check_password,
  track_of, count_fail, is_blocked, try_password, handle_login,
}

-- What a login needs to succeed: an address that is allowed and not locked, and the password.
pub record MayEnter (w : Host) (s : Server) (ip : String) (body : Option String) (p : Panel)
    : Type 0 where
  pub allowed : may_visit w ip s ≡ true
  pub free : is_blocked w.now (lookup ip (sweep_fails w.now p.fails)) ≡ false
  pub password : body ≡ some s.cfg.password

-- A login is let in exactly if the address is allowed and not locked and the password is right.
pub handle_login-MayEnter :
    (w : Host) (s : Server) (ip : String) (body : Option String) (p : Panel)
    → (handle_login w s ip body p).0 ≡ welcome ↔ MayEnter w s ip body p
unfolding handle_login try_password
handle_login-MayEnter w s ip body p = (
  λ e. record {
    allowed = ground (arith, e);
    free = ground (arith, e);
    password = ground (arith, e);
  },
  λ m. ground (arith, m.allowed, m.free, m.password),
)

-- A locked address stays locked over the sweep.
sweep_fails-blocked :
    (now : ℕ) (ip : String) (m : Dict AuthFail) (f : AuthFail)
    → lookup ip m ≡ some f
    → now < f.until
    → lookup ip (sweep_fails now m) ≡ some f
unfolding sweep_fails
sweep_fails-blocked now ip [] f e h = cc
sweep_fails-blocked now ip ((j, g) ∷ m) f e h = ground (arith, sweep_fails-blocked now ip m f)

-- The state after wrong passwords from one address, one after the other.
pub guesses : Server → String → List (Host × String) → Panel → Panel
guesses s ip [] p = p
guesses s ip ((w, pw) ∷ es) p = guesses s ip es (handle_login w s ip (some pw) p).1

-- A wrong password from an allowed address.
pub record IsGuess (s : Server) (ip : String) (e : Host × String) : Type 0 where
  pub allowed : may_visit e.0 ip s ≡ true
  pub wrong : check_password s e.1 ≡ false

sweep_fails-lookup-none :
    (now : ℕ) (ip : String) (m : Dict AuthFail)
    → lookup ip m ≡ none
    → lookup ip (sweep_fails now m) ≡ none
unfolding sweep_fails
sweep_fails-lookup-none now ip [] e = refl
sweep_fails-lookup-none now ip ((j, g) ∷ m) e = ground (arith, sweep_fails-lookup-none now ip m)

sweep_fails-fresh :
    (now : ℕ) (ip : String) (m : Dict AuthFail) (f : AuthFail)
    → lookup ip m ≡ some f
    → is_stale now f ≡ false
    → lookup ip (sweep_fails now m) ≡ some f
unfolding sweep_fails
sweep_fails-fresh now ip [] f e h = cc
sweep_fails-fresh now ip ((j, g) ∷ m) f e h = ground (arith, sweep_fails-fresh now ip m f)

guess_counts :
    (w : Host) (s : Server) (ip pw : String) (p : Panel) (o : Option AuthFail)
    → IsGuess s ip (w, pw)
    → lookup ip (sweep_fails w.now p.fails) ≡ o
    → is_blocked w.now o ≡ false
    → lookup ip (handle_login w s ip (some pw) p).1.fails ≡ some (count_fail w.now (track_of o))
unfolding handle_login try_password
guess_counts w s ip pw p o g e h =
    let m = sweep_fails w.now p.fails in
    let f = count_fail w.now (track_of (lookup ip m)) in
    ground (arith, g.allowed, g.wrong, e, h, lookup-insert ip ip f m)

counts :
    (now : ℕ) (f : AuthFail)
    → f.count + 1 < max_fails
    → count_fail now f ≡ record { count = f.count + 1; last_fail = now; until = f.until }
unfolding count_fail
counts now f h = ground arith

locks :
    (now : ℕ) (f : AuthFail)
    → f.count + 1 ≡ max_fails
    → (count_fail now f).until ≡ now + fail_block_for
unfolding count_fail
locks now f h = ground arith

blocked_refuses :
    (x : Host) (s : Server) (ip : String) (body : Option String) (p : Panel) (g : AuthFail)
    → lookup ip p.fails ≡ some g
    → x.now < g.until
    → (handle_login x s ip body p).0 ≢ welcome
blocked_refuses x s ip body p g e h o =
    let enter = (handle_login-MayEnter x s ip body p).0 o in
    ground (arith, enter.free, sweep_fails-blocked x.now ip p.fails g e h)

first_guess :
    (w : Host) (s : Server) (ip pw : String) (p : Panel)
    → IsGuess s ip (w, pw)
    → lookup ip p.fails ≡ none
    → lookup ip (handle_login w s ip (some pw) p).1.fails ≡ some (count_fail w.now (track_of none))
first_guess w s ip pw p g e =
    guess_counts w s ip pw p none g (sweep_fails-lookup-none w.now ip p.fails e) refl

next_guess :
    (w : Host) (s : Server) (ip pw : String) (p : Panel) (f : AuthFail)
    → IsGuess s ip (w, pw)
    → lookup ip p.fails ≡ some f
    → f.until ≡ 0
    → w.now ≤ f.last_fail + fail_block_for
    → lookup ip (handle_login w s ip (some pw) p).1.fails ≡ some (count_fail w.now f)
next_guess w s ip pw p f g e u h =
    guess_counts w s ip pw p (some f) g (sweep_fails-fresh w.now ip p.fails f e (ground arith))
      (ground arith)

-- Each guess comes at most ten minutes after the one before.
abbrev pub Close : ℕ → List (Host × String) → Type 0
Close t [] = Unit {0}
Close t ((w, pw) ∷ es) = (w.now ≤ t + fail_block_for) × Close w.now es

abbrev pub last_time : ℕ → List (Host × String) → ℕ
last_time t [] = t
last_time t ((w, pw) ∷ es) = last_time w.now es

guesses_from :
    (es : List (Host × String)) (s : Server) (ip : String) (p : Panel) (f : AuthFail)
    → lookup ip p.fails ≡ some f
    → f.until ≡ 0
    → f.count + length es ≡ max_fails
    → f.count < max_fails
    → All (IsGuess s ip) es
    → Close f.last_fail es
    → (g : AuthFail) × (lookup ip (guesses s ip es p).fails ≡ some g)
      × (g.until ≡ last_time f.last_fail es + fail_block_for)
unfolding guesses
guesses_from [] s ip p f e u n lt gs cl = absurd (omega arith)
guesses_from ((w, pw) ∷ []) s ip p f e u n lt gs cl =
    (count_fail w.now f, next_guess w s ip pw p f gs.0 e u cl.0, locks w.now f (omega arith))
guesses_from ((w, pw) ∷ (x, qw) ∷ es) s ip p f e u n lt gs cl =
    guesses_from ((x, qw) ∷ es) s ip (handle_login w s ip (some pw) p).1
      (record { count = f.count + 1; last_fail = w.now; until = f.until })
      (next_guess w s ip pw p f gs.0 e u cl.0 ∙ ap some (counts w.now f (omega arith))) u
      (omega arith) (omega arith) gs.1 cl.1

-- Five wrong passwords in a row from an address without a record, each at most ten minutes after the
-- one before, lock it for ten minutes from the last: until then no login from it is let in, whatever
-- the password.
pub handle_login-guesses :
    (w : Host) (pw : String) (es : List (Host × String)) (s : Server) (ip : String) (p : Panel)
    (x : Host) (body : Option String)
    → lookup ip p.fails ≡ none
    → length es ≡ 4
    → All (IsGuess s ip) ((w, pw) ∷ es)
    → Close w.now es
    → x.now < last_time w.now es + fail_block_for
    → (handle_login x s ip body (guesses s ip ((w, pw) ∷ es) p)).0 ≢ welcome
unfolding guesses
handle_login-guesses w pw es s ip p x body fresh four gs cl soon =
    let p' = (handle_login w s ip (some pw) p).1 in
    let one : AuthFail = record { count = 1; last_fail = w.now; until = 0 } in
    let (g, e, u) =
      guesses_from es s ip p' one
        (first_guess w s ip pw p gs.0 fresh ∙ ap some (counts w.now (track_of none) (omega arith)))
        refl (omega arith) (omega arith) gs.1 cl in
    blocked_refuses x s ip body (guesses s ip es p') g e (omega arith)
