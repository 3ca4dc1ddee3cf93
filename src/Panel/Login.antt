-- ===== src/Panel/Login.antt =====
-- panel/panel.go: `handleLogin`, with its lock against guessing, and `auth`.
--
-- A login is the address that `clientIP` reads and the password in the body, if it decodes. The cookie
-- is a parameter: `session` is what `validSession` says of it.
pub mod Guard
use caochuan.Base.{
  ℕ, ◌+◌, ◌-◌, ◌*◌, String, Bool, false, not, ◌&&◌, Option, none, some, List, [], ◌∷◌, ltb, leb,
  if◌then◌else◌, str_eq,
}
use caochuan.Base.Dict.{Dict, lookup, insert, erase}
use caochuan.Server.Notify.{second}
use caochuan.Config.{Netip}
use caochuan.Server.State.{Server, AuthFail}
use caochuan.Server.Access.{ip_allowed}

-- `Panel`; a `failTrack` has the fields of an `authFail`.
pub record Panel : Type 0 where
  pub no_auth : Bool
  pub fails : Dict AuthFail

pub data Answer : Type 0 where
  welcome forbidden locked bad_request wrong_password unauthorized next : Answer

-- What the machine and the library answer: the addresses of the interfaces, `netip.ParseAddrPort`, the time.
pub record Host : Type 1 where
  pub netip : Netip
  pub parse_addr_port : String → Option (Netip.Addr netip)
  pub local : List (Netip.Addr netip)
  pub now : ℕ

abbrev pub may_visit : Host → String → Server → Bool
may_visit w ip s = ip_allowed w.netip w.parse_addr_port w.local ip s

abbrev pub fail_block_for : ℕ
fail_block_for = 600 * second

abbrev pub max_fails : ℕ
max_fails = 5

abbrev pub is_stale : ℕ → AuthFail → Bool
is_stale now f = ltb f.until now && ltb fail_block_for (now - f.last_fail)

-- `sweepFails`
unfoldable pub sweep_fails : ℕ → Dict AuthFail → Dict AuthFail
sweep_fails now [] = []
sweep_fails now ((ip, f) ∷ m) =
    let rest = sweep_fails now m in if is_stale now f then rest else (ip, f) ∷ rest

-- `CheckPassword`
abbrev pub check_password : Server → String → Bool
check_password s pw = str_eq pw s.cfg.password

abbrev pub track_of : Option AuthFail → AuthFail
track_of none = record { count = 0; last_fail = 0; until = 0 }
track_of (some f) = f

-- A wrong password is counted; the fifth locks the address for ten minutes.
unfoldable pub count_fail : ℕ → AuthFail → AuthFail
count_fail now f =
    if leb max_fails (f.count + 1)
    then record { count = 0; last_fail = now; until = now + fail_block_for }
    else record { count = f.count + 1; last_fail = now; until = f.until }

abbrev pub is_blocked : ℕ → Option AuthFail → Bool
is_blocked now none = false
is_blocked now (some f) = ltb now f.until

-- `handleLogin`, behind the lock.
unfoldable pub try_password : Host → Server → String → Option String → Panel → Answer × Panel
try_password w s ip none p = (bad_request, p)
try_password w s ip (some pw) p =
    if check_password s pw then (welcome, record p { fails = erase ip p.fails }) else (
      wrong_password,
      record p { fails = insert ip (count_fail w.now (track_of (lookup ip p.fails))) p.fails },
    )

-- `handleLogin`
unfoldable pub handle_login : Host → Server → String → Option String → Panel → Answer × Panel
handle_login w s ip body p₀ =
    if not (may_visit w ip s)
    then (forbidden, p₀)
    else let p = record p₀ { fails = sweep_fails w.now p₀.fails } in
      if is_blocked w.now (lookup ip p.fails) then (locked, p) else try_password w s ip body p

-- `auth`: whether the handler behind it is called.
unfoldable pub auth : Host → Server → String → Bool → Panel → Answer
auth w s ip session p =
    if not (may_visit w ip s)
    then forbidden
    else if not p.no_auth && not session
    then unauthorized
    else next
