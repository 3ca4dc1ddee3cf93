-- ===== src/Server/Notify.antt =====
-- server/notify.go: the webhook notifier.
--
-- A time is a count of nanoseconds since year 1, so the zero `time.Time` is 0. The HTTP request of the
-- goroutine is one entry of `posted`, newest first; what the remote answers changes nothing here.
pub mod Debounce
pub mod Message
use caochuan.Base.{
  ℕ, ◌-◌, ◌*◌, String, not, ◌&&◌, none, some, List, [], ◌∷◌, ltb, if◌then◌else◌, str_eq,
}
use caochuan.Base.Dict.{Dict, lookup, insert}

abbrev pub second : ℕ
second = 1_000_000_000

abbrev pub notify_debounce : ℕ
notify_debounce = 60 * second

pub record Post : Type 0 where
  pub at : ℕ
  pub key : String
  pub url : String
  pub format : String

pub record Notifier : Type 0 where
  pub url : String
  pub format : String
  pub last : Dict ℕ
  pub posted : List Post

abbrev pub known_format : String → String
known_format f = if not (str_eq f "dingtalk") && not (str_eq f "feishu") then "generic" else f

-- `newNotifier`
unfoldable pub new_notifier : String → String → Notifier
new_notifier url format = record { url = url; format = known_format format; last = []; posted = [] }

-- `set`
unfoldable pub set_notifier : String → String → Notifier → Notifier
set_notifier url format n = record n { url = url; format = known_format format }

-- `n.last[key]`, the zero time where it is missing.
abbrev pub last_sent : String → Dict ℕ → ℕ
last_sent key last = elim (lookup key last) [ none ↦ 0 | some t ↦ t ]

-- `send`
unfoldable pub send : ℕ → String → Notifier → Notifier
send now key n =
    if str_eq n.url ""
    then n
    else if ltb (now - last_sent key n.last) notify_debounce
    then n
    else record n {
      last = insert key now n.last;
      posted = record { at = now; key = key; url = n.url; format = n.format } ∷ n.posted;
    }
