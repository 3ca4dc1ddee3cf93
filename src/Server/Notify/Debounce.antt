-- ===== src/Server/Notify/Debounce.antt =====
-- server/notify.go: one event is not posted twice within a minute.
use caochuan.Base.{
  ℕ, ◌+◌, ◌-◌, ◌≤◌, String, ◌≡◌, refl, ap, List, [], ◌∷◌, arith, dec_lt, String-discrete, All,
}
use caochuan.Base.Dict.{Dict, insert, lookup-insert}
use caochuan.Server.Notify.{
  notify_debounce, Post, Notifier, new_notifier, set_notifier, last_sent, send,
}

-- The notifier's calls, with the time of each.
pub data Call : Type 0 where
  sends : ℕ → String → Call
  sets : String → String → Call

pub call : Notifier → Call → Notifier
call n (sends now key) = send now key n
call n (sets url format) = set_notifier url format n

pub calls : Notifier → List Call → Notifier
calls n [] = n
calls n (c ∷ cs) = calls (call n c) cs

-- Posts of one event are a minute apart.
abbrev pub Apart : Post → Post → Type 0
Apart p q = q.key ≡ p.key → q.at + notify_debounce ≤ p.at

abbrev pub Spaced : List Post → Type 0
Spaced [] = Unit {0}
Spaced (p ∷ ps) = All (Apart p) ps × Spaced ps

abbrev Recorded : Dict ℕ → List Post → Type 0
Recorded last = All (λ p. p.at ≤ last_sent p.key last)

record Inv (n : Notifier) : Type 0 where
  spaced : Spaced n.posted
  recorded : Recorded n.last n.posted

new_post-Apart :
    (now : ℕ) (p : Post) (last : Dict ℕ) (ps : List Post)
    → p.at ≡ now
    → notify_debounce ≤ now - last_sent p.key last
    → Recorded last ps
    → All (Apart p) ps
new_post-Apart now p last [] e h r = tt
new_post-Apart now p last (q ∷ ps) e h r =
    (λ same. omega (arith, ap (λ k. last_sent k last) same), new_post-Apart now p last ps e h r.1)

insert-Recorded :
    (now : ℕ) (key : String) (last : Dict ℕ) (ps : List Post)
    → notify_debounce ≤ now - last_sent key last
    → Recorded last ps
    → Recorded (insert key now last) ps
insert-Recorded now key last [] h r = tt
insert-Recorded now key last (q ∷ ps) h r =
    (ground (arith, lookup-insert key q.key now last), insert-Recorded now key last ps h r.1)

send-Inv : (now : ℕ) (key : String) (n : Notifier) → Inv n → Inv (send now key n)
unfolding send
send-Inv now key n v = elim (String-discrete n.url "") [
  | yes p ↦ ground arith
  | no p ↦ elim (dec_lt (now - last_sent key n.last) notify_debounce) [
    | yes q ↦ ground arith
    | no q ↦ ground (
      arith,
      new_post-Apart now (record { at = now; key = key; url = n.url; format = n.format }) n.last
          n.posted refl (omega arith) v.recorded,
      insert-Recorded now key n.last n.posted (omega arith) v.recorded,
      lookup-insert key key now n.last,
    )
  ]
]

calls-Inv : (n : Notifier) (cs : List Call) → Inv n → Inv (calls n cs)
unfolding calls call set_notifier
calls-Inv n [] v = v
calls-Inv n (sends now key ∷ cs) v = calls-Inv (send now key n) cs (send-Inv now key n v)
calls-Inv n (sets url format ∷ cs) v =
    calls-Inv (set_notifier url format n) cs (record { spaced = v.spaced; recorded = v.recorded })

-- Whatever the calls of a new notifier and their times, two posts with one key are at least 60 seconds
-- apart, also across changes of the address.
pub calls-Spaced :
    (url format : String) (cs : List Call) → Spaced (calls (new_notifier url format) cs).posted
unfolding new_notifier
calls-Spaced url format cs =
    (calls-Inv (new_notifier url format) cs (record { spaced = tt; recorded = tt })).spaced
