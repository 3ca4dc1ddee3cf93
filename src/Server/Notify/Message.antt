-- ===== src/Server/Notify/Message.antt =====
-- server/notify.go: what a notification says, and `sendNow`, the button that tries it.
--
-- `Remote` is `json.Marshal` with `http.Client`: the bytes of a value, and the status that the remote
-- answers a post with, if it answers. `print` is the text of a time.
use caochuan.Base.{
  ℕ, ◌<◌, ◌≤◌, ◌-◌, String, ◌≡◌, refl, ◌≢◌, ◌↔◌, Option, none, some, ◌∷◌, ◌++◌, arith, leb,
  if◌then◌else◌, str_eq, String-discrete,
}
use caochuan.Base.Text.{Text, codes}
use caochuan.Proto.{Bytes}
use caochuan.Server.Notify.{Post, Notifier, notify_debounce, last_sent, send}

mutual
  pub data Json : Type 0 where
    text : Text → Json
    object : Fields → Json

  pub data Fields : Type 0 where
    end : Fields
    field : Text → Json → Fields → Fields

pub record Remote : Type 0 where
  pub marshal : Json → Option Bytes
  pub post : String → Bytes → Option ℕ
  pub print : ℕ → Text

pub data Sent : Type 0 where
  sent not_configured not_encoded not_reached refused : Sent

-- A post that was made, if one was, and how it went.
abbrev pub Delivery : Type 0
Delivery = Option (String × Bytes) × Sent

abbrev pub text_of : Text → Text
text_of msg = codes "【草船】" ++ msg

abbrev pub content_of : Text → Fields
content_of t = field (codes "content") (text t) end

-- `payload`, which `send` and `sendNow` build alike.
unfoldable pub payload : Remote → String → Text → Text → ℕ → Json
payload r format event msg now =
    if str_eq format "dingtalk"
    then object (
        field (codes "msgtype") (text (codes "text"))
          (field (codes "text") (object (content_of (text_of msg))) end))
    else if str_eq format "feishu"
    then object (
        field (codes "msg_type") (text (codes "text"))
          (field (codes "content") (object (field (codes "text") (text (text_of msg)) end)) end))
    else object (
        field (codes "event") (text event)
          (field (codes "message") (text msg) (field (codes "time") (text (r.print now)) end)))

-- A status from 300 on is a refusal.
unfoldable pub answered : Option ℕ → Sent
answered none = not_reached
answered (some status) = if leb 300 status then refused else sent

unfoldable pub post_to : Remote → String → Option Bytes → Delivery
post_to r url none = (none, not_encoded)
post_to r url (some b) = (some (url, b), answered (r.post url b))

-- The goroutine of `send`, when it runs at the time `now`.
unfoldable pub deliver : Remote → Text → Text → ℕ → Post → Delivery
deliver r event msg now p = post_to r p.url (r.marshal (payload r p.format event msg now))

-- `sendNow`
unfoldable pub send_now : Remote → Text → Text → ℕ → Notifier → Delivery
send_now r event msg now n =
    if str_eq n.url ""
    then (none, not_configured)
    else post_to r n.url (r.marshal (payload r n.format event msg now))

-- What it takes for a notification to arrive.
pub record Arrives (r : Remote) (event msg : Text) (now : ℕ) (n : Notifier) : Type 0 where
  pub configured : n.url ≢ ""
  pub body : Bytes
  pub encoded : r.marshal (payload r n.format event msg now) ≡ some body
  pub status : ℕ
  pub answer : r.post n.url body ≡ some status
  pub taken : status < 300

-- What `send` posts under an address, for a key that is not held back, is what `sendNow` posts at the time
-- at which the goroutine runs, with the same result.
pub deliver-send_now :
    (r : Remote) (event msg : Text) (key : String) (now later : ℕ) (n : Notifier)
    → n.url ≢ ""
    → notify_debounce ≤ now - last_sent key n.last
    → (p : Post) × ((send now key n).posted ≡ p ∷ n.posted)
      × (deliver r event msg later p ≡ send_now r event msg later n)
unfolding deliver send_now send
deliver-send_now r event msg key now later n h d = (
  record { at = now; key = key; url = n.url; format = n.format },
  ground (arith, h, d),
  ground (arith, h),
)

posted-Arrives :
    (r : Remote) (event msg : Text) (now : ℕ) (n : Notifier) (status : Option ℕ) (b : Bytes)
    → n.url ≢ ""
    → r.marshal (payload r n.format event msg now) ≡ some b
    → r.post n.url b ≡ status
    → answered status ≡ sent
    → Arrives r event msg now n
unfolding answered
posted-Arrives r event msg now n none b h e f g = cc
posted-Arrives r event msg now n (some k) b h e f g = record {
  configured = h;
  body = b;
  encoded = e;
  status = k;
  answer = f;
  taken = ground (arith, g);
}

encoded-Arrives :
    (r : Remote) (event msg : Text) (now : ℕ) (n : Notifier) (o : Option Bytes)
    → n.url ≢ ""
    → r.marshal (payload r n.format event msg now) ≡ o
    → (post_to r n.url o).1 ≡ sent
    → Arrives r event msg now n
unfolding post_to
encoded-Arrives r event msg now n none h e g = cc
encoded-Arrives r event msg now n (some b) h e g =
    posted-Arrives r event msg now n (r.post n.url b) b h e refl g

-- `sendNow` reports success exactly if an address is set, the message can be encoded, and the remote
-- answers the post with a status below 300.
pub send_now-Arrives :
    (r : Remote) (event msg : Text) (now : ℕ) (n : Notifier)
    → (send_now r event msg now n).1 ≡ sent ↔ Arrives r event msg now n
unfolding send_now post_to answered
send_now-Arrives r event msg now n = (
  λ e. elim (String-discrete n.url "") [
    | yes u ↦ let x : not_configured ≡ sent = ground (arith, e, u) in cc
    | no u ↦
        encoded-Arrives r event msg now n (r.marshal (payload r n.format event msg now)) u refl
          (ground (arith, e, u))
  ],
  λ a. ground (arith, a.configured, a.encoded, a.answer, a.taken),
)
