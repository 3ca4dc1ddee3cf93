-- ===== src/Client/Session/Over.antt =====
-- client/client.go and client/socks5.go: what a session leaves behind when it is over.
use caochuan.Base.{
  String, get_elem?, Option-cases, ◌++◌, ◌≡◌, refl, ◌≢◌, Bool, true, false, Option, some, List, [],
  ◌∷◌, if◌then◌else◌, inl, inr, ℕ,
}
use caochuan.Base.Text.{Text}
use caochuan.Config.Client.{ClientConfig}
use caochuan.Server.Streams.{StreamHeader}
use caochuan.Server.State.{ReverseRule}
use caochuan.Client.Reverse.{Manager, apply, start, control_closed}
use caochuan.Proto.{Bytes}
use caochuan.Server.Forward.{closed}
use caochuan.Client.Socks.{Target, End, dropped, piped, handle_socks}
use caochuan.Client.Socks.Served.{is_open, open_for, open_socks, served_end, serve_socks}
use caochuan.Client.Session.Closed.{IsClosed, events-IsClosed, begin_life-IsClosed}
use caochuan.Client.Session.Life.{
  without, Proxy, no_proxy, closed_proxy, to_listen, listening, SessionLife, begin_life, Event,
  listens, proxy_closes, cancelled, accepts, accept_fails, control_begins, pushed, control_ends,
  starts, start_socks, close_proxy, has_controller, take_push, start_one, handle_event, events,
}

abbrev is_shut : Proxy → Bool
is_shut no_proxy = true
is_shut closed_proxy = true
is_shut (to_listen a) = false
is_shut (listening a) = false

-- The goroutine of the proxy has not had its turn to listen.
abbrev pub waits_to_listen : Proxy → Bool
waits_to_listen (to_listen a) = true
waits_to_listen p = false

-- The session has ended with these streams, and its proxy no longer listens.
record IsOver (xs : List StreamHeader) (l : SessionLife) : Type 0 where
  gone : l.is_gone ≡ true
  shut : l.is_open ≡ false
  streams : l.accepted ≡ xs
  silent : is_shut l.proxy ≡ true

start_socks-shut : (b : Bool) (p : Proxy) → is_shut p ≡ true → start_socks b p ≡ p
unfolding start_socks
start_socks-shut b no_proxy e = refl
start_socks-shut b closed_proxy e = refl
start_socks-shut b (to_listen a) e = cc
start_socks-shut b (listening a) e = cc

close_proxy-silent : (gone : Bool) (p : Proxy) → is_shut p ≡ true → close_proxy gone p ≡ p
unfolding close_proxy
close_proxy-silent gone no_proxy e = refl
close_proxy-silent gone closed_proxy e = refl
close_proxy-silent gone (to_listen a) e = cc
close_proxy-silent gone (listening a) e = cc

close_proxy-shut : (p : Proxy) → waits_to_listen p ≡ false → is_shut (close_proxy true p) ≡ true
unfolding close_proxy
close_proxy-shut no_proxy e = refl
close_proxy-shut closed_proxy e = refl
close_proxy-shut (to_listen a) e = cc
close_proxy-shut (listening a) e = refl

manager-IsOver :
    (xs : List StreamHeader) (l : SessionLife) (m : Manager) (rs : List ReverseRule)
    → IsOver xs l
    → IsOver xs (record l { manager = m; to_start = rs })
manager-IsOver xs l m rs o = record {
  gone = o.gone;
  shut = o.shut;
  streams = o.streams;
  silent = o.silent;
}

if-IsOver :
    (xs : List StreamHeader) (b : Bool) (l l' : SessionLife)
    → IsOver xs l
    → IsOver xs l'
    → IsOver xs (if b then l' else l)
if-IsOver xs true l l' o o' = o'
if-IsOver xs false l l' o o' = o

then-IsOver :
    (xs : List StreamHeader) (b : Bool) (l l' : SessionLife)
    → b ≡ true
    → IsOver xs l
    → IsOver xs (if b then l else l')
then-IsOver xs true l l' e o = o
then-IsOver xs false l l' e o = cc

start_one-IsOver :
    (xs : List StreamHeader) (b : Option String) (i : ℕ) (l : SessionLife)
    → IsOver xs l
    → IsOver xs (start_one b i l)
unfolding start_one
start_one-IsOver xs b i l o = elim (Option-cases (get_elem? l.to_start i)) [
  | inl e ↦ rw (start_one, e) o
  | inr (r, e) ↦
      rw (start_one, e) (manager-IsOver xs l (start b r l.manager) (without i l.to_start) o)
]

handle_event-IsOver :
    (xs : List StreamHeader) (e : Event) (l : SessionLife)
    → IsOver xs l
    → IsOver xs (handle_event e l)
unfolding handle_event take_push
handle_event-IsOver xs (listens b) l o = record {
  gone = o.gone;
  shut = o.shut;
  streams = o.streams;
  silent = rw (start_socks-shut b l.proxy o.silent) o.silent;
}
handle_event-IsOver xs proxy_closes l o = record {
  gone = o.gone;
  shut = o.shut;
  streams = o.streams;
  silent = rw (close_proxy-silent l.is_gone l.proxy o.silent) o.silent;
}
handle_event-IsOver xs cancelled l o = record {
  gone = o.gone;
  shut = refl;
  streams = o.streams;
  silent = o.silent;
}
handle_event-IsOver xs (accepts hdr) l o =
    then-IsOver xs l.is_gone l (record l { accepted = hdr ∷ l.accepted }) o.gone o
handle_event-IsOver xs accept_fails l o = record {
  gone = refl;
  shut = refl;
  streams = o.streams;
  silent = o.silent;
}
handle_event-IsOver xs control_begins l o =
    if-IsOver xs (has_controller l) l
      (record l { manager = record (l.manager) { has_control = true } }) o
      (manager-IsOver xs l (record (l.manager) { has_control = true }) l.to_start o)
handle_event-IsOver xs (pushed rules) l o =
    if-IsOver xs (has_controller l) l (take_push rules l) o
      (manager-IsOver xs l (apply rules l.manager).0 (l.to_start ++ (apply rules l.manager).1) o)
handle_event-IsOver xs control_ends l o =
    if-IsOver xs (has_controller l) l (record l { manager = control_closed l.manager }) o
      (manager-IsOver xs l (control_closed l.manager) l.to_start o)
handle_event-IsOver xs (starts b i) l o = start_one-IsOver xs b i l o

events-IsOver :
    (xs : List StreamHeader) (es : List Event) (l : SessionLife)
    → IsOver xs l
    → IsOver xs (events es l)
unfolding events
events-IsOver xs [] l o = o
events-IsOver xs (e ∷ es) l o =
    events-IsOver xs es (handle_event e l) (handle_event-IsOver xs e l o)

shut-listening : (p : Proxy) (a : Text) → is_shut p ≡ true → p ≢ listening a
shut-listening no_proxy a e q = cc
shut-listening closed_proxy a e q = cc
shut-listening (to_listen b) a e q = cc
shut-listening (listening b) a e q = cc

served_end-closed :
    (join : Target → String) (opens : ℕ → Bool) (k : ℕ) (out : Bytes) (end : End)
    → opens k ≡ false
    → (served_end join opens (some k) out end).fate ≡ closed
unfolding served_end open_socks
served_end-closed join opens k out dropped o = refl
served_end-closed join opens k out (piped t rest) o = rw (o, served_end) refl

-- No connection of the proxy is piped over a session that opens no stream.
serve_socks-closed :
    (join : Target → String) (opens : ℕ → Bool) (k : ℕ) (writes : Bool) (r : Bytes)
    → opens k ≡ false
    → (serve_socks join opens (some k) writes r).fate ≡ closed
unfolding serve_socks
serve_socks-closed join opens k writes r o =
    let e = handle_socks writes (λ t. is_open (open_for join opens (some k) t)) r in
    served_end-closed join opens k e.0 e.1 o

-- After any history of a session in which `serveOnce` has returned and the proxy, if there is one, has had
-- its turn to listen, the goroutine of the proxy has its turn, and any further history follows. Then the
-- session is closed, no stream has been accepted since the return, no proxy listens, and no connection to
-- the proxy, whatever it sends, is piped with anything.
pub events-over :
    (cfg : ClientConfig) (es fs : List Event) (join : Target → String) (k : ℕ) (writes : Bool)
    (r : Bytes) (a : Text)
    → let l = events es (begin_life cfg) in
      let later = events fs (handle_event proxy_closes l) in
      l.is_gone ≡ true
      → waits_to_listen l.proxy ≡ false
      → (later.is_open ≡ false)
        × (later.accepted ≡ l.accepted)
        × (later.proxy ≢ listening a)
        × ((serve_socks join (λ i. later.is_open) (some k) writes r).fate ≡ closed)
unfolding handle_event IsClosed
events-over cfg es fs join k writes r a g w =
    let l = events es (begin_life cfg) in
    let later = events fs (handle_event proxy_closes l) in
    let over : IsOver l.accepted (handle_event proxy_closes l) = record {
      gone = g;
      shut = events-IsClosed es (begin_life cfg) (begin_life-IsClosed cfg) g;
      streams = refl;
      silent = rw g (close_proxy-shut l.proxy w);
    } in
    let o = events-IsOver l.accepted fs (handle_event proxy_closes l) over in
    (
      o.shut,
      o.streams,
      shut-listening later.proxy a o.silent,
      serve_socks-closed join (λ i. later.is_open) k writes r o.shut,
    )
