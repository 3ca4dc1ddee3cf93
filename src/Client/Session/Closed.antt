-- ===== src/Client/Session/Closed.antt =====
-- client/client.go: a session whose `serveOnce` has returned is closed.
use caochuan.Base.{
  String, get_elem?, Option-cases, ◌≡◌, refl, Bool, true, false, Option, List, [], ◌∷◌,
  if◌then◌else◌, inl, inr, ℕ,
}
use caochuan.Config.Client.{ClientConfig}
use caochuan.Client.Reverse.{control_closed}
use caochuan.Client.Session.Life.{
  SessionLife, begin_life, Event, listens, proxy_closes, cancelled, accepts, accept_fails,
  control_begins, pushed, control_ends, starts, has_controller, take_push, start_one, handle_event,
  events,
}

-- A session that is over is closed.
unfoldable pub IsClosed : SessionLife → Type 0
IsClosed l = l.is_gone ≡ true → l.is_open ≡ false

if-IsClosed :
    (b : Bool) (l l' : SessionLife) → IsClosed l → IsClosed l' → IsClosed (if b then l' else l)
if-IsClosed true l l' c c' = c'
if-IsClosed false l l' c c' = c

start_one-IsClosed :
    (b : Option String) (i : ℕ) (l : SessionLife) → IsClosed l → IsClosed (start_one b i l)
unfolding start_one IsClosed
start_one-IsClosed b i l c = elim (Option-cases (get_elem? l.to_start i)) [
  | inl e ↦ rw (start_one, e) c
  | inr (r, e) ↦ rw (start_one, e) c
]

handle_event-IsClosed : (e : Event) (l : SessionLife) → IsClosed l → IsClosed (handle_event e l)
unfolding handle_event take_push start_one IsClosed
handle_event-IsClosed (listens b) l c = c
handle_event-IsClosed proxy_closes l c = c
handle_event-IsClosed cancelled l c = λ g. refl
handle_event-IsClosed (accepts hdr) l c =
    if-IsClosed l.is_gone (record l { accepted = hdr ∷ l.accepted }) l c c
handle_event-IsClosed accept_fails l c = λ g. refl
handle_event-IsClosed control_begins l c =
    if-IsClosed (has_controller l) l
      (record l { manager = record (l.manager) { has_control = true } }) c c
handle_event-IsClosed (pushed rules) l c = if-IsClosed (has_controller l) l (take_push rules l) c c
handle_event-IsClosed control_ends l c =
    if-IsClosed (has_controller l) l (record l { manager = control_closed l.manager }) c c
handle_event-IsClosed (starts b i) l c = start_one-IsClosed b i l c

pub events-IsClosed : (es : List Event) (l : SessionLife) → IsClosed l → IsClosed (events es l)
unfolding events
events-IsClosed [] l c = c
events-IsClosed (e ∷ es) l c = events-IsClosed es (handle_event e l) (handle_event-IsClosed e l c)

pub begin_life-IsClosed : (cfg : ClientConfig) → IsClosed (begin_life cfg)
unfolding begin_life IsClosed
begin_life-IsClosed cfg = λ g. cc
