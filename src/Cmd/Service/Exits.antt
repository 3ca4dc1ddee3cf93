-- ===== src/Cmd/Service/Exits.antt =====
-- cmd/caochuan/service_windows.go: how `Execute` ends.
use caochuan.Base.{
  ℕ, ◌≡◌, refl, sym, ap, subst, ◌∙◌, Bool, true, false, Option, none, some, List, [], ◌∷◌, ◌++◌,
  arith, if◌then◌else◌, any, All,
}
use mathlib.Core.List.{append-nil, append_assoc}
use caochuan.Cmd.Service.{
  Event, interrogate, stopped, shut_down, other_request, finished, Status, start_pending, running,
  stop_pending, current, Execution, new_execution, begin_stop, on_event, execute,
}

abbrev pub is_finished : Event → Bool
is_finished finished = true
is_finished _ = false

abbrev pub is_stop : Event → Bool
is_stop stopped = true
is_stop shut_down = true
is_stop _ = false

-- The program runs and nothing asks it to stop.
abbrev pub IsCalm : List Event → Type 0
IsCalm es = All (λ e. (is_stop e ≡ false) × (is_finished e ≡ false)) es

-- Answers to requests for the status.
abbrev pub answers : List Event → List Status
answers [] = []
answers (interrogate ∷ es) = current ∷ answers es
answers (_ ∷ es) = answers es

abbrev with_sent : List Status → Execution → Execution
with_sent sent x = record x { sent = sent }

execute-step :
    (e : Event) (es : List Event) (x : Execution)
    → x.exit_code ≡ none
    → execute (e ∷ es) x ≡ execute es (on_event e x)
unfolding execute
execute-step e es x h = elim-none h
  where
    elim-none :
        x.exit_code ≡ none
        → (elim x.exit_code [ some code ↦ x | none ↦ execute es (on_event e x) ])
          ≡ execute es (on_event e x)
    elim-none h = simp h refl

on_event-interrogate :
    (x : Execution)
    → x.is_stopping ≡ false
    → on_event interrogate x ≡ with_sent (x.sent ++ (current ∷ [])) x
unfolding on_event
on_event-interrogate x f = simp f refl

calm-execute :
    (es later : List Event) (x : Execution)
    → IsCalm es
    → x.exit_code ≡ none
    → x.is_stopping ≡ false
    → execute (es ++ later) x ≡ execute later (with_sent (x.sent ++ answers es) x)
unfolding execute on_event
calm-execute [] later x c e f = ap (λ l. execute later (with_sent l x)) (sym (append-nil x.sent))
calm-execute (interrogate ∷ es) later x c e f =
    let x' = with_sent (x.sent ++ (current ∷ [])) x in
    execute-step interrogate (es ++ later) x e
    ∙ ap (execute (es ++ later)) (on_event-interrogate x f)
    ∙ calm-execute es later x' c.1 e f
    ∙ ap (λ l. execute later (with_sent l x)) (append_assoc x.sent (current ∷ []) (answers es))
calm-execute (other_request ∷ es) later x c e f =
    execute-step other_request (es ++ later) x e ∙ calm-execute es later x c.1 e f
calm-execute (stopped ∷ es) later x c e f = cc
calm-execute (shut_down ∷ es) later x c e f = cc
calm-execute (finished ∷ es) later x c e f = cc

done-execute : (es : List Event) (x : Execution) (c : ℕ) → x.exit_code ≡ some c → execute es x ≡ x
unfolding execute
done-execute [] x c h = refl
done-execute (e ∷ es) x c h = ground (arith, h)

finished-execute :
    (es : List Event) (x : Execution)
    → x.exit_code ≡ none
    → execute (finished ∷ es) x ≡ on_event finished x
unfolding on_event
finished-execute es x e =
    execute-step finished es x e
    ∙ done-execute es (on_event finished x) (if x.is_stopping then 0 else 1) refl

-- What `Execute` leaves: the exit code and the statuses sent, with the program told to end.
pub record Leaves (code : Option ℕ) (sent : List Status) (x : Execution) : Type 0 where
  pub exits : x.exit_code ≡ code
  pub told : x.sent ≡ sent
  pub cancelled : x.is_cancelled ≡ true

module _ (x : Execution) (e : x.exit_code ≡ none) (f : x.is_stopping ≡ true)
    (c : x.is_cancelled ≡ true) where
  -- A service that is stopping waits for its goroutine and sends nothing.
  ignores : (ev : Event) → is_finished ev ≡ false → on_event ev x ≡ x
  unfolding on_event
  ignores interrogate h = simp f refl
  ignores stopped h = simp f refl
  ignores shut_down h = simp f refl
  ignores other_request h = refl
  ignores finished h = cc

  finishes : Leaves (some 0) x.sent (on_event finished x)
  unfolding on_event
  finishes = record { exits = simp f refl; told = refl; cancelled = refl }

  skips :
      (ev : Event) (es : List Event) (code : Option ℕ)
      → is_finished ev ≡ false
      → Leaves code x.sent (execute es x)
      → Leaves code x.sent (execute (ev ∷ es) x)
  skips ev es code h k =
      subst (Leaves code x.sent) (sym (execute-step ev es x e ∙ ap (execute es) (ignores ev h))) k

  stopping-execute :
      (es : List Event) → Leaves (if any is_finished es then some 0 else none) x.sent (execute es x)
  unfolding execute
  stopping-execute [] = record { exits = e; told = refl; cancelled = c }
  stopping-execute (finished ∷ es) =
      subst (Leaves (some 0) x.sent) (sym (finished-execute es x e)) finishes
  stopping-execute (interrogate ∷ es) =
      skips interrogate es (if any is_finished es then some 0 else none) refl (stopping-execute es)
  stopping-execute (stopped ∷ es) =
      skips stopped es (if any is_finished es then some 0 else none) refl (stopping-execute es)
  stopping-execute (shut_down ∷ es) =
      skips shut_down es (if any is_finished es then some 0 else none) refl (stopping-execute es)
  stopping-execute (other_request ∷ es) =
      skips other_request es (if any is_finished es then some 0 else none) refl
        (stopping-execute es)

begins_stop :
    (s : Event) (x : Execution)
    → is_stop s ≡ true
    → x.is_stopping ≡ false
    → on_event s x ≡ begin_stop x
unfolding on_event
begins_stop stopped x h f = simp f refl
begins_stop shut_down x h f = simp f refl
begins_stop interrogate x h f = cc
begins_stop other_request x h f = cc
begins_stop finished x h f = cc

abbrev started : List Event → Execution
started before = with_sent (start_pending ∷ running ∷ answers before) new_execution

calm_start :
    (before later : List Event)
    → IsCalm before
    → execute (before ++ later) new_execution ≡ execute later (started before)
unfolding new_execution
calm_start before later c = calm-execute before later new_execution c refl refl

-- The program runs, and Windows may ask for its status. If its goroutine then ends by itself, the service
-- exits with code 1 and has sent no status of stopping. If Windows asks it to stop or shuts down, the
-- program is told to end and one status of stopping is sent, the last; and the service exits with code 0 as
-- soon as the goroutine has ended, whatever else is asked meanwhile, and waits if it never does.
pub execute-exits :
    (before after : List Event) (s : Event)
    → IsCalm before
    → is_stop s ≡ true
    → Leaves
        (some 1)
        (start_pending ∷ running ∷ answers before)
        (execute (before ++ (finished ∷ after)) new_execution)
      × Leaves
          (if any is_finished after then some 0 else none)
          ((start_pending ∷ running ∷ answers before) ++ (stop_pending ∷ []))
          (execute (before ++ (s ∷ after)) new_execution)
unfolding new_execution on_event
execute-exits before after s c h =
    let x = started before in
    let sent = start_pending ∷ running ∷ answers before in
    let code : Option ℕ = if any is_finished after then some 0 else none in
    (
      subst (Leaves (some 1) sent)
          (sym (calm_start before (finished ∷ after) c ∙ finished-execute after x refl))
          (record { exits = refl; told = refl; cancelled = refl }),
      subst (Leaves code (sent ++ (stop_pending ∷ [])))
          (sym (
            calm_start before (s ∷ after) c
            ∙ execute-step s after x refl
            ∙ ap (execute after) (begins_stop s x h refl)))
          (stopping-execute (begin_stop x) refl refl refl after),
    )
