-- ===== src/Server/Apply/Ports.antt =====
-- server/server.go: which rules get their port in `applyRulesLocked`, and which do not.
use caochuan.Base.{
  String, ◌≡◌, refl, sym, ◌∙◌, ◌≢◌, ◌⊎◌, inl, inr, Bool, true, false, not, ◌&&◌, ◌||◌, none, some,
  [], ◌∷◌, arith, Option-cases, String-discrete, str_eq, is_some,
}
use caochuan.Base.Dict.{Dict, lookup, insert, erase, Distinct, lookup-erase}
use caochuan.Config.{Rule}
use caochuan.Server.State.{World, Server, Runner}
use caochuan.Server.Apply.{
  desired, same_as, Progress, runner_for, can_start, launch, visit, visit_all, holds, on_port,
  apply_rules,
}
use caochuan.Server.Apply.Visits.{visit_all_other, visit_other, launch_self}
use caochuan.Server.Apply.Result.{VisitsAll, lookup-apply, lookup-apply_absent, apply_rules_sound}

-- No listener but that of `id` holds the port of `r`.
unfoldable pub free : String → Rule → Dict Runner → Bool
free id r [] = true
free id r ((j, rn) ∷ m) = (str_eq j id || not (on_port rn r)) && free id r m

free-holds :
    (id : String) (r : Rule) (m : Dict Runner)
    → lookup id m ≡ none
    → free id r m ≡ true
    → holds r m ≡ false
unfolding free holds
free-holds id r [] e f = refl
free-holds id r ((j, rn) ∷ m) e f = ground (arith, free-holds id r m)

free-erase :
    (id j : String) (r : Rule) (m : Dict Runner) → free id r m ≡ true → free id r (erase j m) ≡ true
unfolding free
free-erase id j r [] f = refl
free-erase id j r ((k, rn) ∷ m) f = ground (arith, free-erase id j r m)

free-insert :
    (id j : String) (r q : Rule) (m : Dict Runner)
    → on_port (runner_for q) r ≡ false
    → free id r m ≡ true
    → free id r (insert j (runner_for q) m) ≡ true
unfolding free
free-insert id j r q [] o f = ground arith
free-insert id j r q ((k, rn) ∷ m) o f = ground (arith, free-insert id j r q m)

holds-lookup :
    (id : String) (r : Rule) (rn : Runner) (m : Dict Runner)
    → lookup id m ≡ some rn
    → on_port rn r ≡ true
    → holds r m ≡ true
unfolding holds
holds-lookup id r rn [] e o = cc
holds-lookup id r rn ((k, q) ∷ m) e o = ground (arith, holds-lookup id r rn m)

module _ (w : World) where
  visit-free :
      (id j : String) (r q : Rule) (p : Progress)
      → on_port (runner_for q) r ≡ false
      → free id r p.runners ≡ true
      → free id r (visit w j q p).runners ≡ true
  unfolding visit launch
  visit-free id j r q p o f = ground (
    arith,
    free-insert id j r q p.runners o f,
    free-erase id j r p.runners f,
    free-insert id j r q (erase j p.runners) o,
  )

  -- A rule that the operating system and the other listeners leave a port for.
  abbrev pub Startable : Rule → Type 0
  Startable r = ((r.proto ≡ "tcp") ⊎ (r.proto ≡ "udp")) × (w.taken r.proto r.listen ≡ false)

  visit_starts :
      (id : String) (r : Rule) (p : Progress)
      → Startable r
      → free id r p.runners ≡ true
      → is_some (lookup id (visit w id r p).runners) ≡ true
  unfolding visit can_start
  visit_starts id r p ready f = ground (
    arith,
    launch_self w id r p,
    launch_self w id r (record p { runners = erase id p.runners }),
    lookup-erase id id p.runners,
    free-holds id r p.runners,
    free-erase id id r p.runners f,
    free-holds id r (erase id p.runners),
  )

  visit_all_starts :
      (id : String) (r : Rule) (m : Dict Rule) (p : Progress)
      → Startable r
      → Distinct m
      → lookup id m ≡ some r
      → ((j : String) (q : Rule) → lookup j m ≡ some q → j ≢ id → on_port (runner_for q) r ≡ false)
      → free id r p.runners ≡ true
      → is_some (lookup id (visit_all w m p).runners) ≡ true
  unfolding visit_all
  visit_all_starts id r [] p ready d e alone f = cc
  visit_all_starts id r ((k, q) ∷ m) p ready d e alone f = elim (String-discrete k id) [
    | yes same ↦ ground (arith, visit_all_other w id m (visit w k q p), visit_starts k q p)
    | no other ↦
        visit_all_starts id r m (visit w k q p) ready d.1 (ground arith)
          (λ j x l ne. alone j x (ground arith) ne)
          (visit-free id k r q p (alone k q (ground arith) other) f)
  ]

  visit_blocked :
      (id : String) (r : Rule) (rn : Runner) (blocker : String) (p : Progress)
      → lookup id p.runners ≡ none
      → lookup blocker p.runners ≡ some rn
      → on_port rn r ≡ true
      → lookup id (visit w id r p).runners ≡ none
  unfolding visit can_start
  visit_blocked id r rn blocker p l k o =
      ground (arith, launch_self w id r p l, holds-lookup blocker r rn p.runners k o)

  visit_all_blocked :
      (id blocker : String) (r : Rule) (rn : Runner) (m : Dict Rule) (p : Progress)
      → Distinct m
      → lookup id m ≡ some r
      → lookup blocker m ≡ none
      → lookup id p.runners ≡ none
      → lookup blocker p.runners ≡ some rn
      → on_port rn r ≡ true
      → lookup id (visit_all w m p).runners ≡ none
  unfolding visit_all
  visit_all_blocked id blocker r rn [] p d e b l k o = l
  visit_all_blocked id blocker r rn ((j, q) ∷ m) p d e b l k o = elim (String-discrete j id) [
    | yes same ↦
        ground (arith, visit_all_other w id m (visit w j q p), visit_blocked j q rn blocker p)
    | no other ↦
        visit_all_blocked id blocker r rn m (visit w j q p) d.1 (ground arith) (ground arith)
          (ground (arith, visit_other w j id q p)) (ground (arith, visit_other w j blocker q p)) o
  ]

module _ (w : World) (s : Server) (ok : VisitsAll w.order (desired s.cfg.rules)) where
  -- An enabled server-side rule runs after `applyRulesLocked`, with the addresses of the configuration,
  -- if its protocol is known, nobody else has its port, no listener of another rule holds the
  -- port, and no other such rule of the configuration wants it.
  pub apply_rules_starts :
      (id : String) (r : Rule)
      → lookup id (desired s.cfg.rules) ≡ some r
      → (r.proto ≡ "tcp") ⊎ (r.proto ≡ "udp")
      → w.taken r.proto r.listen ≡ false
      → free id r s.runners ≡ true
      → ((j : String) (q : Rule)
          → lookup j (desired s.cfg.rules) ≡ some q
          → j ≢ id
          → on_port (runner_for q) r ≡ false)
      → (rn : Runner) × (lookup id (apply_rules w s).runners ≡ some rn) × (same_as rn r ≡ true)
  apply_rules_starts id r e proto open_port f alone =
      elim (Option-cases (lookup id (apply_rules w s).runners)) [
        | inl absent ↦ ground (arith, runs, lookup-apply w s ok id r e)
        | inr (rn, l) ↦ (rn, l, sound rn (apply_rules_sound w s ok id rn l))
      ]
    where
      runs :
          is_some (
            lookup id
              (visit_all w
                (w.order (desired s.cfg.rules))
                (record { runners = s.runners; notifier = s.notifier })).runners)
          ≡ true
      runs =
          visit_all_starts w id r (w.order (desired s.cfg.rules))
            (record { runners = s.runners; notifier = s.notifier }) (proto, open_port) ok.once
            (ok.each id ∙ e) (λ j q l ne. alone j q (sym (ok.each j) ∙ l) ne) f

      sound :
          (rn : Runner)
          → (q : Rule) × (lookup id (desired s.cfg.rules) ≡ some q) × (same_as rn q ≡ true)
          → same_as rn r ≡ true
      sound rn (q, l, same) = ground arith

  -- A rule that takes over the port of a listener which the configuration no longer has is not
  -- started, since the old listener is closed only after the loop: afterwards neither of the two
  -- has a listener.
  pub apply_rules_handover :
      (id old : String) (r : Rule) (rn : Runner)
      → lookup id (desired s.cfg.rules) ≡ some r
      → lookup old (desired s.cfg.rules) ≡ none
      → lookup id s.runners ≡ none
      → lookup old s.runners ≡ some rn
      → on_port rn r ≡ true
      → (lookup id (apply_rules w s).runners ≡ none) × (lookup old (apply_rules w s).runners ≡ none)
  apply_rules_handover id old r rn e a l k o = (
    lookup-apply w s ok id r e
        ∙ visit_all_blocked w id old r rn (w.order (desired s.cfg.rules))
            (record { runners = s.runners; notifier = s.notifier }) ok.once (ok.each id ∙ e)
            (ok.each old ∙ a) l k o,
    lookup-apply_absent w s ok old a,
  )
