-- ===== src/Server/Lifecycle/Start.antt =====
-- server/server.go: what runs after the start.
use caochuan.Base.{
  ◌&&◌, ◌||◌, str_eq, String, ◌≡◌, refl, sym, ap, subst, ◌∙◌, ◌↔◌, ◌⊎◌, inl, inr, true, false,
  Option, none, some, [], ◌∷◌, arith, Bool-cases, String-discrete, All, All-get_elem?,
}
use mathlib.Core.Option.{some-injective}
use caochuan.Base.Int.{ℤ, eqb_ℤ}
use caochuan.Base.Dict.{Dict, lookup, Distinct}
use caochuan.Config.{Rule, ServerConfig}
use caochuan.Server.State.{World, Server, Runner}
use caochuan.Server.Apply.{desired, same_as, Progress, can_start, visit, visit_all, apply_rules}
use caochuan.Server.Apply.Visits.{visit_all_other, visit_other, launch_self}
use caochuan.Server.Apply.Result.{VisitsAll, lookup-apply, apply_rules_sound}
use caochuan.Server.Apply.Ports.{free, apply_rules_starts}
use caochuan.Server.Rules.Tidy.{IsTidy}
use caochuan.Server.Certificate.{Crypto, CertManager, Files}
use caochuan.Config.File.{Disk}
use caochuan.Server.Lifecycle.{initial, new_server, Life, beside, begin_run}
use caochuan.Server.Requests.Running.{Configured}
use caochuan.Server.Lifecycle.Listed.{desired-Listed, alone-IsTidy}

abbrev pub HasProtocol : Rule → Type 0
HasProtocol q = (q.proto ≡ "tcp") ⊎ (q.proto ≡ "udp")

-- A listener runs under an id with the addresses of a rule.
abbrev pub Runs : String → Rule → Server → Type 0
Runs id r s = (rn : Runner) × (lookup id s.runners ≡ some rn) × (same_as rn r ≡ true)

server-new_server :
    (c : Crypto) (in_dir : String → String) (cfg : ServerConfig) (disk : Disk ServerConfig)
    (files : Files) (s : Server) (certs : Option CertManager)
    → new_server c in_dir cfg disk files ≡ some (s, certs)
    → s ≡ initial cfg disk
unfolding new_server
server-new_server c in_dir cfg disk files s certs e = ground (arith, e)

module _ (w : World) where
  visit-taken :
      (id : String) (r : Rule) (p : Progress)
      → lookup id p.runners ≡ none
      → w.taken r.proto r.listen ≡ true
      → lookup id (visit w id r p).runners ≡ none
  unfolding visit can_start
  visit-taken id r p n t = ground (arith, launch_self w id r p, n, t)

  -- A rule whose port others have is not started.
  visit_all-taken :
      (id : String) (r : Rule) (m : Dict Rule) (p : Progress)
      → Distinct m
      → lookup id m ≡ some r
      → w.taken r.proto r.listen ≡ true
      → lookup id p.runners ≡ none
      → lookup id (visit_all w m p).runners ≡ none
  unfolding visit_all
  visit_all-taken id r [] p d e t n = n
  visit_all-taken id r ((j, q) ∷ m) p d e t n = elim (String-discrete j id) [
    | no o ↦
        visit_all-taken id r m (visit w j q p) d.1 (ground (arith, e, o)) t
          (visit_other w j id q p o ∙ n)
    | yes o ↦
        let same : q ≡ r = some-injective q r (ground (arith, e, o)) in
        visit_all_other w id m (visit w j q p) (ground (arith, d.0, o))
        ∙ ground (arith, o, same, visit-taken id r p n t)
  ]

  taken-stays :
      (s : Server) (id : String) (r : Rule) (rn : Runner)
      → VisitsAll w.order (desired s.cfg.rules)
      → s.runners ≡ []
      → lookup id (desired s.cfg.rules) ≡ some r
      → lookup id (apply_rules w s).runners ≡ some rn
      → w.taken r.proto r.listen ≡ false
  taken-stays s id r rn ok none_run e f = elim (Bool-cases (w.taken r.proto r.listen)) [
    | inr n ↦ n
    | inl t ↦
        let absent =
          lookup-apply w s ok id r e
          ∙ visit_all-taken id r (w.order (desired s.cfg.rules))
              (record { runners = s.runners; notifier = s.notifier }) ok.once (ok.each id ∙ e) t
              (ap (lookup id) none_run) in
        cc (absent, f)
  ]

  free-none : (id : String) (r : Rule) (m : Dict Runner) → m ≡ [] → free id r m ≡ true
  unfolding free
  free-none id r m e = rw e refl

  apply_rules-starting :
      (s : Server) (id : String) (r : Rule)
      → VisitsAll w.order (desired s.cfg.rules)
      → s.runners ≡ []
      → IsTidy s.cfg.rules
      → All HasProtocol s.cfg.rules
      → lookup id (desired s.cfg.rules) ≡ some r
      → (w.taken r.proto r.listen ≡ false) ↔ Runs id r (apply_rules w s)
  apply_rules-starting s id r ok none_run t protos e = (
    λ open_port.
        let (i, a, b, c) = desired-Listed id s.cfg.rules r e in
        apply_rules_starts w s ok id r e (All-get_elem? HasProtocol s.cfg.rules i r protos a)
          open_port (free-none id r s.runners none_run)
          (λ j q f n. alone-IsTidy s.cfg.rules id j r q t e f n),
    λ p. taken-stays s id r p.0 ok none_run e p.1,
  )

  starting :
      (cfg : ServerConfig) (disk : Disk ServerConfig) (id : String) (r : Rule)
      → VisitsAll w.order (desired cfg.rules)
      → IsTidy cfg.rules
      → All HasProtocol cfg.rules
      → lookup id (desired cfg.rules) ≡ some r
      → let s = apply_rules w (initial cfg disk) in
        Configured s.runners cfg.rules × ((w.taken r.proto r.listen ≡ false) ↔ Runs id r s)
  unfolding initial
  starting cfg disk id r ok t protos e = (
    apply_rules_sound w (initial cfg disk) ok,
    apply_rules-starting (initial cfg disk) id r ok refl t protos e,
  )

module _ (w : World) (tunnel : ℤ) where
  server-begin_run :
      (s : Server) (l : Life)
      → begin_run w (some tunnel) s ≡ some l
      → l.server ≡ apply_rules (beside tunnel w) s
  unfolding begin_run
  server-begin_run s l e = ground (arith, e)

  -- The listeners right after the start of a server whose tunnel has a port, from a configuration whose
  -- rules are apart and of protocols that there are, where maps are visited entry by entry. Each listener
  -- belongs to an enabled server-side rule of the configuration and has its protocol, port, target and
  -- client; and such a rule has its listener exactly if its port is neither that of the tunnel, under TCP,
  -- nor held by others.
  pub begin_run-Runs :
      (c : Crypto) (in_dir : String → String) (cfg : ServerConfig) (disk : Disk ServerConfig)
      (files : Files) (s : Server) (certs : Option CertManager) (l : Life) (id : String) (r : Rule)
      → new_server c in_dir cfg disk files ≡ some (s, certs)
      → begin_run w (some tunnel) s ≡ some l
      → VisitsAll w.order (desired cfg.rules)
      → IsTidy cfg.rules
      → All HasProtocol cfg.rules
      → lookup id (desired cfg.rules) ≡ some r
      → Configured l.server.runners cfg.rules
        × (((str_eq r.proto "tcp" && eqb_ℤ r.listen tunnel) || w.taken r.proto r.listen ≡ false)
            ↔ Runs id r l.server)
  begin_run-Runs c in_dir cfg disk files s certs l id r e f ok t protos d =
      let w' = beside tunnel w in
      let same : l.server ≡ apply_rules w' (initial cfg disk) =
        server-begin_run s l f
        ∙ ap (apply_rules w') (server-new_server c in_dir cfg disk files s certs e) in
      subst
        (λ x. Configured x.runners cfg.rules × ((w'.taken r.proto r.listen ≡ false) ↔ Runs id r x))
        (sym same) (starting w' cfg disk id r ok t protos d)
