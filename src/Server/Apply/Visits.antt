-- ===== src/Server/Apply/Visits.antt =====
-- server/server.go: the rounds of the loop of `applyRulesLocked`.
use caochuan.Base.{
  String, ◌≡◌, refl, ◌≢◌, Bool, true, Option, none, some, [], ◌∷◌, arith, if◌then◌else◌,
  String-discrete,
}
use caochuan.Base.Dict.{Dict, lookup, erase, Distinct, lookup-insert, lookup-erase}
use caochuan.Config.{Rule}
use caochuan.Server.State.{World, Runner}
use caochuan.Server.Apply.{same_as, Progress, runner_for, can_start, launch, visit, visit_all}

-- A rule is not running, or runs as the configuration has it.
abbrev pub settled : Rule → Option Runner → Bool
settled r none = true
settled r (some rn) = same_as rn r

runner_for-same : (r : Rule) → same_as (runner_for r) r ≡ true
unfolding same_as
runner_for-same r = ground arith

module _ (w : World) where
  launch_other :
      (id j : String) (r : Rule) (p : Progress)
      → id ≢ j
      → lookup j (launch w id r p).runners ≡ lookup j p.runners
  unfolding launch
  launch_other id j r p ne = ground (arith, lookup-insert id j (runner_for r) p.runners)

  pub visit_other :
      (id j : String) (r : Rule) (p : Progress)
      → id ≢ j
      → lookup j (visit w id r p).runners ≡ lookup j p.runners
  unfolding visit
  visit_other id j r p ne = ground (
    arith,
    launch_other id j r p ne,
    launch_other id j r (record p { runners = erase id p.runners }) ne,
    lookup-erase id j p.runners,
  )

  pub launch_self :
      (id : String) (r : Rule) (p : Progress)
      → lookup id p.runners ≡ none
      → lookup id (launch w id r p).runners
        ≡ (if can_start w r p.runners then some (runner_for r) else none)
  unfolding launch
  launch_self id r p e = ground (arith, lookup-insert id id (runner_for r) p.runners)

  -- After its round a rule is settled.
  pub visit_self :
      (id : String) (r : Rule) (p : Progress)
      → settled r (lookup id (visit w id r p).runners) ≡ true
  unfolding visit
  visit_self id r p = ground (
    arith,
    launch_self id r p,
    launch_self id r (record p { runners = erase id p.runners }),
    lookup-erase id id p.runners,
    runner_for-same r,
  )

  -- A round leaves a listener alone that is as the rule has it.
  visit_same :
      (id : String) (r : Rule) (p : Progress) (rn : Runner)
      → lookup id p.runners ≡ some rn
      → same_as rn r ≡ true
      → visit w id r p ≡ p
  unfolding visit
  visit_same id r p rn e s = ground arith

  pub visit_all_other :
      (j : String) (m : Dict Rule) (p : Progress)
      → lookup j m ≡ none
      → lookup j (visit_all w m p).runners ≡ lookup j p.runners
  unfolding visit_all
  visit_all_other j [] p e = refl
  visit_all_other j ((id, r) ∷ m) p e =
      ground (arith, visit_all_other j m (visit w id r p), visit_other id j r p)

  pub visit_all-settled :
      (j : String) (r : Rule) (m : Dict Rule) (p : Progress)
      → Distinct m
      → lookup j m ≡ some r
      → settled r (lookup j (visit_all w m p).runners) ≡ true
  unfolding visit_all
  visit_all-settled j r [] p d e = cc
  visit_all-settled j r ((id, q) ∷ m) p d e = elim (String-discrete id j) [
    | yes same ↦ ground (arith, visit_all_other j m (visit w id q p), visit_self id q p)
    | no other ↦ ground (arith, visit_all-settled j r m (visit w id q p) d.1)
  ]

  pub visit_all_same :
      (j : String) (r : Rule) (m : Dict Rule) (p : Progress) (rn : Runner)
      → Distinct m
      → lookup j m ≡ some r
      → lookup j p.runners ≡ some rn
      → same_as rn r ≡ true
      → lookup j (visit_all w m p).runners ≡ some rn
  unfolding visit_all
  visit_all_same j r [] p rn d e l s = cc
  visit_all_same j r ((id, q) ∷ m) p rn d e l s = elim (String-discrete id j) [
    | yes same ↦ ground (arith, visit_all_other j m (visit w id q p), visit_same id q p rn)
    | no other ↦ ground (arith, visit_all_same j r m (visit w id q p) rn d.1, visit_other id j q p)
  ]
