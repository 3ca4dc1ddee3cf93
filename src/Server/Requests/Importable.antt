-- ===== src/Server/Requests/Importable.antt =====
-- server/state.go: what a configuration must be for `ImportConfig` to take it.
use caochuan.Base.{
  String, ◌≡◌, refl, sym, ap, ◌∙◌, inl, inr, Bool, true, false, none, List, [], ◌∷◌, ◌++◌, arith,
  Option-cases, str_eq, is_some, any, All, All-map,
}
use mathlib.Core.Path.{subst₂}
use caochuan.Config.{Rule, ServerConfig, ClientUser}
use caochuan.Config.Acl.{new_acl}
use caochuan.Server.State.{World}
use caochuan.Server.Validate.{registered, check_peers, check_limits, validate_rule}
use caochuan.Server.Rules.{with_rules}
use caochuan.Server.Clients.{remove_client}
use caochuan.Server.Settings.{import_error, imported, first_invalid}

module _ (w : World) where
  abbrev pub AreValid : List ClientUser → List Rule → Type 0
  AreValid clients rules = All (λ r. validate_rule w r clients ≡ none) rules

  -- The two lists compile, and each rule passes `validateRule` with the registered clients.
  pub record IsValidConfig (cfg : ServerConfig) : Type 0 where
    pub whitelist : is_some (new_acl w.netip cfg.ip_whitelist) ≡ true
    pub blacklist : is_some (new_acl w.netip cfg.ip_blacklist) ≡ true
    pub rules : AreValid cfg.clients cfg.rules

  pub alike-IsValidConfig :
      (cfg other : ServerConfig)
      → other.ip_whitelist ≡ cfg.ip_whitelist
      → other.ip_blacklist ≡ cfg.ip_blacklist
      → other.clients ≡ cfg.clients
      → other.rules ≡ cfg.rules
      → IsValidConfig cfg
      → IsValidConfig other
  alike-IsValidConfig cfg other a b c d v = record {
    whitelist = ap (λ l. is_some (new_acl w.netip l)) a ∙ v.whitelist;
    blacklist = ap (λ l. is_some (new_acl w.netip l)) b ∙ v.blacklist;
    rules = subst₂ AreValid (sym c) (sym d) v.rules;
  }

  pub with_rules-IsValidConfig :
      (rules : List Rule) (cfg : ServerConfig)
      → IsValidConfig cfg
      → AreValid cfg.clients rules
      → IsValidConfig (with_rules rules cfg)
  with_rules-IsValidConfig rules cfg v h = record {
    whitelist = v.whitelist;
    blacklist = v.blacklist;
    rules = h;
  }

  -- The id and the switch of a rule do not matter.
  pub validate_rule-switched :
      (r : Rule) (id : String) (on : Bool) (clients : List ClientUser)
      → validate_rule w (record r { id = id; enabled = on }) clients ≡ validate_rule w r clients
  unfolding validate_rule check_limits check_peers
  validate_rule-switched r id on clients = refl

  pub check_peers-clients :
      (r : Rule) (clients others : List ClientUser)
      → (registered r.client clients ≡ true → registered r.client others ≡ true)
      → check_peers w r clients ≡ none
      → check_peers w r others ≡ none
  unfolding check_peers
  check_peers-clients r clients others f h = ground (arith, f, h)

  pub check_limits-clients :
      (r : Rule) (clients others : List ClientUser)
      → (registered r.client clients ≡ true → registered r.client others ≡ true)
      → check_limits w r clients ≡ none
      → check_limits w r others ≡ none
  unfolding check_limits
  check_limits-clients r clients others f h =
      ground (arith, check_peers-clients r clients others f, h)

  -- Nor do the clients that the rule does not name.
  pub validate_rule-clients :
      (r : Rule) (clients others : List ClientUser)
      → (registered r.client clients ≡ true → registered r.client others ≡ true)
      → validate_rule w r clients ≡ none
      → validate_rule w r others ≡ none
  unfolding validate_rule
  validate_rule-clients r clients others f h =
      ground (arith, check_limits-clients r clients others f, h)

  pub registered-append :
      (name : String) (clients more : List ClientUser)
      → registered name clients ≡ true
      → registered name (clients ++ more) ≡ true
  registered-append name [] more h = cc
  registered-append name (c ∷ cs) more h = ground (arith, registered-append name cs more)

  pub AreValid-append :
      (rules : List Rule) (clients more : List ClientUser)
      → AreValid clients rules
      → AreValid (clients ++ more) rules
  AreValid-append rules clients more v =
      All-map {P = λ r. validate_rule w r clients ≡ none}
        {Q = λ r. validate_rule w r (clients ++ more) ≡ none}
        (λ r h.
          validate_rule-clients r clients (clients ++ more)
            (registered-append r.client clients more) h)
        rules v

  pub registered-remove_client :
      (name other : String) (clients : List ClientUser)
      → str_eq other name ≡ false
      → registered other clients ≡ true
      → registered other (remove_client name clients) ≡ true
  unfolding remove_client
  registered-remove_client name other [] n h = cc
  registered-remove_client name other (c ∷ cs) n h =
      ground (arith, n, h, registered-remove_client name other cs n)

  -- No rule names the client that is removed.
  pub AreValid-remove_client :
      (name : String) (rules : List Rule) (clients : List ClientUser)
      → any (λ r. str_eq r.client name) rules ≡ false
      → AreValid clients rules
      → AreValid (remove_client name clients) rules
  AreValid-remove_client name [] clients n v = tt
  AreValid-remove_client name (r ∷ rs) clients n v = (
    validate_rule-clients r clients (remove_client name clients)
        (registered-remove_client name r.client clients (ground (arith, n))) v.0,
    AreValid-remove_client name rs clients (ground (arith, n)) v.1,
  )

  pub first_invalid_sound :
      (rules : List Rule) (clients : List ClientUser)
      → first_invalid w rules clients ≡ none
      → AreValid clients rules
  unfolding first_invalid
  first_invalid_sound [] clients h = tt
  first_invalid_sound (r ∷ rs) clients h = elim (Option-cases (validate_rule w r clients)) [
    | inl e ↦ (e, first_invalid_sound rs clients (ground (arith, e, h)))
    | inr (x, e) ↦ absurd (ground (arith, e, h))
  ]

  pub first_invalid_complete :
      (rules : List Rule) (clients : List ClientUser)
      → AreValid clients rules
      → first_invalid w rules clients ≡ none
  unfolding first_invalid
  first_invalid_complete [] clients v = refl
  first_invalid_complete (r ∷ rs) clients v =
      ground (arith, v.0, first_invalid_complete rs clients v.1)

  -- A configuration that the import takes, and only such a one.
  pub import_error-none : (cfg : ServerConfig) → import_error w cfg ≡ none → IsValidConfig cfg
  unfolding import_error
  import_error-none cfg h = record {
    whitelist = ground (arith, h);
    blacklist = ground (arith, h);
    rules = first_invalid_sound cfg.rules cfg.clients (ground (arith, h));
  }

  pub none-import_error : (cfg : ServerConfig) → IsValidConfig cfg → import_error w cfg ≡ none
  unfolding import_error
  none-import_error cfg v =
      ground (arith, v.whitelist, v.blacklist, first_invalid_complete cfg.rules cfg.clients v.rules)

  pub imported-IsValidConfig :
      (new cfg : ServerConfig) → IsValidConfig new → IsValidConfig (imported new cfg)
  unfolding imported
  imported-IsValidConfig new cfg v = record {
    whitelist = v.whitelist;
    blacklist = v.blacklist;
    rules = v.rules;
  }
