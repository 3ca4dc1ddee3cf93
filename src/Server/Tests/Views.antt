-- ===== src/Server/Tests/Views.antt =====
-- server/: the panel's views and the certificate on concrete inputs.
use caochuan.Base.{
  get_elem?, ◌≡◌, refl, ◌⊎◌, true, none, some, List, [], ◌∷◌, String-discrete, differ,
}
use caochuan.Base.Dict.{Dict}
use caochuan.Config.Fixtures.{some_rule}
use caochuan.Config.Acl.{new_acl}
use caochuan.Config.File.{no_fault, save}
use caochuan.Server.State.{World}
use caochuan.Server.History.{Stat}
use caochuan.Server.Apply.{same_as, apply_rules, visit_all, visit, launch, desired, collect_desired}
use caochuan.Server.Requests.{Request, handle, blacklist, enable_a_rule}
use caochuan.Server.Requests.Saved.{serve}
use caochuan.Server.Rules.{set_rule_enabled, at_rule, find_index, commit_rules, broadcast_rules}
use caochuan.Server.Settings.{set_ip_blacklist, commit_config}
use caochuan.Server.Views.{rule_view, running_of}
use caochuan.Server.Views.Running.{Listens, IsReported}
use caochuan.Server.Views.Calls.{Usual, serve-running}
use caochuan.Server.Certificate.{Crypto, CertManager, Files}
use caochuan.Server.Fixtures.{live-IsTidy, live-Configured, world_at, keys_once-VisitsAll, live}

abbrev fine : World
fine = world_at 1000 no_fault

abbrev no_stats : Dict Stat
no_stats = []

-- A library that makes one certificate, and files that can be written.
abbrev crypto : Crypto
crypto = record {
  pair = λ cert key. some cert;
  generate = some (1 ∷ [], 2 ∷ []);
  pem_cert = λ b. b;
  pem_key = λ b. b;
  hash = λ b. b;
  write_error = λ path. none;
}

abbrev made : CertManager
made = record { certificate = 1 ∷ []; fingerprint = 1 ∷ [] }

abbrev written : Files
written = ("server.key", 2 ∷ []) ∷ ("server.crt", 1 ∷ []) ∷ []

abbrev history : List (World × Request)
history = (fine, enable_a_rule "r1" true) ∷ (fine, blacklist ("10.0.0.0/8" ∷ [])) ∷ []

history-Usual : Usual history live
unfolding handle set_rule_enabled at_rule find_index commit_rules broadcast_rules apply_rules save
    String-discrete
history-Usual = (
  tt,
  (differ "01234567" "" refl, (differ "r1" "01234567" refl, tt)),
  keys_once-VisitsAll,
  (tt, (differ "01234567" "" refl, (differ "r1" "01234567" refl, tt)), keys_once-VisitsAll, tt),
)

still_there : get_elem? (serve history live).cfg.rules 0 ≡ some some_rule
unfolding serve handle set_rule_enabled at_rule find_index commit_rules broadcast_rules apply_rules
    save set_ip_blacklist commit_config new_acl String-discrete
still_there = refl

still_running : (rule_view (serve history live) no_stats [] some_rule).running ≡ true
unfolding serve handle set_rule_enabled at_rule find_index commit_rules broadcast_rules apply_rules
    save set_ip_blacklist commit_config new_acl rule_view running_of visit_all visit launch desired
    collect_desired same_as String-discrete
still_running = refl

serve-running_example :
    (some_rule.enabled ≡ true)
    × (Listens (serve history live) some_rule ⊎ IsReported (serve history live) some_rule)
serve-running_example =
    serve-running history live no_stats [] 0 some_rule history-Usual live-Configured live-IsTidy
      still_there still_running
