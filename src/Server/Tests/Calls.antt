-- ===== src/Server/Tests/Calls.antt =====
-- server/state.go: the panel's calls on a concrete server.
use caochuan.Base.{◌≡◌, refl, inl, inr, true, false, none, [], ◌∷◌, String-discrete, differ}
use caochuan.Base.Int.{pos}
use caochuan.Config.{Rule, ServerConfig}
use caochuan.Config.Fixtures.{some_rule, some_config}
use caochuan.Config.File.{no_fault, write_fails}
use caochuan.Server.State.{Server, World}
use caochuan.Config.Acl.{new_acl}
use caochuan.Relay.Targets.{
  parse_targets, split, collect, trim_space, trim_left, trim_right, keep, is_space,
}
use caochuan.Server.Validate.{validate_rule, check_limits, check_peers}
use caochuan.Server.Rules.Tidy.{IsTidy}
use caochuan.Server.Settings.{export_config, import_config}
use caochuan.Server.Requests.Importable.{IsValidConfig}
use caochuan.Server.Requests.Valid.{handle-IsValidConfig, import_config-export_config}
use caochuan.Server.Requests.{change_password, add_a_rule, enable_a_rule, delete_a_client, handle}
use caochuan.Server.Requests.Rollback.{IsSynced, IsSaved, Ends, rolls_back, handle-Ends}
use caochuan.Server.Requests.Saved.{serve, serve-IsSaved}
use caochuan.Server.Requests.Tidy.{is_import, handle-IsTidy}
use caochuan.Server.Requests.Running.{Configured, handle-Configured}
use caochuan.Server.Fixtures.{
  live-IsTidy, live-Configured, world_at, keys_once-VisitsAll, live, live_config,
}

abbrev fine : World
fine = world_at 1000 no_fault

abbrev full_disk : World
full_disk = world_at 1000 write_fails

live-IsSynced : IsSynced live
unfolding String-discrete
live-IsSynced = record { url = refl; format = refl }

handle-Ends_example : Ends live (handle full_disk (change_password "new") live)
unfolding rolls_back
handle-Ends_example = handle-Ends full_disk (change_password "new") live refl live-IsSynced

serve-IsSaved_example :
    IsSynced
      (serve ((full_disk, change_password "new") ∷ (fine, enable_a_rule "r1" false) ∷ []) live)
    × IsSaved
        (serve ((full_disk, change_password "new") ∷ (fine, enable_a_rule "r1" false) ∷ []) live)
unfolding rolls_back
serve-IsSaved_example =
    serve-IsSaved ((full_disk, change_password "new") ∷ (fine, enable_a_rule "r1" false) ∷ []) live
      (inl refl, (inr refl, tt)) live-IsSynced refl

abbrev new_rule : Rule
new_rule = record some_rule { id = ""; name = "ssh"; listen = pos 2222 }

handle-IsTidy_example : IsTidy (handle fine (add_a_rule new_rule) live).1.cfg.rules
unfolding String-discrete is_import
handle-IsTidy_example =
    handle-IsTidy fine (add_a_rule new_rule) live refl
      (differ "01234567" "" refl, (differ "r1" "01234567" refl, tt)) live-IsTidy

handle-Configured_example :
    Configured
      (handle fine (enable_a_rule "r1" false) live).1.runners
      (handle fine (enable_a_rule "r1" false) live).1.cfg.rules
handle-Configured_example =
    handle-Configured fine keys_once-VisitsAll (enable_a_rule "r1" false) live live-Configured

-- The one rule twice.
abbrev twice : ServerConfig
twice = record some_config { rules = some_rule ∷ some_rule ∷ [] }

twice-untidy : ¬ IsTidy twice.rules
twice-untidy t = t.separate.0.0.ids refl

-- A client is online with a control stream.
abbrev online : Server
online = record live {
  clients =
      (
        "pc",
        record {
          name = "pc";
          addr = "203.0.113.7:4000";
          version = "1";
          session = 1;
          since = 5;
          has_control = true;
          pushed = [];
          status = [];
        },
      )
      ∷ [];
}

live-IsValidConfig : IsValidConfig fine live.cfg
unfolding validate_rule check_limits check_peers new_acl parse_targets split collect trim_space
    trim_left trim_right keep is_space String-discrete
live-IsValidConfig = record { whitelist = refl; blacklist = refl; rules = (refl, tt) }

handle-IsValidConfig_example : IsValidConfig fine (handle fine (delete_a_client "pc") live).1.cfg
handle-IsValidConfig_example =
    handle-IsValidConfig fine (delete_a_client "pc") live live-IsValidConfig

-- Another server, with its own addresses.
abbrev elsewhere : Server
elsewhere = record live { cfg = record live_config { tunnel_addr = "0.0.0.0:9000"; rules = [] } }

imported_elsewhere :
    ((import_config fine (export_config live) elsewhere).0 ≡ none)
    × (export_config (import_config fine (export_config live) elsewhere).1
        ≡ record live.cfg { tunnel_addr = "0.0.0.0:9000" })
imported_elsewhere = import_config-export_config fine live elsewhere live-IsValidConfig refl
