-- ===== src/Server/Requests.antt =====
-- server/state.go: the calls of the panel that change the state, as one step.
pub mod Rollback
pub mod Saved
pub mod Tidy
pub mod Running
pub mod Importable
pub mod Registered
pub mod Valid
pub mod Push
use caochuan.Base.{String, Bool, List}
use caochuan.Config.{Rule, ServerConfig}
use caochuan.Server.State.{World, Server, Outcome}
use caochuan.Server.Rules.{add_rule, update_rule, delete_rule, set_rule_enabled}
use caochuan.Server.Clients.{add_client, delete_client}
use caochuan.Server.Settings.{
  set_ip_whitelist, set_ip_blacklist, set_password, set_notify, import_config,
}

pub data Request : Type 0 where
  add_a_rule : Rule → Request
  update_a_rule : String → Rule → Request
  delete_a_rule : String → Request
  enable_a_rule : String → Bool → Request
  add_a_client : String → String → Request
  delete_a_client : String → Request
  whitelist blacklist : List String → Request
  change_password : String → Request
  notify : String → String → Request
  import_all : ServerConfig → Request

-- The call that the panel's handler makes.
unfoldable pub handle : World → Request → Server → Outcome
handle w (add_a_rule r) s = add_rule w r s
handle w (update_a_rule id r) s = update_rule w id r s
handle w (delete_a_rule id) s = delete_rule w id s
handle w (enable_a_rule id on) s = set_rule_enabled w id on s
handle w (add_a_client name note) s = add_client w name note s
handle w (delete_a_client name) s = delete_client w name s
handle w (whitelist entries) s = set_ip_whitelist w entries s
handle w (blacklist entries) s = set_ip_blacklist w entries s
handle w (change_password password) s = set_password w password s
handle w (notify url format) s = set_notify w url format s
handle w (import_all new) s = import_config w new s
