-- ===== src/Config/Client.antt =====
-- config/config.go: the configuration of a client, `ClientConfig` and `LoadClient`.
--
-- `readable` says whether the content of the file decodes.
use caochuan.Base.{String, ◌≡◌, refl, Bool, true, false, Option, none, some, if◌then◌else◌}
use caochuan.Config.File.{whole, torn, Disk, Fault, no_fault, save}

pub record ClientConfig : Type 0 where
  pub server_addr : String
  pub token : String
  pub no_tls : Bool
  pub tls_fingerprint : String
  pub log_file : String
  pub socks5_listen : String

-- The template that is written where there is no file.
abbrev pub client_template : ClientConfig
client_template = record {
  server_addr = "1.2.3.4:7000";
  token = "从server面板获取";
  no_tls = false;
  tls_fingerprint = "";
  log_file = "";
  socks5_listen = "";
}

-- `LoadClient`: no configuration stands for an error, which a missing file also is.
unfoldable pub load_client :
    Bool → Fault → Disk ClientConfig → Option ClientConfig × Disk ClientConfig
load_client readable f d = elim d.file [
  | none ↦ (none, (save f client_template d).1)
  | some content ↦ elim content [
    | torn ↦ (none, d)
    | whole cfg ↦ (if readable then some cfg else none, d)
  ]
]

-- A second start finds the template that the first one wrote.
pub load_client-template :
    (d : Disk ClientConfig)
    → d.file ≡ none
    → ((load_client true no_fault d).0 ≡ none)
      × ((load_client true no_fault (load_client true no_fault d).1).0 ≡ some client_template)
unfolding load_client save
load_client-template d e = rw (load_client, e) (refl, refl)
