-- ===== src/Config/File.antt =====
-- config/config.go: `Save`, `LoadServer` and `LoadClient`, and how `runServer` (cmd/caochuan/run.go) uses what it gets.
--
-- The file system is the two files that `save` touches. A write or a rename may fail: `Fault` is what
-- the operating system does at this call, and a failed write may leave a torn temporary file.
pub mod Loading
use caochuan.Base.{
  ℕ, ◌-◌, String, ◌≡◌, refl, ◌≢◌, ◌⊎◌, inl, inr, Bool, true, false, not, ◌&&◌, Option, none, some,
  [], ◌∷◌, if◌then◌else◌, str_eq,
}
use Prim.Native.String.{slice}
use caochuan.Config.{ServerConfig}

pub data Content (V : Type 0) : Type 0 where
  whole : V → Content V
  torn : Content V

pub record Disk (V : Type 0) : Type 0 where
  pub file : Option (Content V)
  pub tmp : Option (Content V)

pub data Fault : Type 0 where
  no_fault write_fails rename_fails : Fault

-- `save`: the error, if any, and the files after it.
unfoldable pub save : {V : Type 0} → Fault → V → Disk V → Bool × Disk V
save no_fault v d = (true, record { file = some (whole v); tmp = none })
save write_fails v d = (false, record d { tmp = some torn })
save rename_fails v d = (false, record d { tmp = some (whole v) })

-- Whatever fails, the configuration file afterwards is the one before or the new one, whole: the new
-- one exactly if `save` reports success.
pub save-atomic :
    {V : Type 0} (f : Fault) (v : V) (d : Disk V)
    → (((save f v d).0 ≡ true) × ((save f v d).1.file ≡ some (whole v)))
      ⊎ (((save f v d).0 ≡ false) × ((save f v d).1.file ≡ d.file))
unfolding save
save-atomic no_fault v d = inl (refl, refl)
save-atomic write_fails v d = inr (refl, refl)
save-atomic rename_fails v d = inr (refl, refl)

pub save_fails :
    {V : Type 0} (f : Fault) (v : V) (d : Disk V) → f ≢ no_fault → (save f v d).0 ≡ false
unfolding save
save_fails no_fault v d h = absurd (h refl)
save_fails write_fails v d h = refl
save_fails rename_fails v d h = refl

pub save_works : {V : Type 0} (v : V) (d : Disk V) → (save no_fault v d).0 ≡ true
unfolding save
save_works v d = refl

-- The first eight characters of a token, `RandToken()[:8]`.
abbrev pub short : String → String
short s = slice s 0 8

-- The configuration that a first start writes; `draws i` is the i-th result of `RandToken`.
abbrev pub default_config : (ℕ → String) → ServerConfig
default_config draws = record {
  tunnel_addr = "0.0.0.0:7000";
  panel_addr = "0.0.0.0:7500";
  password = short (draws 0);
  no_auth = false;
  panel_prefix = short (draws 1);
  ip_whitelist = [];
  secret = draws 2;
  no_tls = false;
  tls_cert = "";
  tls_key = "";
  log_file = "";
  notify_url = "";
  notify_format = "";
  ip_blacklist = [];
  clients = record { name = "client1"; token = draws 3; note = "" } ∷ [];
  rules = [];
}

-- A configuration, and whether its password was generated.
abbrev pub Loaded : Type 0
Loaded = Option (ServerConfig × Bool) × Disk ServerConfig

stored : Fault → ServerConfig → Bool → Disk ServerConfig → Loaded
stored f cfg generated d =
    let (saved, d') = save f cfg d in (if saved then some (cfg, generated) else none, d')

fill_password : Fault → String → ServerConfig → Disk ServerConfig → Loaded
unfolding stored
fill_password f token cfg d =
    if not cfg.no_auth && str_eq cfg.password ""
    then stored f (record cfg { password = short token }) true d
    else (some (cfg, false), d)

fill_secret : Fault → Fault → (ℕ → String) → ServerConfig → Disk ServerConfig → Loaded
unfolding fill_password
fill_secret f g draws cfg d =
    if str_eq cfg.secret ""
    then (let cfg' = record cfg { secret = draws 0 } in
        let (saved, d') = save f cfg' d in
        if saved then fill_password g (draws 1) cfg' d' else (none, d'))
    else fill_password g (draws 0) cfg d

-- `LoadServer`: `f` is what happens to the save of a default configuration or of a new secret, `g` to
-- the save of a new password.
pub load_server : Bool → Fault → Fault → (ℕ → String) → Disk ServerConfig → Loaded
unfolding stored fill_secret
load_server readable f g draws d = elim d.file [
  | none ↦ stored f (default_config draws) true d
  | some content ↦ elim content [
    | torn ↦ (none, d)
    | whole cfg ↦ if readable then fill_secret f g draws cfg d else (none, d)
  ]
]

-- What `runServer` (cmd/caochuan/run.go) does before it builds the server.
pub data Startup : Type 0 where
  failed panicked : Startup
  ready : ServerConfig → Startup

-- The banner prints `cfg.Clients[0].Token`.
announce : ServerConfig → Bool → Startup → Startup
announce cfg generated next =
    if generated then elim cfg.clients [ [] ↦ panicked | c ∷ cs ↦ next ] else next

fill_prefix : Fault → String → ServerConfig → Disk ServerConfig → Startup
fill_prefix f token cfg d =
    if str_eq cfg.panel_prefix ""
    then (let cfg' = record cfg { panel_prefix = short token } in
        if (save f cfg' d).0 then ready cfg' else failed)
    else ready cfg

pub start_server : Bool → (ℕ → Fault) → (ℕ → String) → Disk ServerConfig → Startup
unfolding announce fill_prefix
start_server readable faults draws d =
    let (loaded, d') = load_server readable (faults 0) (faults 1) draws d in
    elim loaded [
      | none ↦ failed
      | some (cfg, generated) ↦ announce cfg generated (fill_prefix (faults 2) (draws 4) cfg d')
    ]
