-- ===== src/Config/File/Loading.antt =====
-- config/config.go and cmd/caochuan/run.go: what a configuration that was loaded is good for.
use caochuan.Base.{
  ℕ, String, ◌≡◌, refl, ◌≢◌, inl, inr, Bool, true, false, none, some, [], arith, Option-cases,
  String-discrete,
}
use caochuan.Config.{ServerConfig}
use caochuan.Config.File.{
  whole, torn, Disk, Fault, no_fault, write_fails, rename_fails, save, short, default_config,
  Loaded, load_server, panicked, start_server, stored, fill_password, fill_secret, announce,
}

-- `RandToken` gives 32 hexadecimal digits.
abbrev pub IsToken : String → Type 0
IsToken t = (t ≢ "") × (short t ≢ "")

-- Sessions cannot be forged with an empty key, and nobody gets in with an empty password.
pub record IsGuarded (cfg : ServerConfig) : Type 0 where
  pub keyed : cfg.secret ≢ ""
  pub locked : cfg.no_auth ≡ false → cfg.password ≢ ""

-- What a load has done when it succeeds.
abbrev pub IsLoaded : Loaded → Type 0
IsLoaded (none, d) = Unit {0}
IsLoaded (some (cfg, generated), d) = IsGuarded cfg × (d.file ≡ some (whole cfg))

fill_password-IsLoaded :
    (f : Fault) (token : String) (cfg : ServerConfig) (d : Disk ServerConfig)
    → IsToken token
    → cfg.secret ≢ ""
    → d.file ≡ some (whole cfg)
    → IsLoaded (fill_password f token cfg d)
unfolding fill_password save
fill_password-IsLoaded no_fault token cfg d t s e = ground arith
fill_password-IsLoaded write_fails token cfg d t s e = ground arith
fill_password-IsLoaded rename_fails token cfg d t s e = ground arith

-- An empty secret: a new one is drawn and saved first.
new_secret-IsLoaded :
    (f g : Fault) (draws : ℕ → String) (cfg : ServerConfig) (d : Disk ServerConfig)
    → IsToken (draws 0)
    → IsToken (draws 1)
    → cfg.secret ≡ ""
    → IsLoaded (fill_secret f g draws cfg d)
unfolding fill_secret save
new_secret-IsLoaded no_fault g draws cfg d t u p = ground (
  arith,
  fill_password-IsLoaded g (draws 1) (record cfg { secret = draws 0 })
      (save no_fault (record cfg { secret = draws 0 }) d).1 u t.0 refl,
)
new_secret-IsLoaded write_fails g draws cfg d t u p = ground arith
new_secret-IsLoaded rename_fails g draws cfg d t u p = ground arith

fill_secret-IsLoaded :
    (f g : Fault) (draws : ℕ → String) (cfg : ServerConfig) (d : Disk ServerConfig)
    → ((i : ℕ) → IsToken (draws i))
    → d.file ≡ some (whole cfg)
    → IsLoaded (fill_secret f g draws cfg d)
unfolding fill_secret
fill_secret-IsLoaded f g draws cfg d t e = elim (String-discrete cfg.secret "") [
  | yes p ↦ new_secret-IsLoaded f g draws cfg d (t 0) (t 1) p
  | no q ↦ ground (arith, fill_password-IsLoaded g (draws 0) cfg d (t 0) q e)
]

stored-IsLoaded :
    (f : Fault) (cfg : ServerConfig) (generated : Bool) (d : Disk ServerConfig)
    → IsGuarded cfg
    → IsLoaded (stored f cfg generated d)
unfolding stored save
stored-IsLoaded no_fault cfg generated d g = (g, refl)
stored-IsLoaded write_fails cfg generated d g = tt
stored-IsLoaded rename_fails cfg generated d g = tt

-- Whatever the file held and whichever saves fail, if tokens are as `RandToken` makes them: a load
-- that succeeds gives a session secret, and a password unless the panel runs without one, and the
-- file holds exactly the configuration that is returned.
pub load_server-IsLoaded :
    (readable : Bool) (f g : Fault) (draws : ℕ → String) (d : Disk ServerConfig)
    → ((i : ℕ) → IsToken (draws i))
    → IsLoaded (load_server readable f g draws d)
unfolding load_server
load_server-IsLoaded readable f g draws d t = elim (Option-cases d.file) [
  | inl absent ↦
      rw (absent, load_server)
        (stored-IsLoaded f (default_config draws) true d
          (record { keyed = (t 2).0; locked = λ _. (t 0).1 }))
  | inr (torn, e) ↦ rw (e, load_server) tt
  | inr (whole cfg, e) ↦ loaded cfg e readable
]
  where
    loaded :
        (cfg : ServerConfig)
        → d.file ≡ some (whole cfg)
        → (r : Bool) → IsLoaded (load_server r f g draws d)
    loaded cfg e true = rw (e, load_server) (fill_secret-IsLoaded f g draws cfg d t e)
    loaded cfg e false = rw (e, load_server) tt

-- A configuration file with a secret and without clients, in which the panel wants a password and
-- the password is empty, brings the start down with a panic when the saves work.
pub start_server_panics :
    (faults : ℕ → Fault) (draws : ℕ → String) (cfg : ServerConfig) (d : Disk ServerConfig)
    → d.file ≡ some (whole cfg)
    → cfg.secret ≢ ""
    → cfg.no_auth ≡ false
    → cfg.password ≡ ""
    → cfg.clients ≡ []
    → faults 0 ≡ no_fault
    → faults 1 ≡ no_fault
    → start_server true faults draws d ≡ panicked
unfolding start_server load_server fill_secret fill_password stored save announce
start_server_panics faults draws cfg d e s a p c f g = ground arith
