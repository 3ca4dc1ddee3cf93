-- ===== src/Config.antt =====
-- config/config.go: the configuration records, the source lists and the file that holds them.
--
-- A Go `int` field is a signed integer, since JSON can bring any; a nil slice and an empty one are the
-- same list. `net/netip` is the parameter `Netip`.
pub mod Acl
pub mod File
pub mod Client
pub mod Fixtures
mod Tests
use caochuan.Base.{
  ◌-◌, String, ◌≡◌, inl, inr, Bool, not, Option, List, if◌then◌else◌, Bool-cases, String-discrete,
  str_eq,
}
use caochuan.Base.Int.{ℤ}

-- `Rule`
pub record Rule : Type 0 where
  pub id : String
  pub name : String
  pub side : String
  pub proto : String
  pub listen : ℤ
  pub client : String
  pub target : String
  pub allow_from : List String
  pub max_mbps : ℤ
  pub max_conns : ℤ
  pub idle_min : ℤ
  pub proxy_proto : ℤ
  pub enabled : Bool

-- `Rule.SideOf`
abbrev pub side_of : Rule → String
side_of r = if str_eq r.side "client" then "client" else "server"

pub record ClientUser : Type 0 where
  pub name : String
  pub token : String
  pub note : String

pub record ServerConfig : Type 0 where
  pub tunnel_addr : String
  pub panel_addr : String
  pub password : String
  pub no_auth : Bool
  pub panel_prefix : String
  pub ip_whitelist : List String
  pub secret : String
  pub no_tls : Bool
  pub tls_cert : String
  pub tls_key : String
  pub log_file : String
  pub notify_url : String
  pub notify_format : String
  pub ip_blacklist : List String
  pub clients : List ClientUser
  pub rules : List Rule

-- `net/netip`, as far as the program uses it.
pub record Netip : Type 1 where
  pub Addr : Type 0
  pub Prefix : Type 0
  pub parse_prefix : String → Option Prefix
  pub parse_addr : String → Option Addr
  pub prefix_contains : Prefix → Addr → Bool
  pub unmap : Addr → Addr
  pub is_loopback : Addr → Bool
  pub Addr-discrete : Discrete Addr

-- A rule is on exactly one of the two sides.
pub side_of-client : (r : Rule) → str_eq (side_of r) "client" ≡ str_eq r.side "client"
unfolding String-discrete
side_of-client r = elim (Bool-cases (str_eq r.side "client")) [ inl p ↦ rw p | inr p ↦ rw p ]

pub side_of-server : (r : Rule) → str_eq (side_of r) "server" ≡ not (str_eq r.side "client")
unfolding String-discrete
side_of-server r = elim (Bool-cases (str_eq r.side "client")) [ inl p ↦ rw p | inr p ↦ rw p ]
