-- ===== src/Server/Listener.antt =====
-- server/forward.go: the accept loop of a listener and the lists that it decides by.
--
-- A listener compiles the rule's list and the blacklist when it starts, and the blacklist again when
-- the version `blVer` has changed. A list that does not compile counts as none.
pub mod Blacklist
use caochuan.Base.{ℕ, String, Bool, Option, none, some, List, ◌==◌, if◌then◌else◌}
use caochuan.Config.{Netip, Rule}
use caochuan.Config.Acl.{Acl, new_acl}
use caochuan.Server.State.{Server}
use caochuan.Server.Access.{visitor_allowed, packet_allowed}

module _ (n : Netip) where
  -- `NewACL` where an error leaves a nil list.
  unfoldable pub compiled : List String → Option (Acl n)
  compiled entries = elim (new_acl n entries) [ none ↦ none | some acl ↦ acl ]

  -- The local variables `acl`, `bl` and `blVer` of `acceptTCP`, `udpLocalRelay` and `udpTunnelRelay`.
  pub record Guard : Type 0 where
    pub acl : Option (Acl n)
    pub bl : Option (Acl n)
    pub ver : ℕ

  -- Their values at the start of the loop.
  unfoldable pub new_guard : Rule → Server → Guard
  new_guard r s = record {
    acl = compiled r.allow_from;
    bl = compiled s.cfg.ip_blacklist;
    ver = s.bl_ver;
  }

  -- The recompilation at the top of each round.
  unfoldable pub refresh : Server → Guard → Guard
  refresh s g =
      if s.bl_ver == g.ver then g else record g { bl = compiled s.cfg.ip_blacklist; ver = s.bl_ver }

  -- One round of `acceptTCP`: the guard after it, and whether `handleTCP` gets the visitor.
  unfoldable pub accept_tcp :
      (String → Option (Netip.Addr n)) → Server → String → Guard → Guard × Bool
  accept_tcp parse_addr_port s remote g =
      let g' = refresh s g in (g', visitor_allowed n parse_addr_port remote g'.acl g'.bl)

  -- The part of the UDP loops before the visitor is looked up.
  unfoldable pub accept_packet : Server → Netip.Addr n → Guard → Guard × Bool
  accept_packet s src g = let g' = refresh s g in (g', packet_allowed n src g'.acl g'.bl)
