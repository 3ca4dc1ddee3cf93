-- ===== src/Server/Access.antt =====
-- server/state.go and server/forward.go: who may use the panel, and who may use a listener.
pub mod Decisions
use caochuan.Base.{
  String, Bool, true, false, not, ◌&&◌, ◌||◌, Option, none, some, List, [], ◌∷◌, if◌then◌else◌,
  is_some, any,
}
use caochuan.Base.Dict.{Dict}
use caochuan.Config.{Netip}
use caochuan.Config.Acl.{Acl, new_acl, allows, addr_eq}
use caochuan.Server.State.{Server, ClientConn}

module _ (n : Netip) where
  open n use {Addr, Prefix, parse_prefix, parse_addr, prefix_contains, unmap, is_loopback}

  -- Whether a list that compiles to something names the address; one that does not compile is ignored.
  unfoldable pub is_banned : List String → Addr → Bool
  is_banned entries ip = elim (new_acl n entries) [
    | none ↦ false
    | some none ↦ false
    | some (some acl) ↦ allows n (some acl) ip
  ]

  -- The loop over the manual whitelist: entries that do not parse are passed over.
  unfoldable pub is_whitelisted : List String → Addr → Bool
  is_whitelisted [] ip = false
  is_whitelisted (e ∷ es) ip =
      let rest = is_whitelisted es ip in
      elim (parse_prefix e) [
        | some p ↦ prefix_contains p ip || rest
        | none ↦ elim (parse_addr e) [ none ↦ rest | some a ↦ addr_eq n (unmap a) ip || rest ]
      ]

  -- The loop over the clients online; `parse_addr_port` is `netip.ParseAddrPort`.
  unfoldable pub is_client_addr : (String → Option Addr) → Dict ClientConn → Addr → Bool
  is_client_addr parse_addr_port [] ip = false
  is_client_addr parse_addr_port ((name, cc) ∷ m) ip =
      let rest = is_client_addr parse_addr_port m ip in
      elim (parse_addr_port cc.addr) [ none ↦ rest | some a ↦ addr_eq n (unmap a) ip || rest ]

  -- `IPAllowed`. `local` holds the addresses of the machine's interfaces.
  unfoldable pub ip_allowed : (String → Option Addr) → List Addr → String → Server → Bool
  ip_allowed parse_addr_port local text s = elim (parse_addr text) [
    | none ↦ false
    | some parsed ↦
        let ip = unmap parsed in
        if is_loopback ip
        then true
        else if is_banned s.cfg.ip_blacklist ip
        then false
        else any (λ a. addr_eq n (unmap a) ip) local
          || is_whitelisted s.cfg.ip_whitelist ip
          || is_client_addr parse_addr_port s.clients ip
  ]

  -- The address that `visitorAllowed` reads: with a port, or else bare.
  unfoldable pub visitor_ip : (String → Option Addr) → String → Option Addr
  visitor_ip parse_addr_port remote = elim (parse_addr_port remote) [
    | some a ↦ some a
    | none ↦ elim (parse_addr remote) [ none ↦ none | some a ↦ some (unmap a) ]
  ]

  -- `visitorAllowed`, of a TCP connection
  pub visitor_allowed : (String → Option Addr) → String → Option (Acl n) → Option (Acl n) → Bool
  visitor_allowed parse_addr_port remote acl bl = elim (visitor_ip parse_addr_port remote) [
    | none ↦ false
    | some ip ↦ not (is_some bl && allows n bl ip && not (is_loopback ip)) && allows n acl ip
  ]

  -- The test of the UDP relays (`udpLocalRelay`, `udpTunnelRelay`) on the source of a packet.
  unfoldable pub packet_allowed : Addr → Option (Acl n) → Option (Acl n) → Bool
  packet_allowed src acl bl =
      allows n acl (unmap src) && not (is_some bl && allows n bl (unmap src))
