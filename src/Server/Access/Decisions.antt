-- ===== src/Server/Access/Decisions.antt =====
-- server/state.go and server/forward.go: the order in which the lists decide.
use caochuan.Base.{
  String, ◌≡◌, refl, inl, inr, true, false, not, ◌&&◌, ◌||◌, Option, none, some, List, [], ◌∷◌,
  arith, Option-cases, any,
}
use caochuan.Config.{Netip}
use caochuan.Config.Acl.{
  Acl, new_acl, allows, addr_eq, entry_matches, allows-new_acl, all_entries, is_some-new_acl,
  new_acl-restricts, allows-unmap,
}
use caochuan.Server.State.{Server}
use caochuan.Server.Access.{
  is_banned, is_whitelisted, is_client_addr, ip_allowed, visitor_ip, visitor_allowed,
  packet_allowed,
}

module _ (n : Netip) where
  -- A list whose entries all parse bans what one of them matches, and an empty list bans nobody.
  is_banned-entries :
      (entries : List String) (ip : n.Addr)
      → all_entries n entries ≡ true
      → is_banned n entries ip ≡ any (entry_matches n ip) entries
  unfolding is_banned new_acl
  is_banned-entries [] ip h = refl
  is_banned-entries (e ∷ es) ip h = elim (Option-cases (new_acl n (e ∷ es))) [
    | inl absent ↦ ground (arith, is_some-new_acl n (e ∷ es))
    | inr (none, k) ↦ absurd (new_acl-restricts n e es k)
    | inr (some acl, k) ↦ ground (arith, allows-new_acl n ip e es (some acl) k)
  ]

  -- With a blacklist whose entries all parse, an address that parses may use the panel exactly if it is
  -- a loopback address, or matches no blacklist entry and is an address of the machine, on the
  -- whitelist, or that of a client online. An address that does not parse may not.
  pub ip_allowed-decides :
      (parse_addr_port : String → Option n.Addr) (local : List n.Addr) (text : String) (s : Server)
      → all_entries n s.cfg.ip_blacklist ≡ true
      → ip_allowed n parse_addr_port local text s ≡ elim (n.parse_addr text) [
        | none ↦ false
        | some parsed ↦
            let ip = n.unmap parsed in
            n.is_loopback ip
            || (not (any (entry_matches n ip) s.cfg.ip_blacklist)
                && (any (λ a. addr_eq n (n.unmap a) ip) local
                    || is_whitelisted n s.cfg.ip_whitelist ip
                    || is_client_addr n parse_addr_port s.clients ip))
      ]
  unfolding ip_allowed
  ip_allowed-decides parse_addr_port local text s h = elim (Option-cases (n.parse_addr text)) [
    | inl bad ↦ rw (bad, ip_allowed) refl
    | inr (parsed, good) ↦
        rw (good, ip_allowed)
          (ground (arith, is_banned-entries s.cfg.ip_blacklist (n.unmap parsed) h))
  ]

  -- Where unmapping twice is unmapping once, the TCP and the UDP listeners decide alike about an address
  -- but for one case: a loopback address that the rule's own list allows is let in over TCP also when
  -- the blacklist names it, and over UDP it is not.
  pub visitor_allowed-packet_allowed :
      (parse_addr_port : String → Option n.Addr) (remote : String) (ip : n.Addr)
      (acl bl : Option (Acl n))
      → ((a : n.Addr) → n.unmap (n.unmap a) ≡ n.unmap a)
      → visitor_ip n parse_addr_port remote ≡ some ip
      → visitor_allowed n parse_addr_port remote acl bl
        ≡ (packet_allowed n ip acl bl || (n.is_loopback ip && allows n acl ip))
  unfolding visitor_allowed packet_allowed
  visitor_allowed-packet_allowed parse_addr_port remote ip acl bl stable e =
      rw (e, visitor_allowed)
        (ground (arith, allows-unmap n stable acl ip, allows-unmap n stable bl ip))
