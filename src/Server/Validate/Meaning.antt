-- ===== src/Server/Validate/Meaning.antt =====
-- server/state.go: what `validateRule` accepts.
use caochuan.Base.{◌≤◌, ◌≡◌, ◌≢◌, ◌↔◌, ◌⊎◌, true, false, not, none, List, arith, length, any}
use caochuan.Base.Int.{pos, ◌≤ℤ◌}
use caochuan.Config.{Rule, ClientUser, side_of-client}
use caochuan.Config.Acl.{all_entries, is_some-new_acl}
use caochuan.Server.State.{World}
use caochuan.Server.Validate.{targets_of, registered, check_peers, check_limits, validate_rule}

module _ (w : World) where
  pub record ArePeersValid (r : Rule) (clients : List ClientUser) : Type 0 where
    pub addressed : any (λ t. not (w.split_host_port t)) (targets_of r) ≡ false
    pub few : length (targets_of r) ≤ 16
    pub known : r.client ≢ "" → registered r.client clients ≡ true

  pub record AreLimitsValid (r : Rule) (clients : List ClientUser) : Type 0 where
    pub mbps_from : pos 0 ≤ℤ r.max_mbps
    pub conns_from : pos 0 ≤ℤ r.max_conns
    pub idle_from : pos 0 ≤ℤ r.idle_min
    pub idle_to : r.idle_min ≤ℤ pos 1440
    pub proxy_from : pos 0 ≤ℤ r.proxy_proto
    pub proxy_to : r.proxy_proto ≤ℤ pos 2
    pub proxy_tcp : pos 1 ≤ℤ r.proxy_proto → r.proto ≡ "tcp"
    pub peers : ArePeersValid r clients

  -- A rule that the server can run, said field by field.
  pub record IsValidRule (r : Rule) (clients : List ClientUser) : Type 0 where
    pub named : r.name ≢ ""
    pub sided : (r.side ≡ "") ⊎ ((r.side ≡ "server") ⊎ (r.side ≡ "client"))
    pub spoken : (r.proto ≡ "tcp") ⊎ (r.proto ≡ "udp")
    pub port_from : pos 1 ≤ℤ r.listen
    pub port_to : r.listen ≤ℤ pos 65535
    pub targeted : r.target ≢ ""
    pub assigned : r.side ≡ "client" → r.client ≢ ""
    pub sourced : all_entries w.netip r.allow_from ≡ true
    pub limits : AreLimitsValid r clients

  check_peers-none :
      (r : Rule) (clients : List ClientUser)
      → check_peers w r clients ≡ none ↔ ArePeersValid r clients
  unfolding check_peers
  check_peers-none r clients = (λ h. ground arith, λ v. ground arith)

  check_limits-none :
      (r : Rule) (clients : List ClientUser)
      → check_limits w r clients ≡ none ↔ AreLimitsValid r clients
  unfolding check_limits
  check_limits-none r clients = (
    λ h. ground (arith, check_peers-none r clients),
    λ v. ground (arith, check_peers-none r clients),
  )

  -- `validateRule` accepts a rule exactly if it is one that the server can run: each field in its range
  -- and the fields in agreement with each other and with the registered clients.
  pub validate_rule-none :
      (r : Rule) (clients : List ClientUser)
      → validate_rule w r clients ≡ none ↔ IsValidRule r clients
  unfolding validate_rule
  validate_rule-none r clients = (
    λ h. ground (
      arith,
      check_limits-none r clients,
      is_some-new_acl w.netip r.allow_from,
      side_of-client r,
    ),
    λ v. ground (
      arith,
      check_limits-none r clients,
      is_some-new_acl w.netip r.allow_from,
      side_of-client r,
    ),
  )
