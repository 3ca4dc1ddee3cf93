-- ===== src/Server/Validate.antt =====
-- server/state.go: `validateRule` and `portConflict`.
pub mod Meaning
pub mod Ports
use caochuan.Base.{
  ℕ, ◌+◌, ◌*◌, String, Bool, true, false, not, ◌&&◌, ◌||◌, Option, none, some, List, [], ◌∷◌, ltb,
  ◌==◌, if◌then◌else◌, str_eq, is_some, length, any,
}
use caochuan.Base.Int.{ℤ, pos, ltb_ℤ, eqb_ℤ}
use caochuan.Base.Text.{Text, codes}
use caochuan.Config.{Rule, ClientUser, side_of}
use caochuan.Config.Acl.{new_acl}
use caochuan.Relay.Targets.{parse_targets}
use caochuan.Server.State.{
  World, ServerError, empty_name, bad_side, bad_proto, bad_port, empty_target, no_client,
  bad_allow_from, negative_limit, bad_idle, bad_proxy_version, proxy_needs_tcp, bad_target,
  too_many_targets, unknown_client,
}

-- `if test { return error }`, and the rest of the function.
abbrev pub refuse : Bool → ServerError → Option ServerError → Option ServerError
refuse true e rest = some e
refuse false e rest = rest

abbrev pub targets_of : Rule → List Text
targets_of r = parse_targets (codes r.target)

abbrev pub registered : String → List ClientUser → Bool
registered name clients = any (λ c. str_eq c.name name) clients

module _ (w : World) where
  -- The last four checks of `validateRule`: the targets and the client.
  unfoldable pub check_peers : Rule → List ClientUser → Option ServerError
  check_peers r clients = refuse (any (λ t. not (w.split_host_port t)) (targets_of r)) bad_target (
      refuse (ltb 16 (length (targets_of r))) too_many_targets (
        refuse (not (str_eq r.client "") && not (registered r.client clients)) unknown_client none))

  -- The checks of the numbers.
  unfoldable pub check_limits : Rule → List ClientUser → Option ServerError
  unfolding check_peers
  check_limits r clients =
      refuse (ltb_ℤ r.max_mbps (pos 0) || ltb_ℤ r.max_conns (pos 0)) negative_limit (
        refuse (ltb_ℤ r.idle_min (pos 0) || ltb_ℤ (pos (24 * 60)) r.idle_min) bad_idle (
          refuse (ltb_ℤ r.proxy_proto (pos 0) || ltb_ℤ (pos 2) r.proxy_proto) bad_proxy_version (
            refuse (ltb_ℤ (pos 0) r.proxy_proto && not (str_eq r.proto "tcp")) proxy_needs_tcp
              (check_peers r clients))))

  -- `validateRule`
  unfoldable pub validate_rule : Rule → List ClientUser → Option ServerError
  unfolding check_limits
  validate_rule r clients = refuse (str_eq r.name "") empty_name (
      refuse
        (not (str_eq r.side "") && not (str_eq r.side "server") && not (str_eq r.side "client"))
        bad_side
        (refuse (not (str_eq r.proto "tcp") && not (str_eq r.proto "udp")) bad_proto (
          refuse (ltb_ℤ r.listen (pos 1) || ltb_ℤ (pos 65535) r.listen) bad_port (
            refuse (str_eq r.target "") empty_target (
              refuse (str_eq (side_of r) "client" && str_eq r.client "") no_client (
                refuse (not (is_some (new_acl w.netip r.allow_from))) bad_allow_from
                  (check_limits r clients)))))))

-- Whether a listed rule stands in the way of `r` at the port `listen`.
abbrev pub clashes : ℤ → Rule → Rule → Bool
clashes listen r cur =
    eqb_ℤ cur.listen listen
    && ((str_eq (side_of r) "server" && str_eq (side_of cur) "server")
        || (str_eq (side_of r) "client"
            && str_eq (side_of cur) "client"
            && str_eq cur.client r.client))

-- `portConflict` from the index `i` on: the first rule in the way, but for the one at `skip_idx` (none
-- for the -1 of `AddRule`) and those with the id `skip`.
pub port_conflict : List Rule → ℕ → Option ℕ → ℤ → Rule → String → Option Rule
port_conflict [] i skip_idx listen r skip = none
port_conflict (cur ∷ rules) i skip_idx listen r skip =
    let rest = port_conflict rules (i + 1) skip_idx listen r skip in
    if elim skip_idx [ none ↦ false | some k ↦ i == k ] || str_eq cur.id skip
    then rest
    else if clashes listen r cur
    then some cur
    else rest
