-- ===== src/Server/Rules/Push.antt =====
-- server/reverse.go: what the clients have been told after a broadcast.
use caochuan.Base.{String, ◌≡◌, true, some, List, [], ◌∷◌, arith, String-discrete}
use caochuan.Base.Dict.{Dict, lookup, map_values}
use caochuan.Config.{Rule}
use caochuan.Server.State.{World, Server, ClientConn, ReverseRule}
use caochuan.Server.Rules.{reverse_rules, is_written, push_rules_to, broadcast_rules}

-- The last frame on the control stream of each client online, if it has one and takes the frame, lists the
-- enabled rules of the configuration that are its own.
abbrev pub IsTold : World → Server → Type 0
IsTold w s =
    (name : String) (cc : ClientConn)
    → lookup name s.clients ≡ some cc
    → cc.has_control ≡ true
    → is_written w cc.name (reverse_rules cc.name s.cfg.rules) ≡ true
    → (earlier : List (List ReverseRule)) × (cc.pushed
        ≡ reverse_rules cc.name s.cfg.rules ∷ earlier)

pushed-told :
    (w : World) (rules : List Rule) (m : Dict ClientConn) (name : String) (cc : ClientConn)
    → lookup name (map_values (push_rules_to w rules) m) ≡ some cc
    → cc.has_control ≡ true
    → is_written w cc.name (reverse_rules cc.name rules) ≡ true
    → (earlier : List (List ReverseRule)) × (cc.pushed ≡ reverse_rules cc.name rules ∷ earlier)
unfolding push_rules_to
pushed-told w rules [] name cc e h u = absurd (ground (arith, e))
pushed-told w rules ((k, v) ∷ m) name cc e h u = elim (String-discrete k name) [
  | yes p ↦ (v.pushed, ground (arith, p, e, h, u))
  | no n ↦ pushed-told w rules m name cc (ground (arith, n, e)) h u
]

pub broadcast_rules-IsTold : (w : World) (s : Server) → IsTold w (broadcast_rules w s)
unfolding broadcast_rules
broadcast_rules-IsTold w s name cc e h u = pushed-told w s.cfg.rules s.clients name cc e h u
