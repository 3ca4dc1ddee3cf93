-- ===== src/Server/UdpTunnel/Leak.antt =====
-- server/forward.go: what the visitors of a stopped `udpTunnelRelay` do to the rule's limit.
use caochuan.Base.{ℕ, ◌+◌, ◌^◌, ◌<◌, ◌≡◌, sym, subst, inl, inr, List, arith, length}
use caochuan.Base.Int.{ℤ, pos, ◌≤ℤ◌}
use caochuan.Config.{Netip, Rule}
use caochuan.Server.State.{Server}
use caochuan.Server.Admission.{run, waiting, total, served}
use caochuan.Server.Admission.Limit.{served-run}
use caochuan.Server.UdpTunnel.{new_relay, on_done}
use caochuan.Server.UdpTunnel.Replies.{Event, events, conns-on_done}

full-unserved :
    (max : ℤ) (others n : ℕ) (is : List ℕ)
    → pos 1 ≤ℤ max
    → max ≤ℤ pos others
    → total served (run max is (record { conns = others; phases = waiting n })).phases ≡ 0
full-unserved max others n is h full = elim ((served-run max others n is h).1) [
  | inl e ↦ e
  | inr le ↦ omega (arith, le, full)
]

-- The relay of a UDP rule is stopped while at least as many visitors are in its table as the limit under
-- which the rule, or the one that takes over its id, then listens for TCP: the counter that is left
-- keeps every visitor out, in whatever order and however many come.
pub on_done-unserved :
    (n : Netip) (rule : Rule) (others : ℕ) (s : Server) (es : List (Event n rule others)) (max : ℤ)
    (k : ℕ) (is : List ℕ)
    → length es < 2 ^ 32
    → pos 1 ≤ℤ max
    → max
      ≤ℤ pos (others + length (events n rule others es (new_relay n rule s others)).table.visitors)
    → total served
        (run max is (record {
          conns = (on_done n (events n rule others es (new_relay n rule s others))).conns;
          phases = waiting k;
        })).phases
      ≡ 0
on_done-unserved n rule others s es max k is lt h full =
    let r = events n rule others es (new_relay n rule s others) in
    subst (λ c. total served (run max is (record { conns = c; phases = waiting k })).phases ≡ 0)
      (sym (conns-on_done n rule others s es lt))
      (full-unserved max (others + length r.table.visitors) k is h full)
