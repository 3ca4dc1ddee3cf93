-- ===== src/Server/Tests/Traffic.antt =====
-- server/: listeners and visitors on concrete inputs.
use caochuan.Base.{
  String, ℕ, ◌+◌, ◌≡◌, refl, ◌⊎◌, true, some, List, [], ◌∷◌, ◌++◌, arith, String-discrete, length,
}
use caochuan.Base.Int.{pos, ◌≤ℤ◌}
use caochuan.Base.Dict.{lookup}
use caochuan.Config.{Rule}
use caochuan.Config.Fixtures.{some_netip, some_rule}
use caochuan.Config.Acl.{new_acl, allows}
use caochuan.Config.File.{no_fault}
use caochuan.Relay.Visitors.{enter, is_full, is_sweep_due, tick}
use caochuan.Server.Access.{packet_allowed}
use caochuan.Server.State.{World, Server}
use caochuan.Server.Admission.{
  step, is_over, Visits, refused, run, turn, waiting, total, weight, served,
}
use caochuan.Server.Admission.Limit.{served-run}
use caochuan.Server.Requests.{blacklist}
use caochuan.Server.Requests.Tidy.{is_import}
use caochuan.Server.Listener.{Guard, compiled, new_guard, refresh, accept_packet}
use caochuan.Server.Listener.Blacklist.{call, events, refresh-events}
use caochuan.Server.UdpTunnel.Leak.{on_done-unserved}
use caochuan.Server.UdpTunnel.{
  on_done, Relay, Packet, new_relay, on_packet, on_reply, register, ensure_stream, forward,
}
use caochuan.Server.UdpTunnel.Replies.{IsWithin, events-replies}
use caochuan.Server.UdpTunnel.Replies as Udp
use caochuan.Server.Streams.{open_stream_to}
use caochuan.Server.UdpLocal.{Local, new_local, Datagram, on_datagram, get_backend, write_datagram}
use caochuan.Server.UdpLocal.Sockets as Sockets
use caochuan.Server.Fixtures.{world_at, live}

-- Two visitors under a limit of one connection.
abbrev two_waiting : Visits
two_waiting = record { conns = 0; phases = waiting 2 }

abbrev is_run : List ℕ → Visits
is_run is = run (pos 1) is two_waiting

served-run_example :
    ((is_run (0 ∷ 0 ∷ 1 ∷ 1 ∷ [])).conns ≡ 0 + total weight (is_run (0 ∷ 0 ∷ 1 ∷ 1 ∷ [])).phases)
    × ((total served (is_run (0 ∷ 0 ∷ 1 ∷ 1 ∷ [])).phases ≡ 0)
        ⊎ (pos (0 + total served (is_run (0 ∷ 0 ∷ 1 ∷ 1 ∷ [])).phases) ≤ℤ pos 1))
served-run_example = served-run (pos 1) 0 2 (0 ∷ 0 ∷ 1 ∷ 1 ∷ []) (omega arith)

-- Of two visitors that come at once both can be refused, where one could be served.
both_refused_test : (is_run (0 ∷ 1 ∷ 0 ∷ 1 ∷ [])).phases ≡ refused ∷ refused ∷ []
unfolding run turn waiting step is_over
both_refused_test = refl

abbrev fine : World
fine = world_at 1000 no_fault

abbrev banned : Server × Guard some_netip
banned =
    events some_netip (call fine (blacklist ("10.0.0.0/8" ∷ [])) ∷ []) live
      (new_guard some_netip some_rule live)

refresh-events_example :
    (refresh some_netip banned.0 banned.1).bl ≡ compiled some_netip banned.0.cfg.ip_blacklist
unfolding is_import
refresh-events_example =
    refresh-events some_netip some_rule (call fine (blacklist ("10.0.0.0/8" ∷ [])) ∷ []) live
      (refl, tt)

-- One packet of one visitor.
abbrev first_packet : Packet some_netip
first_packet = record {
  now = 5;
  addr = "10.1.2.3";
  key = "10.1.2.3:5000";
  payload = 7 ∷ [];
  opens = λ k. true;
  writes = true;
}

abbrev udp_rule : Rule
udp_rule = record some_rule { proto = "udp"; client = "pc" }

abbrev one_packet : Relay some_netip
one_packet =
    Udp.events some_netip udp_rule 0 (Udp.packet live first_packet ∷ [])
      (new_relay some_netip udp_rule live 0)

its_entry :
    lookup "10.1.2.3:5000" one_packet.table.visitors ≡ some (record { id = 1; last_seen = 5 })
unfolding Udp.events Udp.handle_event new_relay on_packet accept_packet refresh new_guard compiled
    new_acl packet_allowed allows is_full register enter tick is_sweep_due ensure_stream forward
    open_stream_to String-discrete
its_entry = refl

one_visitor : pos 1 ≤ℤ pos (0 + length one_packet.table.visitors)
unfolding Udp.events Udp.handle_event new_relay on_packet accept_packet refresh new_guard compiled
    new_acl packet_allowed allows is_full register enter tick is_sweep_due ensure_stream forward
    open_stream_to String-discrete
one_visitor = omega arith

events-replies_example :
    ((on_reply some_netip true (record { conn_id = 1; payload = 9 ∷ [] }) one_packet).delivered
      ≡ one_packet.delivered ++ (("10.1.2.3:5000", 9 ∷ []) ∷ []))
    × (one_packet.conns ≡ 0 + length one_packet.table.visitors)
    × IsWithin udp_rule.max_conns (length one_packet.table.visitors)
events-replies_example =
    events-replies some_netip udp_rule 0 live (Udp.packet live first_packet ∷ []) "10.1.2.3:5000"
      (record { id = 1; last_seen = 5 }) (9 ∷ []) (omega arith) its_entry

abbrev local_rule : Rule
local_rule = record some_rule { proto = "udp" }

abbrev datagram : Datagram some_netip
datagram = record {
  addr = "10.1.2.3";
  key = "10.1.2.3:5000";
  payload = 7 ∷ [];
  dials = true;
  writes = true;
}

abbrev one_datagram : Local some_netip
one_datagram =
    Sockets.events some_netip local_rule 0 (Sockets.datagram live datagram ∷ [])
      (new_local some_netip local_rule live 0)

its_socket : lookup "10.1.2.3:5000" one_datagram.sockets ≡ some 0
unfolding Sockets.events Sockets.handle_event new_local on_datagram accept_packet refresh new_guard
    compiled new_acl packet_allowed allows is_full get_backend write_datagram String-discrete
its_socket = refl

events-apart_example :
    (◌≡◌ {A = String} "10.1.2.3:5000" "10.1.2.3:5000")
    × (one_datagram.conns ≡ 0 + length one_datagram.sockets)
    × IsWithin local_rule.max_conns (length one_datagram.sockets)
events-apart_example =
    Sockets.events-apart some_netip local_rule 0 live (Sockets.datagram live datagram ∷ [])
      "10.1.2.3:5000" "10.1.2.3:5000" 0 its_socket its_socket

on_done-unserved_example :
    total served
      (run
        (pos 1)
        (0 ∷ 0 ∷ 0 ∷ [])
        (record { conns = (on_done some_netip one_packet).conns; phases = waiting 1 })).phases
    ≡ 0
on_done-unserved_example =
    on_done-unserved some_netip udp_rule 0 live (Udp.packet live first_packet ∷ []) (pos 1) 1
      (0 ∷ 0 ∷ 0 ∷ []) (omega arith) (omega arith) one_visitor
