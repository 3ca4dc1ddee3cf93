-- ===== src/EndToEnd/Tests/Udp.antt =====
-- A UDP rule of a client on concrete inputs.
use caochuan.Base.{◌≡◌, refl, true, List, [], ◌∷◌, String-discrete}
use caochuan.Config.Fixtures.{some_netip, some_rule}
use caochuan.Config.Acl.{allows, new_acl}
use caochuan.Proto.{UdpPacket}
use caochuan.Relay.Visitors.{enter, tick, is_full, is_sweep_due, visitor_of}
use caochuan.Relay.Backends.{Backends, new_backends}
use caochuan.Relay.Backends
use caochuan.Server.State.{ReverseRule}
use caochuan.Server.Listener.{compiled}
use caochuan.Server.Rules.{reverse_rule}
use caochuan.Client.UdpRelay.{
  Relay, Packet, new_relay, write_frame, let_in, on_packet, on_read_error, on_reply, on_closed,
}
use caochuan.Client.UdpRelay.Replies.{Event, packet, handle_event, events}

abbrev rule : ReverseRule
rule = reverse_rule (record some_rule { proto = "udp"; side = "client"; client = "pc" })

abbrev greeting : Packet some_netip
greeting = record {
  now = 5;
  addr = "192.0.2.9";
  key = "192.0.2.9:4000";
  payload = 1 ∷ 2 ∷ [];
  writes = true;
}

abbrev history : List (Event some_netip rule)
history = packet greeting ∷ []

abbrev client : Relay some_netip
client = events some_netip rule history (new_relay some_netip rule)

abbrev frame : UdpPacket
frame = record { conn_id = 1; payload = 1 ∷ 2 ∷ [] }

abbrev arrival : List Backends.Event
arrival = Backends.packet true true frame ∷ []

abbrev server : Backends
server = Backends.events arrival (new_backends 0)

answer_arrives :
    (on_reply some_netip (record { conn_id = 1; payload = 7 ∷ [] }) client).delivered
    ≡ ("192.0.2.9:4000", 7 ∷ []) ∷ []
unfolding events handle_event new_relay on_packet let_in write_frame enter tick is_full is_sweep_due
    allows compiled new_acl String-discrete on_reply visitor_of
answer_arrives = refl

-- Behind the end of the stream the visitors' packets are no longer read, and answers no longer written.
answer_lost :
    (on_reply some_netip
      (record { conn_id = 1; payload = 7 ∷ [] })
      (on_closed some_netip client)).delivered
    ≡ []
unfolding events handle_event new_relay on_packet let_in write_frame enter tick is_full is_sweep_due
    allows compiled new_acl String-discrete on_reply visitor_of on_closed
answer_lost = refl

read_error_ends :
    (on_packet some_netip rule greeting (on_read_error some_netip client)).sent ≡ client.sent
unfolding on_packet on_read_error
read_error_ends = refl
