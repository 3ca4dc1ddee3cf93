-- ===== src/EndToEnd/Udp.antt =====
-- client/reverse.go and server/reverse.go: a UDP rule that the client runs, from a visitor of the client to
-- a target of the server and back.
use caochuan.Relay.Backends.{Backends}
use caochuan.Relay.Backends
