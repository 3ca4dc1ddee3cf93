-- ===== src/Lib.antt =====
-- caochuan, a tunnel: a server with a panel, clients behind NAT, and forwarding rules for TCP and UDP.
--
-- The server (server/) holds the configuration (config/), runs a listener for each enabled rule of its
-- side, and pushes the rules of the other side to the clients, which run them (client/). Clients come
-- in through a tunnel port with a token; the frames of the tunnel are those of proto/. The panel
-- (panel/) changes the configuration through the server's calls. relay/ dials targets, logbuf/ keeps
-- log lines.
--
-- Files, and the code that each is about:
-- - Base: lists and tests over native numbers, signed integers (Base/Int), texts as code points
--   (Base/Text), Go maps as association lists (Base/Dict), the last elements of a list (Base/Recent).
-- - Proto: proto/proto.go. `read_json_frame`, `write_json_frame`, `read_udp_packet` and
--   `write_udp_packet` are ReadJSONFrame, WriteJSONFrame, ReadUDPPacket and WriteUDPPacket on lists of
--   bytes. JSON is a parameter, a partial pair of functions.
-- - Config: config/config.go. Config/Acl has NewACL and Allows over a `net/netip` that is a parameter;
--   Config/File has save, LoadServer and the start of runServer (cmd/caochuan/run.go), with each save
--   succeeding, failing at the write or failing at the rename; Config/Client has LoadClient.
-- - Relay: relay/. Relay/Targets has ParseTargets, Relay/Dial the balanced dial of server/forward.go,
--   client/client.go and relay/proxyproto.go, Relay/Proxy ProxyHeader, Relay/Limiter the token bucket
--   of relay/limiter.go, Relay/Pipe the copying of relay/relay.go. Relay/Visitors is the table of UDP
--   visitors and Relay/Backends the sockets towards targets, which the server and the client keep in
--   the same way.
-- - Server: server/. State is the state under the lock; Validate, Rules, Clients and Settings have the
--   calls of server/state.go, which Requests joins to one step, and Views what it shows; Apply has
--   applyRulesLocked, Tunnel the way in of a client (server/server.go), Control the control stream
--   (server/reverse.go), Access the decisions about addresses, Notify the debounced webhook, History
--   the traffic samples, Health the probes of targets, Certificate server/tls.go, Lifecycle New and
--   Run. Of server/forward.go, Listener has the accept loops with their lists, Admission the limit of connections under all schedules, Forward and
--   Streams the routes of a TCP visitor (with handleReverseStream of server/reverse.go), UdpTunnel and
--   UdpLocal the relays udpTunnelRelay and udpLocalRelay.
-- - Client: client/. Reverse is the manager of the rules that run on a client, Streams what becomes of
--   streams and visitors (client/client.go, client/reverse.go), UdpRelay the relay udpRelay, Session the
--   connecting and its waits and, in Session/Life, a session up to its end (client/client.go), Socks the
--   proxy of client/socks5.go.
-- - EndToEnd: server and client together. Rules follows a call of the panel to the rules that a client has,
--   Routes a visitor over the three routes to a target, where each side dials for itself, Udp a packet to a target and its answer back,
--   Socks a request to the proxy of a client to the target that the server dials.
-- - Panel: the login of panel/panel.go and its cookie (Session); Http takes a request over HTTP from its
--   path to its answer, Metrics has panel/metrics.go.
-- - Cmd: cmd/caochuan/service_windows.go, the subcommand of the Windows service and its state machine.
-- - Logbuf: logbuf/, the ring of lines and the rotated file.
--
-- What is outside the program is an argument: the record `World` of Server/State has the parsers, the
-- time, the drawn token, the disk's behaviour, the ports that others hold, the order in which a map is
-- visited, the size of a push in JSON, and whether a control stream takes it. Times are nanoseconds. Calls under one lock are one step; a goroutine that works later
-- (the listeners that a client starts) is a step of its own.
--
-- Loops are structural recursions. The fuel of `read_packets` exceeds the number of packets; `wait`
-- of the limiter takes the readings of the clock as a list, one for each round; the dial has one round
-- for each target. The counter of the dial wraps at 2^64, lengths in frames at 2^16, and identifiers of
-- visitors at 2^32. The limiter counts exactly, with tokens in units of a byte times a nanosecond, where
-- the code has floating-point numbers.
--
-- Goroutines: histories are lists of events, each a section under a lock or between two accesses of an
-- atomic counter, in any order; Admission takes explicit schedules.
--
-- Not modelled: flags and signals (cmd/caochuan/main.go), the encoding of values in JSON, the headers of
-- answers and the files of the web pages, which are I/O or glue; the texts of errors.
pub mod Base
pub mod Proto
pub mod Config
pub mod Relay
pub mod Logbuf
pub mod Server
pub mod Client
pub mod Panel
pub mod EndToEnd
pub mod Cmd
