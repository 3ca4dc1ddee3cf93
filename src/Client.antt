-- ===== src/Client.antt =====
-- client/: the rules that the server pushes to a client, its streams and visitors, how it connects, and
-- the SOCKS5 handshake.
pub mod Reverse
pub mod Socks
pub mod Streams
pub mod UdpRelay
pub mod Session
mod Tests
