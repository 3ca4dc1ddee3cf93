-- ===== src/Server.antt =====
-- server/: the public side, a component to each child.
pub mod Notify
pub mod State
pub mod Validate
pub mod Apply
pub mod Rules
pub mod Clients
pub mod Settings
pub mod Requests
pub mod Tunnel
pub mod Access
pub mod History
pub mod Listener
pub mod Streams
pub mod Forward
pub mod Control
pub mod Certificate
pub mod Lifecycle
pub mod Health
pub mod Views
pub mod UdpTunnel
pub mod UdpLocal
pub mod Admission
pub mod Fixtures
mod Tests
