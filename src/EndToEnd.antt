-- ===== src/EndToEnd.antt =====
-- server/ and client/ together: what a visitor meets, and what a client runs.
pub mod Through
pub mod Routes
pub mod Udp
pub mod Socks
pub mod Rules
mod Tests
