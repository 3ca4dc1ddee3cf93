-- ===== src/Relay.antt =====
-- relay/: the list of targets of a rule, the dialling in turn, the PROXY header and the rate limit; and
-- the visitors and sockets of UDP rules, which server/ and client/ keep alike.
pub mod Targets
pub mod Dial
pub mod Proxy
pub mod Pipe
pub mod Visitors
pub mod Limiter
pub mod Backends
mod Tests
