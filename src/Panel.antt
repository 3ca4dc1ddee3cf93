-- ===== src/Panel.antt =====
-- panel/: who may call the panel, and the cookie that says so.
pub mod Login
pub mod Session
pub mod Http
pub mod Metrics
mod Tests
