-- ===== src/Server/Tests.antt =====
-- server/: the theorems on concrete inputs.
mod Calls
mod Rules
mod Visitors
mod Traffic
mod Views
