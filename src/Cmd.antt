-- ===== src/Cmd.antt =====
-- cmd/caochuan/: the program as a Windows service.
pub mod Service
