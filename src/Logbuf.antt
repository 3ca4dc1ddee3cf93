-- ===== src/Logbuf.antt =====
-- logbuf/logbuf.go and logbuf/file.go: the ring of lines for the panel, and the log file.
pub mod Ring
pub mod Rotator
