-- ===== src/Daemon.antt =====
-- cmd/goboxd/main.go: the daemon, from its start to its end.
pub mod Sweep
pub mod Boot
pub mod Shutdown
