-- ===== src/Daemon.antt =====
-- internal/daemon: how the daemon answers for the services that it hosts.
pub mod Gate
