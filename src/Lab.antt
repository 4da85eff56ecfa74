-- ===== src/Lab.antt =====
-- internal/lab: the daemon that supervises the angels.
pub mod Conn
pub mod Supervisor
pub mod Broadcast
pub mod Server
pub mod Daemon
