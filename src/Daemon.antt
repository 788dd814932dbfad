-- ===== src/Daemon.antt =====
-- internal/daemon, and the daemon as a whole.
pub mod Steps
pub mod Registry
pub mod Busy
pub mod Draining
pub mod Ensure
pub mod Idle
pub mod Lock
pub mod Lifecycle
pub mod Run
pub mod Spawn
