-- ===== src/Lifecycle.antt =====
-- What happens while a machine runs: its events, its readiness, its cleanup and its processes.
pub mod Events
pub mod Legacy
pub mod Readiness
pub mod Monitor
pub mod Ignition
pub mod Cleanup
pub mod Supervisor
