-- ===== src/Guest.antt =====
-- The agent that runs in the guest: cmd/guest-agent.
pub mod Polling
pub mod Readiness
pub mod ReadinessLaws
pub mod Delivering
pub mod Announcing
pub mod Timing
pub mod System
pub mod Keeping
pub mod Network
pub mod NetworkLaws
pub mod Services
pub mod ServiceLaws
pub mod Forwarders
pub mod ForwarderLaws
pub mod Boot
pub mod BootLaws
