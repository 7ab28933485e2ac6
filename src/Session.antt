-- ===== src/Session.antt =====
-- pkg/librevm/vm.go: the life of a session, from its configuration to its end.
pub mod Launch
pub mod LaunchLaws
pub mod Setup
mod Serving
pub mod SetupLaws
pub mod Running
pub mod Order
pub mod Access
pub mod AccessLaws
