-- ===== src/Management.antt =====
-- The management API of the host: pkg/service/management.
pub mod Server
pub mod ServerLaws
pub mod Exec
pub mod ExecLaws
pub mod ExecStall
