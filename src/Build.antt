-- ===== src/Build.antt =====
-- Building a machine from a configuration: pkg/librevm/machine.go, paths.go and network.go, and the
-- data of pkg/define/struct.go that they fill.
pub mod Url
pub mod Paths
pub mod Spec
pub mod Host
pub mod Workspace
pub mod Network
pub mod Rootfs
pub mod Services
pub mod Guest
pub mod Assembly
pub mod Steps
pub mod Result
pub mod Served
pub mod Properties
