-- ===== src/Storage.antt =====
-- The disks of a session: pkg/librevm/storage.go, pkg/disk/disk.go and pkg/filesystem/xattr_linux.go.
pub mod Step
pub mod Host
pub mod Disk
pub mod Var
pub mod External
pub mod Laws
pub mod VarLaws
pub mod ExternalLaws
pub mod Devices
