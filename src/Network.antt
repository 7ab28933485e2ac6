-- ===== src/Network.antt =====
-- Who dials the addresses of a machine: pkg/service/lifecycle/host_services.go, pkg/ssh/ssh.go and
-- pkg/service/ssh/client.go.
pub mod HostPort
pub mod HostServices
pub mod Address
pub mod AddressLaws
pub mod Gvproxy
pub mod SshClient
pub mod SshLaws
pub mod SshShell
pub mod SshShellLaws
