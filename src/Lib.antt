-- ===== src/Lib.antt =====
-- Verification library of ovm, which runs containers in a lightweight virtual machine.
--
-- The program has two halves. On the host, cmd/revm reads flags, pkg/librevm makes a session of them
-- (configuration, disks, mounts, forwarded sockets), and libkrun runs the machine. In the guest,
-- cmd/guest-agent mounts file systems, forwards sockets and supervises processes. The host sends its
-- machine description to the guest as JSON, so both halves derive the same tables from it.
--
-- Which file models what:
-- - Base (and below it): texts as lists of code points with what is used of Go's `strings`, lists,
--   results, Go's integers. FilePath: what is used of Go's `path/filepath`.
-- - Define: shared constants of pkg/define.
-- - Config: pkg/librevm/config.go. Config/With has the chain methods that set a field, Config/Disks has
--   `WithVarDataDisk` and `WithDisk`, Config/Overwrite has `OverwriteCfgFrom`, Config/Normalize has
--   `NormalizeConfig` and `validateConfig`.
-- - Commands: the configurations of cmd/revm/start.go and cmd/revm/init.go. A configuration that was
--   written as JSON is taken to be read back as it was.
-- - Build: pkg/librevm/machine.go, pkg/librevm/paths.go, pkg/librevm/network.go and the machine of
--   pkg/define/struct.go. Build/Host has the calls of the host, Build/Workspace, Build/Network,
--   Build/Rootfs, Build/Services and Build/Guest have the steps, and Build/Assembly has `buildMachine`.
--   Build/Url prints URLs as Go's `net/url` does.
-- - Http: pkg/network/httpclient.go, the client that the reporter, the guest and `Attach` use.
-- - Session: pkg/librevm/vm.go. Session/Launch has `New`, `GenerateVMConfig`, `setupLoggers` and
--   `WriteCfg` (pkg/librevm/config.go) and the client of the legacy reporter (pkg/librevm/ovm.go);
--   Session/Access has pkg/librevm/vm_access.go, `MakeSSHClient` of pkg/service/ssh/ssh.go and
--   cmd/revm/attach.go. Session/Setup has `init`, `createUserSymlinks` and `Close`;
--   Session/Running has `RunDocker` as a step relation: each service of the error group is a goroutine
--   that returns at some point, and the network and the cancellation are signals from outside.
-- - Network: Network/HostPort is what is used of Go's `net`, `strconv` and `fmt` on addresses,
--   Network/HostServices has `StartPodmanProxy` (pkg/service/lifecycle/host_services.go) and the
--   address of `MakeSSHClient` (pkg/service/ssh/ssh.go), Network/SshClient and Network/SshShell are
--   pkg/ssh/ssh.go. Network/Address is pkg/network/port.go, Network/Gvproxy is pkg/gvproxy/gvproxy.go up
--   to the error group of `Run`.
-- - Krun: pkg/libkrun. A call of the C library is a value of `KrunCall`; a call that fails is an error
--   or, under `must`, a panic, and both end the sequence. Parsing URLs is a parameter.
--   Krun/Signals is how the host stops the machine, from `Stop` of pkg/libkrun/provider.go to
--   cmd/guest-agent/pkg/service/shutdown.go.
-- - Management: pkg/service/management/server.go. Management/Server has the routes and handlers,
--   Management/Exec the two command streams as a step relation over their goroutines; what a command
--   writes is its lines, whose lengths are in bytes.
-- - Guest: cmd/guest-agent. Guest/System has the calls of the agent's system, Guest/Polling its polling
--   loops, Guest/Readiness the checks and announcements, Guest/Network, Guest/Services and
--   Guest/Forwarders what is started, and Guest/Boot the order of the start (`run` of main.go).
-- - Archive: pkg/libarchive/bsdtar.go. The archive is the list of headers that the C library returns.
-- - Machine: `withResources` of pkg/librevm/machine.go and `setResources` of pkg/libkrun/vm.go.
-- - Forward: forwarded Unix sockets. Forward/Parse is pkg/librevm/unix_forward.go, Forward/Routes is
--   pkg/define/unix_forward.go, Forward/Merge is `mergeAutoForwardUnixRule` of pkg/librevm/vm.go, and
--   Forward/Hosts is who uses the routes: pkg/libkrun/vsock.go on the host and
--   cmd/guest-agent/pkg/service/unix_forwarder.go in the guest. A Go map is an association list; its
--   order stands for the order in which the map hands out its entries.
-- - Storage: pkg/librevm/storage.go, pkg/disk/disk.go and pkg/filesystem/xattr_linux.go. The world is a
--   parameter; Storage/Host has the calls of the host and their documented behaviour in terms of the
--   disks that they read and write. A step returns the world it leaves, also where it fails.
-- - Mount: pkg/filesystem/virtio.go on the host and cmd/guest-agent/pkg/service/mount.go in the guest,
--   on a kernel that is a parameter.
-- - Lifecycle: events (pkg/librevm/events.go, pkg/librevm/ovm.go), readiness
--   (pkg/define/readiness.go, pkg/service/ignition/server.go and `monitorReadinessEvents` of
--   pkg/librevm/vm.go), cleanup (pkg/system/callback.go) and the supervisor
--   (cmd/guest-agent/pkg/supervisor/supervisor.go).
-- - Units: pkg/filesystem/strongunits.go. LogLevel: pkg/define/loglevel.go.
-- - Examples: the theorems on concrete inputs, and tests.
--
-- Bounds and fuel: unsigned integers are natural numbers with their wrap-around written out, ports
-- are below 2^32, CPU counts are converted to 8 bits. The loop of the supervisor runs on fuel; one
-- unit more than the retry limit is enough, and decimal printing runs on the number plus one. The
-- polling loops of the guest run on fuel; one unit more than the ticks that are left to their context
-- is enough. Every other loop is structural recursion. Permissions are numbers, ids of connections
-- and file descriptors are abstract or left out.
--
-- Not modelled: traffic on accepted connections, the library that serves HTTP and JSON, the insides of
-- the C libraries libkrun, libarchive and blkid, the gvisor network stack behind its configuration,
-- processes, the sizes of a terminal's window, logging, the forced exit of
-- `WaitAndShutdownMachine`, and the build scripts; file paths are compared as text. `filepath.Abs` is
-- taken not to fail.
pub mod Base
pub mod FilePath
pub mod Forward
pub mod Define
pub mod Config
pub mod Storage
pub mod Mount
pub mod Lifecycle
pub mod Units
pub mod LogLevel
pub mod Commands
pub mod Machine
pub mod Build
pub mod Session
pub mod Archive
pub mod Network
pub mod Krun
pub mod Http
pub mod Guest
pub mod Management
pub mod Examples
