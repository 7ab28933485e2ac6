-- ===== src/Forward.antt =====
-- Forwarding of unix sockets from the guest to the host: the rules and their routes
-- (pkg/define/unix_forward.go), how the rules are read (pkg/librevm/unix_forward.go) and joined with
-- the built-in one (pkg/librevm/vm.go), and who uses the routes on the two sides.
pub mod Rules
pub mod Sorting
pub mod Routes
pub mod Parse
pub mod Merge
pub mod Hosts
