-- ===== src/Examples.antt =====
-- The theorems on concrete inputs, and tests.
mod Paths
mod Forwarding
mod Configs
mod Disks
mod Machines
mod Sessions
mod Networks
mod Archives
mod Mounts
mod Running
mod Guests
mod Ready
mod Servers
