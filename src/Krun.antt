-- ===== src/Krun.antt =====
-- pkg/libkrun: how a machine becomes a virtual machine of libkrun.
pub mod Calls
pub mod Create
pub mod Adds
pub mod Devices
pub mod Signals
pub mod SignalLaws
