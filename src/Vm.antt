-- ===== src/Vm.antt =====
-- The traits `Hypervisor` and `Vm` of src/traits.rs, and chains of calls to the host's kernel.
-- A call changes the kernel's state, also when it fails: `Sys S E A` is a call over the state `S` with
-- errors `E`. A chain stops at the first error and keeps what was done before it.
pub mod Calls
pub mod Kvm
pub mod Bhyve
pub mod Sinks
mod Tests
