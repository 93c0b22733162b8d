-- ===== src/Virtio/Pci.antt =====
-- src/virtio/pci.rs: the virtio-pci transport, in one module for each part of the file.
-- `Layout` has the constants, `Config` the configuration space, `State` the device with its
-- interrupts, `Common` the common configuration registers, `Mmio` the BAR0 accesses and the window.
mod Tests
pub mod Layout
pub mod Config
pub mod State
pub mod Common
pub mod Mmio
pub mod Pending
pub mod Interrupts
pub mod Events
pub mod Unmask
