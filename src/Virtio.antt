-- ===== src/Virtio.antt =====
-- The virtio devices of src/virtio: the queues, the PCI transport, and the two backends.
mod Tests
pub mod Queue
pub mod Pci
pub mod Blk
pub mod Rng
