-- ===== src/Virtio/Pci/Tests.antt =====
-- The theorems on the virtio-pci transport at a device of one queue.
use ferrvm.Prelude.{
  inl, ℕ, List, [], ◌∷◌, some, ◌≡◌, ◌+◌, refl, true, false, arith, update, get_elem?,
}
use ferrvm.Memory.{GuestMemory}
use ferrvm.Pci.{config_space, get_u16}
use ferrvm.Virtio.Pci.Config.{msix_enabled, msix_function_masked, build_config, write_config_space}
use ferrvm.Virtio.Pci.Config.Bar.{write_config_space_read_only}
use ferrvm.Virtio.Pci.State.{
  VirtioDevice, VirtioPciDevice, new, new_entry, raise_queue_interrupt, fresh_queue,
}
use ferrvm.Virtio.Pci.Common.{get_le, get_le_from, write_common_cfg}
use ferrvm.Virtio.Pci.Common.Halves.{write_common_cfg_address}
use ferrvm.Virtio.Pci.Mmio.{msix_table_write}
use ferrvm.Virtio.Pci.Pending.{quiet}
use ferrvm.Virtio.Pci.Interrupts.{IsSettled}
use ferrvm.Virtio.Pci.Events.{Event, mmio_reads, mmio_writes, config_writes, run, run-new-IsSettled}
use ferrvm.Virtio.Pci.Unmask.{raise-masked-unmask}

-- A backend that always asks for an interrupt.
abbrev eager : VirtioDevice ℕ
eager = record {
  device_id = λ d. 2;
  device_features = λ d. 0;
  num_queues = λ d. 1;
  on_notify = λ i q mem d. (true, q, mem, d + 1);
  read_config = λ d offset buffer. buffer;
  write_config = λ offset bytes d. d;
}

abbrev memory : GuestMemory
memory = record { size = 4096; byte_at = λ a. 0 }

-- MSI-X on, queue 0 at vector 0, a notification, vector 0 unmasked.
abbrev session : List Event
session =
    config_writes 0x87 (0x80 ∷ [])
    ∷ mmio_writes 0x1a (0 ∷ 0 ∷ [])
    ∷ mmio_writes 0x50 (0 ∷ 0 ∷ [])
    ∷ mmio_writes 0x80c (0 ∷ 0 ∷ 0 ∷ 0 ∷ [])
    ∷ mmio_reads 0x40 (0 ∷ [])
    ∷ []

run-new-IsSettled_example : IsSettled (run eager session (new eager 5 0 11, memory)).0
run-new-IsSettled_example = run-new-IsSettled eager session 5 0 11 memory

abbrev ready : VirtioPciDevice ℕ
ready = record (new eager 5 0 11) {
  config = update config_space 0x87 0x80;
  queue_msix_vectors = 1 ∷ [];
}

raise-masked-unmask_example :
    ((raise_queue_interrupt 0 ready).messages ≡ [])
    × (get_elem? (raise_queue_interrupt 0 ready).msix_pending 1 ≡ some true)
    × ((msix_table_write (raise_queue_interrupt 0 ready) 28 (0 ∷ 0 ∷ 0 ∷ 0 ∷ [])).messages
        ≡ (0, 0) ∷ [])
    × ((msix_table_write (raise_queue_interrupt 0 ready) 28 (0 ∷ 0 ∷ 0 ∷ 0 ∷ [])).msix_pending
        ≡ false ∷ false ∷ [])
unfolding msix_enabled msix_function_masked quiet get_le get_le_from new get_u16 config_space
raise-masked-unmask_example =
    raise-masked-unmask 0 1 new_entry (0 ∷ 0 ∷ 0 ∷ 0 ∷ []) ready refl refl refl refl refl refl
      (omega arith) refl refl

write_config_space_read_only_example :
    write_config_space (build_config 2 11 2) 0 (9 ∷ 9 ∷ 9 ∷ 9 ∷ 9 ∷ []) 1 ≡ build_config 2 11 2 1
write_config_space_read_only_example =
    write_config_space_read_only (build_config 2 11 2) 0 (9 ∷ 9 ∷ 9 ∷ 9 ∷ 9 ∷ []) 1 (omega arith)
      (omega arith) (inl (omega arith)) (omega arith) (omega arith)

write_common_cfg_address_example :
    ((write_common_cfg 0x24 1 (write_common_cfg 0x20 0x2000 ready)).queues
      ≡ record fresh_queue { desc_table = 0x1_0000_2000 } ∷ [])
    × ((write_common_cfg 0x2c 1 (write_common_cfg 0x28 0x2000 ready)).queues
        ≡ record fresh_queue { avail_ring = 0x1_0000_2000 } ∷ [])
    × ((write_common_cfg 0x34 1 (write_common_cfg 0x30 0x2000 ready)).queues
        ≡ record fresh_queue { used_ring = 0x1_0000_2000 } ∷ [])
unfolding new
write_common_cfg_address_example =
    write_common_cfg_address ready 0x2000 1 (omega arith) (omega arith)
