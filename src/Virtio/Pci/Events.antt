-- ===== src/Virtio/Pci/Events.antt =====
-- What can happen to a virtio-pci device of src/virtio/pci.rs: the calls of its handlers by the PCI root
-- bus and by the MMIO window, in any order.
use ferrvm.Prelude.{ℕ, List, [], ◌∷◌, refl}
use ferrvm.Memory.{GuestMemory}
use ferrvm.Virtio.Pci.State.{VirtioDevice, VirtioPciDevice, new, replace_irq_sink}
use ferrvm.Virtio.Pci.Mmio.{mmio_read, mmio_write, config_write}
use ferrvm.Virtio.Pci.Pending.{quiet-replicate-false}
use ferrvm.Virtio.Pci.Interrupts.{
  IsSettled, settled_by_quiet, kept, mmio_read-IsSettled, mmio_write-IsSettled,
  config_write-IsSettled,
}

pub data Event : Type 0 where
  mmio_reads : ℕ → List ℕ → Event
  mmio_writes : ℕ → List ℕ → Event
  config_writes : ℕ → List ℕ → Event
  replaces_irq_sink : ℕ → Event

module _ {D : Type 0} (backend : VirtioDevice D) where
  unfoldable pub step : Event → VirtioPciDevice D × GuestMemory → VirtioPciDevice D × GuestMemory
  step (mmio_reads o buffer) (v, mem) = ((mmio_read backend v o buffer).1, mem)
  step (mmio_writes o bytes) (v, mem) = mmio_write backend v o bytes mem
  step (config_writes offset bytes) (v, mem) = (config_write v offset bytes, mem)
  step (replaces_irq_sink sink) (v, mem) = (replace_irq_sink sink v, mem)

  unfoldable pub run :
      List Event → VirtioPciDevice D × GuestMemory → VirtioPciDevice D × GuestMemory
  run [] s = s
  run (e ∷ es) s = run es (step e s)

  step-IsSettled :
      (e : Event) (s : VirtioPciDevice D × GuestMemory) → IsSettled s.0 → IsSettled (step e s).0
  unfolding step replace_irq_sink
  step-IsSettled (mmio_reads o buffer) (v, mem) h = mmio_read-IsSettled backend o buffer v h
  step-IsSettled (mmio_writes o bytes) (v, mem) h = mmio_write-IsSettled backend o bytes v mem h
  step-IsSettled (config_writes offset bytes) (v, mem) h = config_write-IsSettled v offset bytes
  step-IsSettled (replaces_irq_sink sink) (v, mem) h = kept v _ refl refl refl h

  run-IsSettled :
      (es : List Event) (s : VirtioPciDevice D × GuestMemory)
      → IsSettled s.0
      → IsSettled (run es s).0
  unfolding run
  run-IsSettled [] s h = h
  run-IsSettled (e ∷ es) s h = run-IsSettled es (step e s) (step-IsSettled e s h)

  -- After any calls of the handlers of a new device, with any backend: while MSI-X messages go out, no
  -- vector is both pending and unmasked.
  pub run-new-IsSettled :
      (es : List Event) (irq_sink : ℕ) (device : D) (irq_line : ℕ) (mem : GuestMemory)
      → IsSettled (run es (new backend irq_sink device irq_line, mem)).0
  unfolding new IsSettled
  run-new-IsSettled es irq_sink device irq_line mem =
      run-IsSettled es _ (settled_by_quiet _ _ _ (quiet-replicate-false _ _))
