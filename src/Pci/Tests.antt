-- ===== src/Pci/Tests.antt =====
-- The theorems on the PCI root bus at a bus of one device.
use ferrvm.Prelude.{ℕ, [], ◌∷◌, ◌≡◌, refl, arith, map}
use ferrvm.Pci.{PciDevice, PciRootBus, read, write, get}
use ferrvm.Pci.Decode.{config_address, access_slot}

-- A device that answers with the register's offset and keeps the last offset written.
abbrev echo : PciDevice ℕ ℕ
echo = record {
  config_read = λ d offset buffer s. map (λ b. offset) buffer;
  config_write = λ d offset bytes s. offset;
}

abbrev one_slot : PciRootBus ℕ
one_slot = record { config_address = config_address 3 0 0x10; devices = (24, 7) ∷ [] }

access_slot_example :
    (read echo one_slot 6 (0 ∷ []) 5 ≡ 0x12 ∷ [])
    × (write echo one_slot 6 (0 ∷ []) 5 ≡ (one_slot, 0x12))
unfolding get
access_slot_example =
    access_slot echo one_slot 3 0 0x10 2 (0 ∷ []) 5 refl (omega arith) (omega arith) (omega arith)
