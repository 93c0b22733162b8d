-- ===== src/Vm/Sinks/Agree.antt =====
-- What the two backends tell the kernel about an interrupt, compared.
use ferrvm.Prelude.{arith, ℕ, ◌+◌, ◌*◌, ◌^◌, ◌<◌, ◌≡◌}
use ferrvm.Vm.Sinks.{KvmMsi, VmLapicMsi, kvm_msi, vm_lapic_msi}

-- The message that each kernel reads out of the structure.
abbrev pub kvm_message : KvmMsi → ℕ × ℕ
kvm_message m = (m.address_hi * 2 ^ 32 + m.address_lo, m.value)

abbrev pub bhyve_message : VmLapicMsi → ℕ × ℕ
bhyve_message m = (m.addr, m.msg)

-- The local APIC gets the address and the data of the MSI-X entry, whole and in their places, with KVM
-- from the two halves of the address and with bhyve from one word: the same message for every
-- 64-bit address.
pub msi_agrees :
    (address value : ℕ)
    → address < 2 ^ 64
    → (kvm_message (kvm_msi address value) ≡ (address, value))
      × (bhyve_message (vm_lapic_msi address value) ≡ kvm_message (kvm_msi address value))
unfolding kvm_msi vm_lapic_msi
msi_agrees address value h = (ground arith, ground arith)
