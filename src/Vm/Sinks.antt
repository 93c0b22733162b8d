-- ===== src/Vm/Sinks.antt =====
-- The interrupt sinks of src/kvm/irq.rs and src/bhyve/irq.rs: the structures that they pass to the kernel.
pub mod Agree
use ferrvm.Prelude.{ℕ, ◌/◌, ◌%◌, ◌^◌, Bool, true, false, List, if◌then◌else◌, u32, ◌>>>◌, replicate}

pub record KvmIrqLevel : Type 0 where
  pub irq : ℕ
  pub level : ℕ

pub record KvmMsi : Type 0 where
  pub address_lo : ℕ
  pub address_hi : ℕ
  pub value : ℕ
  pub flags : ℕ
  pub devid : ℕ
  pub pad : List ℕ

-- The request of `KvmIrqSink::set_level` and of `KvmMsiSink::signal`.
unfoldable pub kvm_irq_level : ℕ → Bool → KvmIrqLevel
kvm_irq_level gsi asserted = record { irq = gsi; level = if asserted then 1 else 0 }

unfoldable pub kvm_msi : ℕ → ℕ → KvmMsi
kvm_msi address value = record {
  address_lo = u32 address;
  address_hi = u32 (address >>> 32);
  value = value;
  flags = 0;
  devid = 0;
  pad = replicate 12 0;
}

pub record VmIsaIrq : Type 0 where
  pub atpic_irq : ℕ
  pub ioapic_irq : ℕ

pub record VmLapicMsi : Type 0 where
  pub msg : ℕ
  pub addr : ℕ

-- The argument of `BhyveIrqSink::set_level`, where a GSI is below 2^31 and so its own `i32`, and of
-- `BhyveMsiSink::signal`.
unfoldable pub vm_isa_irq : ℕ → VmIsaIrq
vm_isa_irq gsi = record { atpic_irq = gsi; ioapic_irq = gsi }

unfoldable pub vm_lapic_msi : ℕ → ℕ → VmLapicMsi
vm_lapic_msi address value = record { msg = value; addr = address }
