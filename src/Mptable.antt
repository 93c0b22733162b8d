-- ===== src/Mptable.antt =====
-- src/mptable.rs: the Intel MP table that tells a guest of its CPUs and interrupt lines.
-- The processor's signature and features, which the source reads by CPUID, are the parameters
-- `cpu_sig` and `cpu_feat`; `TIMER_ON_PIN2`, which the target sets, is the parameter of that name.
pub mod Sums
pub mod Entries
pub mod Written
mod Tests
use ferrvm.Prelude.{
  ℕ, zero, suc, ◌+◌, ◌-◌, ◌*◌, ◌/◌, ◌%◌, ◌^◌, Bool, true, false, List, [], ◌∷◌, ◌++◌, ltb, ◌==◌,
  if◌then◌else◌, Result, ok, err, ◌>>=◌, length, set, u8, u16, to_le,
}
use ferrvm.Memory.{GuestMemory, MemoryError, write_at}

-- Why the table was not written; the source has the texts.
pub data MptableError : Type 0 where
  too_large : MptableError
  memory : MemoryError → MptableError

abbrev pub mpf_addr : ℕ
mpf_addr = 0xf_0000

abbrev pub mpc_addr : ℕ
mpc_addr = mpf_addr + 16

abbrev pub apic_default_phys_base : ℕ
apic_default_phys_base = 0xfee0_0000

abbrev pub ioapic_default_phys_base : ℕ
ioapic_default_phys_base = 0xfec0_0000

abbrev pub mp_processor : ℕ
mp_processor = 0

abbrev pub mp_bus : ℕ
mp_bus = 1

abbrev pub mp_ioapic : ℕ
mp_ioapic = 2

abbrev pub mp_intsrc : ℕ
mp_intsrc = 3

abbrev pub mp_lintsrc : ℕ
mp_lintsrc = 4

abbrev pub mp_irq_int : ℕ
mp_irq_int = 0

abbrev pub mp_irq_nmi : ℕ
mp_irq_nmi = 1

abbrev pub mp_irq_extint : ℕ
mp_irq_extint = 3

abbrev pub lapic_version : ℕ
lapic_version = 0x14

abbrev pub ioapic_version : ℕ
ioapic_version = 0x11

abbrev pub num_isa_irqs : ℕ
num_isa_irqs = 16

-- The fold of `wrapping_add` from `acc` on.
unfoldable pub wrapping_sum : ℕ → List ℕ → ℕ
wrapping_sum acc [] = acc
wrapping_sum acc (b ∷ bytes) = wrapping_sum (u8 (acc + b)) bytes

-- `0u8.wrapping_sub(sum)`
pub checksum : List ℕ → ℕ
checksum bytes = u8 (256 - wrapping_sum 0 bytes)

-- The header, with the length, the entry count and the checksum still zero.
pub mpc_header : List ℕ
mpc_header =
    (0x50 ∷ 0x43 ∷ 0x4d ∷ 0x50 ∷ [])
    ++ to_le 2 0
    ++ (4 ∷ 0 ∷ [])
    ++ (0x46 ∷ 0x45 ∷ 0x52 ∷ 0x52 ∷ 0x56 ∷ 0x4d ∷ 0x30 ∷ 0x30 ∷ [])
    ++ (0x66 ∷ 0x65 ∷ 0x72 ∷ 0x72 ∷ 0x76 ∷ 0x6d ∷ 0x20 ∷ 0x30 ∷ 0x2e ∷ 0x31 ∷ 0x20 ∷ 0x20 ∷ [])
    ++ to_le 4 0
    ++ to_le 2 0
    ++ to_le 2 0
    ++ to_le 4 apic_default_phys_base
    ++ to_le 4 0

-- `CPU_ENABLED`, and `CPU_BOOTPROCESSOR` for CPU 0.
abbrev pub cpu_flags : ℕ → ℕ
cpu_flags id = if id == 0 then 3 else 1

abbrev pub processor_entry : ℕ → ℕ → ℕ → List ℕ
processor_entry cpu_sig cpu_feat id =
    (mp_processor ∷ id ∷ lapic_version ∷ cpu_flags id ∷ [])
    ++ to_le 4 cpu_sig
    ++ to_le 4 cpu_feat
    ++ to_le 4 0
    ++ to_le 4 0

-- The loop over the CPUs, `left` of them from `id` on.
unfoldable pub processor_entries : ℕ → ℕ → ℕ → ℕ → List ℕ
processor_entries cpu_sig cpu_feat zero id = []
processor_entries cpu_sig cpu_feat (suc left) id =
    processor_entry cpu_sig cpu_feat id ++ processor_entries cpu_sig cpu_feat left (id + 1)

abbrev pub bus_entry : List ℕ
bus_entry = mp_bus ∷ 0 ∷ 0x49 ∷ 0x53 ∷ 0x41 ∷ 0x20 ∷ 0x20 ∷ 0x20 ∷ []

abbrev pub ioapic_entry : ℕ → List ℕ
ioapic_entry ioapic_id =
    (mp_ioapic ∷ ioapic_id ∷ ioapic_version ∷ 1 ∷ []) ++ to_le 4 ioapic_default_phys_base

-- The interrupt type and the ISA line routed to a pin.
pub pin_source : Bool → ℕ → ℕ × ℕ
pin_source true pin =
    if pin == 0 then (mp_irq_extint, 0) else if pin == 2 then (mp_irq_int, 0) else (mp_irq_int, pin)
pin_source false pin = (mp_irq_int, pin)

abbrev pub intsrc_entry : Bool → ℕ → ℕ → List ℕ
intsrc_entry timer_on_pin2 ioapic_id pin =
    (mp_intsrc ∷ (pin_source timer_on_pin2 pin).0 ∷ [])
    ++ to_le 2 0
    ++ (0 ∷ (pin_source timer_on_pin2 pin).1 ∷ ioapic_id ∷ pin ∷ [])

-- The loop over the pins, `left` of them from `pin` on.
unfoldable pub intsrc_entries : Bool → ℕ → ℕ → ℕ → List ℕ
intsrc_entries timer_on_pin2 ioapic_id zero pin = []
intsrc_entries timer_on_pin2 ioapic_id (suc left) pin =
    intsrc_entry timer_on_pin2 ioapic_id pin
    ++ intsrc_entries timer_on_pin2 ioapic_id left (pin + 1)

abbrev pub lintsrc_entry : ℕ → ℕ → List ℕ
lintsrc_entry int_type lint =
    (mp_lintsrc ∷ int_type ∷ []) ++ to_le 2 0 ++ (0 ∷ 0 ∷ 0xff ∷ lint ∷ [])

-- The bus, the I/O APIC and the interrupt lines, pushed after the processors.
pub fixed_bytes : Bool → ℕ → List ℕ
fixed_bytes timer_on_pin2 ioapic_id =
    bus_entry
    ++ ioapic_entry ioapic_id
    ++ intsrc_entries timer_on_pin2 ioapic_id num_isa_irqs 0
    ++ lintsrc_entry mp_irq_extint 0
    ++ lintsrc_entry mp_irq_nmi 1

-- What follows the header.
pub mpc_entries : Bool → ℕ → ℕ → ℕ → List ℕ
mpc_entries timer_on_pin2 cpu_sig cpu_feat num_cpus =
    processor_entries cpu_sig cpu_feat num_cpus 0 ++ fixed_bytes timer_on_pin2 num_cpus

-- `entries`, counted up with each entry pushed.
abbrev pub entry_count : ℕ → ℕ
entry_count num_cpus = num_cpus + 1 + 1 + num_isa_irqs + 1 + 1

-- A 16-bit field written over two bytes.
abbrev pub set_u16 : List ℕ → ℕ → ℕ → List ℕ
set_u16 bytes i value = set (set bytes i (value % 256)) (i + 1) (value / 256 % 256)

-- The length, the entry count and the checksum filled in.
pub backfill : ℕ → List ℕ → Result MptableError (List ℕ)
backfill entries mpc =
    if ltb (length mpc) (2 ^ 16)
    then (let mpc' = set_u16 (set_u16 mpc 4 (length mpc)) 34 entries in
        ok (set mpc' 7 (checksum mpc')))
    else err too_large

-- The floating pointer structure, the checksum still zero.
abbrev pub mpf_zero : List ℕ
mpf_zero =
    (0x5f ∷ 0x4d ∷ 0x50 ∷ 0x5f ∷ []) ++ to_le 4 mpc_addr ++ (1 ∷ 4 ∷ 0 ∷ 0 ∷ 0 ∷ 0 ∷ 0 ∷ 0 ∷ [])

pub mpf : List ℕ
mpf = set mpf_zero 10 (checksum mpf_zero)

abbrev pub put : GuestMemory → ℕ → List ℕ → Result MptableError GuestMemory
put mem gpa bytes = elim (write_at mem gpa bytes) [ ok mem' ↦ ok mem' | err e ↦ err (memory e) ]

pub write_mptable : Bool → ℕ → ℕ → GuestMemory → ℕ → Result MptableError GuestMemory
write_mptable timer_on_pin2 cpu_sig cpu_feat mem num_cpus = do
  mpc ←
      backfill (entry_count num_cpus)
        (mpc_header ++ mpc_entries timer_on_pin2 cpu_sig cpu_feat num_cpus)
  mem' ← put mem mpc_addr mpc
  put mem' mpf_addr mpf
