-- ===== src/Exits/Reasons.antt =====
-- The exit reasons of src/kvm/api.rs and src/bhyve/api.rs, with their codes.
use ferrvm.Prelude.{arith, ℕ, ◌≡◌, refl, Result, ok, err, ◌==◌, if◌then◌else◌}

pub data VmExitReason : Type 0 where
  unknown exception io hypercall debug hlt mm_io irq_window_open shutdown fail_entry intr set_tpr
        tpr_access s390_sieic s390_reset dcr nmi internal_error osi papr_hcall s390_ucontrol
        watchdog s390_tsch epr system_event s390_stsi ioapic_eoi hyperv arm_nisv x86_rdmsr x86_wrmsr
        dirty_ring_full ap_reset_hold x86_bus_lock xen riscv_sbi riscv_csr notify loongarch_iocsr
        memory_fault tdx arm_sea :
      VmExitReason

-- `reason as u32`
pub code : VmExitReason → ℕ
code unknown = 0
code exception = 1
code io = 2
code hypercall = 3
code debug = 4
code hlt = 5
code mm_io = 6
code irq_window_open = 7
code shutdown = 8
code fail_entry = 9
code intr = 10
code set_tpr = 11
code tpr_access = 12
code s390_sieic = 13
code s390_reset = 14
code dcr = 15
code nmi = 16
code internal_error = 17
code osi = 18
code papr_hcall = 19
code s390_ucontrol = 20
code watchdog = 21
code s390_tsch = 22
code epr = 23
code system_event = 24
code s390_stsi = 25
code ioapic_eoi = 26
code hyperv = 27
code arm_nisv = 28
code x86_rdmsr = 29
code x86_wrmsr = 30
code dirty_ring_full = 31
code ap_reset_hold = 32
code x86_bus_lock = 33
code xen = 34
code riscv_sbi = 35
code riscv_csr = 36
code notify = 37
code loongarch_iocsr = 38
code memory_fault = 39
code tdx = 40
code arm_sea = 41

pub try_from : ℕ → Result ℕ VmExitReason
try_from val =
    if val == 0
    then ok unknown
    else if val == 1
    then ok exception
    else if val == 2
    then ok io
    else if val == 3
    then ok hypercall
    else if val == 4
    then ok debug
    else if val == 5
    then ok hlt
    else if val == 6
    then ok mm_io
    else if val == 7
    then ok irq_window_open
    else if val == 8
    then ok shutdown
    else if val == 9
    then ok fail_entry
    else if val == 10
    then ok intr
    else if val == 11
    then ok set_tpr
    else if val == 12
    then ok tpr_access
    else if val == 13
    then ok s390_sieic
    else if val == 14
    then ok s390_reset
    else if val == 15
    then ok dcr
    else if val == 16
    then ok nmi
    else if val == 17
    then ok internal_error
    else if val == 18
    then ok osi
    else if val == 19
    then ok papr_hcall
    else if val == 20
    then ok s390_ucontrol
    else if val == 21
    then ok watchdog
    else if val == 22
    then ok s390_tsch
    else if val == 23
    then ok epr
    else if val == 24
    then ok system_event
    else if val == 25
    then ok s390_stsi
    else if val == 26
    then ok ioapic_eoi
    else if val == 27
    then ok hyperv
    else if val == 28
    then ok arm_nisv
    else if val == 29
    then ok x86_rdmsr
    else if val == 30
    then ok x86_wrmsr
    else if val == 31
    then ok dirty_ring_full
    else if val == 32
    then ok ap_reset_hold
    else if val == 33
    then ok x86_bus_lock
    else if val == 34
    then ok xen
    else if val == 35
    then ok riscv_sbi
    else if val == 36
    then ok riscv_csr
    else if val == 37
    then ok notify
    else if val == 38
    then ok loongarch_iocsr
    else if val == 39
    then ok memory_fault
    else if val == 40
    then ok tdx
    else if val == 41
    then ok arm_sea
    else err val

-- The code of a reason is taken for that reason.
pub try_from-code : (reason : VmExitReason) → try_from (code reason) ≡ ok reason
unfolding try_from code
try_from-code unknown = refl
try_from-code exception = refl
try_from-code io = refl
try_from-code hypercall = refl
try_from-code debug = refl
try_from-code hlt = refl
try_from-code mm_io = refl
try_from-code irq_window_open = refl
try_from-code shutdown = refl
try_from-code fail_entry = refl
try_from-code intr = refl
try_from-code set_tpr = refl
try_from-code tpr_access = refl
try_from-code s390_sieic = refl
try_from-code s390_reset = refl
try_from-code dcr = refl
try_from-code nmi = refl
try_from-code internal_error = refl
try_from-code osi = refl
try_from-code papr_hcall = refl
try_from-code s390_ucontrol = refl
try_from-code watchdog = refl
try_from-code s390_tsch = refl
try_from-code epr = refl
try_from-code system_event = refl
try_from-code s390_stsi = refl
try_from-code ioapic_eoi = refl
try_from-code hyperv = refl
try_from-code arm_nisv = refl
try_from-code x86_rdmsr = refl
try_from-code x86_wrmsr = refl
try_from-code dirty_ring_full = refl
try_from-code ap_reset_hold = refl
try_from-code x86_bus_lock = refl
try_from-code xen = refl
try_from-code riscv_sbi = refl
try_from-code riscv_csr = refl
try_from-code notify = refl
try_from-code loongarch_iocsr = refl
try_from-code memory_fault = refl
try_from-code tdx = refl
try_from-code arm_sea = refl

pub try_from-io : (val : ℕ) → try_from val ≡ ok io → val ≡ 2
unfolding try_from
try_from-io val h = ground arith
