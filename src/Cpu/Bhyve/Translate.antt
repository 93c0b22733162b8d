-- ===== src/Cpu/Bhyve/Translate.antt =====
-- `gla2gpa` and `read_instr` of src/bhyve/core.rs: the bytes of the instruction that a vCPU is at.
-- `VM_GLA2GPA_NOFAULT` fills in the structure that it is given.
use ferrvm.Prelude.{ℕ, ◌≡◌, refl, List, ◌==◌, if◌then◌else◌, Result, ok, err, ◌>>=◌, bit_and}
use ferrvm.Memory.{GuestMemory, MemoryError, read_at}
use ferrvm.Cpu.{VcpuRegs, VcpuSregs}
use ferrvm.Cpu.Bhyve.{Vmm, get_regs, get_sregs}
use ferrvm.Cpu.Bhyve.Modes.{VmCpuMode, VmPagingMode, cpu_mode, paging_mode}

pub record VmGuestPaging : Type 0 where
  pub cr3 : ℕ
  pub cpl : ℕ
  pub cpu_mode : VmCpuMode
  pub paging_mode : VmPagingMode

pub record VmGla2Gpa : Type 0 where
  pub vcpuid : ℕ
  pub prot : ℕ
  pub gla : ℕ
  pub paging : VmGuestPaging
  pub fault : ℕ
  pub gpa : ℕ

pub data TranslateError (E : Type 0) : Type 0 where
  registers ioctl_failed : E → TranslateError E
  translation_fault : ℕ → TranslateError E
  memory : MemoryError → TranslateError E

abbrev pub prot_read : ℕ
prot_read = 1

pub guest_paging : VcpuSregs → VmGuestPaging
guest_paging sregs = record {
  cr3 = sregs.cr3;
  cpl = bit_and sregs.cs.dpl 3;
  cpu_mode = cpu_mode sregs;
  paging_mode = paging_mode sregs;
}

abbrev as_error : {E F A : Type 0} → (E → F) → Result E A → Result F A
as_error f (ok a) = ok a
as_error f (err e) = err (f e)

module _ {S E : Type 0} (vmm : Vmm S E) (translate : VmGla2Gpa → S → Result E VmGla2Gpa)
    (id : ℕ) where
  unfoldable pub gla2gpa : ℕ → ℕ → S → Result (TranslateError E) ℕ
  gla2gpa gla prot s = do
    sregs ← as_error registers (get_sregs vmm s)
    gg ← as_error ioctl_failed (
        translate
          (record {
            vcpuid = id;
            prot = prot;
            gla = gla;
            paging = guest_paging sregs;
            fault = 0;
            gpa = 0;
          })
          s)
    if gg.fault == 0 then ok (gg.gpa) else err (translation_fault (gg.fault))

  -- `map_or(rip, |gpa| gpa)`
  abbrev pub or_rip : ℕ → Result (TranslateError E) ℕ → ℕ
  or_rip rip (ok gpa) = gpa
  or_rip rip (err e) = rip

  unfoldable pub read_instr : GuestMemory → S → Result (TranslateError E) (List ℕ)
  read_instr mem s = do
    regs ← as_error registers (get_regs vmm s)
    as_error memory (read_at mem (or_rip regs.rip (gla2gpa regs.rip prot_read s)) 15)

  -- A fault of the translation does not stop the read: it is then made at the instruction pointer itself.
  pub read_instr_fault :
      (mem : GuestMemory) (s : S) (regs : VcpuRegs) (fault : ℕ)
      → get_regs vmm s ≡ ok regs
      → gla2gpa regs.rip prot_read s ≡ err (translation_fault fault)
      → read_instr mem s ≡ as_error memory (read_at mem (regs.rip) 15)
  unfolding read_instr
  read_instr_fault mem s regs fault got failed = rw (got, failed) refl
