-- ===== src/Cpu/Kvm.antt =====
-- The registers of a vCPU in src/kvm/core.rs, whose structures have the fields of src/traits.rs.
-- The kernel's side is the interface `Kvm`: its four calls, over a state `S`, with errors `E`.
pub mod Structs
use ferrvm.Prelude.{ℕ, ◌≡◌, ◌∙◌, List, Result, ok, ◌>>=◌, ok_bind}
use Structs.{KvmSegment, KvmDtable, KvmSregs, KvmRegs}
use ferrvm.Cpu.{VcpuRegs, Segment, Dtable, VcpuSregs, Vcpu}

-- `KvmSegment::from(&Segment)` and back, and the same of tables.
pub kvm_segment : Segment → KvmSegment
kvm_segment seg = record {
  base = seg.base;
  limit = seg.limit;
  selector = seg.selector;
  kind = seg.kind;
  present = seg.present;
  dpl = seg.dpl;
  db = seg.db;
  s = seg.s;
  l = seg.l;
  g = seg.g;
  avl = seg.avl;
  unusable = seg.unusable;
  padding = seg.padding;
}

pub segment : KvmSegment → Segment
segment seg = record {
  base = seg.base;
  limit = seg.limit;
  selector = seg.selector;
  kind = seg.kind;
  present = seg.present;
  dpl = seg.dpl;
  db = seg.db;
  s = seg.s;
  l = seg.l;
  g = seg.g;
  avl = seg.avl;
  unusable = seg.unusable;
  padding = seg.padding;
}

pub dtable : KvmDtable → Dtable
dtable dt = record { base = dt.base; limit = dt.limit; padding = dt.padding }

pub kvm_dtable : Dtable → KvmDtable
kvm_dtable dt = record { base = dt.base; limit = dt.limit; padding = dt.padding }

-- The structures that `set_regs` and `set_sregs` pass to the kernel, and what the gets make of them.
pub kvm_regs : VcpuRegs → KvmRegs
kvm_regs regs = record {
  rax = regs.rax;
  rbx = regs.rbx;
  rcx = regs.rcx;
  rdx = regs.rdx;
  rsi = regs.rsi;
  rdi = regs.rdi;
  rsp = regs.rsp;
  rbp = regs.rbp;
  r8 = regs.r8;
  r9 = regs.r9;
  r10 = regs.r10;
  r11 = regs.r11;
  r12 = regs.r12;
  r13 = regs.r13;
  r14 = regs.r14;
  r15 = regs.r15;
  rip = regs.rip;
  rflags = regs.rflags;
}

pub vcpu_regs : KvmRegs → VcpuRegs
vcpu_regs regs = record {
  rax = regs.rax;
  rbx = regs.rbx;
  rcx = regs.rcx;
  rdx = regs.rdx;
  rsi = regs.rsi;
  rdi = regs.rdi;
  rsp = regs.rsp;
  rbp = regs.rbp;
  r8 = regs.r8;
  r9 = regs.r9;
  r10 = regs.r10;
  r11 = regs.r11;
  r12 = regs.r12;
  r13 = regs.r13;
  r14 = regs.r14;
  r15 = regs.r15;
  rip = regs.rip;
  rflags = regs.rflags;
}

pub kvm_sregs : VcpuSregs → KvmSregs
kvm_sregs sregs = record {
  cs = kvm_segment (sregs.cs);
  ds = kvm_segment (sregs.ds);
  es = kvm_segment (sregs.es);
  fs = kvm_segment (sregs.fs);
  gs = kvm_segment (sregs.gs);
  ss = kvm_segment (sregs.ss);
  tr = kvm_segment (sregs.tr);
  ldt = kvm_segment (sregs.ldt);
  gdt = kvm_dtable (sregs.gdt);
  idt = kvm_dtable (sregs.idt);
  cr0 = sregs.cr0;
  cr2 = sregs.cr2;
  cr3 = sregs.cr3;
  cr4 = sregs.cr4;
  cr8 = sregs.cr8;
  efer = sregs.efer;
  apic_base = sregs.apic_base;
  interrupt_bitmap = sregs.interrupt_bitmap;
}

pub vcpu_sregs : KvmSregs → VcpuSregs
vcpu_sregs sregs = record {
  cs = segment (sregs.cs);
  ds = segment (sregs.ds);
  es = segment (sregs.es);
  fs = segment (sregs.fs);
  gs = segment (sregs.gs);
  ss = segment (sregs.ss);
  tr = segment (sregs.tr);
  ldt = segment (sregs.ldt);
  gdt = dtable (sregs.gdt);
  idt = dtable (sregs.idt);
  cr0 = sregs.cr0;
  cr2 = sregs.cr2;
  cr3 = sregs.cr3;
  cr4 = sregs.cr4;
  cr8 = sregs.cr8;
  efer = sregs.efer;
  apic_base = sregs.apic_base;
  interrupt_bitmap = sregs.interrupt_bitmap;
}

-- `KVM_GET_REGS`, `KVM_SET_REGS`, `KVM_GET_SREGS`, `KVM_SET_SREGS`.
pub record Kvm (S E : Type 0) : Type 0 where
  pub ioctl_get_regs : S → Result E KvmRegs
  pub ioctl_set_regs : KvmRegs → S → Result E S
  pub ioctl_get_sregs : S → Result E KvmSregs
  pub ioctl_set_sregs : KvmSregs → S → Result E S

-- `impl Vcpu for KvmVcpu`
pub kvm_vcpu : {S E : Type 0} → Kvm S E → Vcpu S E
kvm_vcpu kvm = record {
  get_regs = λ s. kvm.ioctl_get_regs s >>= λ regs. ok (vcpu_regs regs);
  set_regs = λ regs s. kvm.ioctl_set_regs (kvm_regs regs) s;
  get_sregs = λ s. kvm.ioctl_get_sregs s >>= λ sregs. ok (vcpu_sregs sregs);
  set_sregs = λ sregs s. kvm.ioctl_set_sregs (kvm_sregs sregs) s;
}

-- What the kernel documents: a get after a set that succeeded finds what was set, and the two kinds
-- of registers are apart.
pub record IsKvm {S E : Type 0} (kvm : Kvm S E) : Type 0 where
  pub regs_same :
      (regs : KvmRegs) (s s' : S)
      → kvm.ioctl_set_regs regs s ≡ ok s'
      → kvm.ioctl_get_regs s' ≡ ok regs
  pub sregs_same :
      (sregs : KvmSregs) (s s' : S)
      → kvm.ioctl_set_sregs sregs s ≡ ok s'
      → kvm.ioctl_get_sregs s' ≡ ok sregs
  pub sregs_regs :
      (sregs : KvmSregs) (s s' : S)
      → kvm.ioctl_set_sregs sregs s ≡ ok s'
      → kvm.ioctl_get_regs s' ≡ kvm.ioctl_get_regs s

-- A vCPU that got its general and then its special registers, as the loader gives them, has both.
pub kvm_vcpu-registers :
    {S E : Type 0} (kvm : Kvm S E) (regs : VcpuRegs) (sregs : VcpuSregs) (s s₁ s₂ : S)
    → IsKvm kvm
    → (kvm_vcpu kvm).set_regs regs s ≡ ok s₁
    → (kvm_vcpu kvm).set_sregs sregs s₁ ≡ ok s₂
    → ((kvm_vcpu kvm).get_regs s₂ ≡ ok regs) × ((kvm_vcpu kvm).get_sregs s₂ ≡ ok sregs)
unfolding kvm_vcpu kvm_regs vcpu_regs kvm_sregs vcpu_sregs kvm_segment segment kvm_dtable dtable
kvm_vcpu-registers kvm regs sregs s s₁ s₂ store h₁ h₂ =
    let general =
      store.sregs_regs (kvm_sregs sregs) s₁ s₂ h₂ ∙ store.regs_same (kvm_regs regs) s s₁ h₁ in
    let special = store.sregs_same (kvm_sregs sregs) s₁ s₂ h₂ in
    (ok_bind _ _ (kvm_regs regs) general, ok_bind _ _ (kvm_sregs sregs) special)
