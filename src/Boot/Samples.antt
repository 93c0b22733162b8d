-- ===== src/Boot/Samples.antt =====
-- A small memory, a CPU of registers, and the memory of an outcome, for the tests of the kernel loader.
use ferrvm.Prelude.{ℕ, Result, ok, err, replicate, List, [], ◌∷◌, ◌++◌}
use ferrvm.Memory.{GuestMemory}
use ferrvm.Cpu.{Segment, Dtable, VcpuRegs, VcpuSregs, Vcpu}
use ferrvm.Boot.Errors.{BootError}

abbrev pub small : GuestMemory
small = record { size = 0x20_0000; byte_at = λ _. 0 }

abbrev pub no_segment : Segment
no_segment = record {
  base = 0;
  limit = 0;
  selector = 0;
  kind = 0;
  present = 0;
  dpl = 0;
  db = 0;
  s = 0;
  l = 0;
  g = 0;
  avl = 0;
  unusable = 0;
  padding = 0;
}

abbrev pub no_table : Dtable
no_table = record { base = 0; limit = 0; padding = replicate 3 0 }

abbrev pub no_regs : VcpuRegs
no_regs = record {
  rax = 0;
  rbx = 0;
  rcx = 0;
  rdx = 0;
  rsi = 0;
  rdi = 0;
  rsp = 0;
  rbp = 0;
  r8 = 0;
  r9 = 0;
  r10 = 0;
  r11 = 0;
  r12 = 0;
  r13 = 0;
  r14 = 0;
  r15 = 0;
  rip = 0;
  rflags = 0;
}

abbrev pub no_sregs : VcpuSregs
no_sregs = record {
  cs = no_segment;
  ds = no_segment;
  es = no_segment;
  fs = no_segment;
  gs = no_segment;
  ss = no_segment;
  tr = no_segment;
  ldt = no_segment;
  gdt = no_table;
  idt = no_table;
  cr0 = 0;
  cr2 = 0;
  cr3 = 0;
  cr4 = 0;
  cr8 = 0;
  efer = 0;
  apic_base = 0;
  interrupt_bitmap = replicate 4 0;
}

-- A CPU that keeps what it is given.
abbrev pub cpu : Vcpu (VcpuRegs × VcpuSregs) ℕ
cpu = record {
  get_regs = λ c. ok c.0;
  set_regs = λ regs c. ok (regs, c.1);
  get_sregs = λ c. ok c.1;
  set_sregs = λ sregs c. ok (c.0, sregs);
}

abbrev pub outcome_memory : {A : Type 0} → Result (BootError ℕ) (A × GuestMemory) → GuestMemory
outcome_memory (ok (a, mem)) = mem
outcome_memory (err e) = small

abbrev pub memory_of : Result (BootError ℕ) GuestMemory → GuestMemory
memory_of (ok mem) = mem
memory_of (err e) = small

-- A bzImage of one setup sector and a payload of three bytes.
abbrev pub image : List ℕ
image =
    replicate 0x1f1 0
    ++ (1 ∷ [])
    ++ replicate 12 0
    ++ (0x55 ∷ 0xaa ∷ 0 ∷ 0 ∷ 0x48 ∷ 0x64 ∷ 0x72 ∷ 0x53 ∷ 0x0f ∷ 0x02 ∷ [])
    ++ replicate 0x1f8 0
    ++ (1 ∷ 2 ∷ 3 ∷ [])
