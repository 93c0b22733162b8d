-- ===== src/Cpu/Bhyve.antt =====
-- The registers of a vCPU in src/bhyve/core.rs.
-- The kernel's side is the interface `Vmm`: the register and descriptor calls, over a state `S`, with
-- errors `E`. A register is named by its number in src/bhyve/api.rs. Traces are left out.
pub mod Registers
pub mod Segments
pub mod Special
pub mod Modes
pub mod Translate
use ferrvm.Prelude.{
  ℕ, ◌+◌, ◌-◌, ◌%◌, ◌^◌, Bool, List, [], ◌∷◌, ◌==◌, if◌then◌else◌, Result, ok, err, ◌>>=◌, bit_and,
  bit_or, u8, u16, ◌<<<◌, ◌>>>◌, has_bits, replicate,
}
use ferrvm.Cpu.{VcpuRegs, Segment, Dtable, VcpuSregs}

pub record SegDesc : Type 0 where
  pub base : ℕ
  pub limit : ℕ
  pub access : ℕ

-- `VM_SET_REGISTER`, `VM_GET_REGISTER`, `VM_SET_SEGMENT_DESCRIPTOR`, `VM_GET_SEGMENT_DESCRIPTOR`.
pub record Vmm (S E : Type 0) : Type 0 where
  pub set_register : ℕ → ℕ → S → Result E S
  pub get_register : ℕ → S → Result E ℕ
  pub set_descriptor : ℕ → SegDesc → S → Result E S
  pub get_descriptor : ℕ → S → Result E SegDesc

-- `SegDesc::from(&Segment)`
pub segment_access : Segment → ℕ
segment_access seg =
    bit_or
      (bit_or
        (bit_or
          (bit_or
            (bit_or
              (bit_or
                (bit_or (bit_or (bit_and seg.kind 0xf) (bit_and seg.s 1 <<< 4))
                  (bit_and seg.dpl 3 <<< 5))
                (bit_and seg.present 1 <<< 7))
              (bit_and seg.avl 1 <<< 12))
            (bit_and seg.l 1 <<< 13))
          (bit_and seg.db 1 <<< 14))
        (bit_and seg.g 1 <<< 15))
      (bit_and seg.unusable 1 <<< 16)

abbrev pub segment_desc : Segment → SegDesc
segment_desc seg = record { base = seg.base; limit = seg.limit; access = segment_access seg }

-- `Segment::from(&SegDesc)`; the selector is read separately.
pub desc_segment : SegDesc → Segment
desc_segment desc = record {
  base = desc.base;
  limit = desc.limit;
  selector = 0;
  kind = bit_and desc.access 0xf;
  s = bit_and (desc.access >>> 4) 1;
  dpl = bit_and (desc.access >>> 5) 3;
  present = bit_and (desc.access >>> 7) 1;
  avl = bit_and (desc.access >>> 12) 1;
  l = bit_and (desc.access >>> 13) 1;
  db = bit_and (desc.access >>> 14) 1;
  g = bit_and (desc.access >>> 15) 1;
  unusable = bit_and (desc.access >>> 16) 1;
  padding = 0;
}

abbrev pub dtable_desc : Dtable → SegDesc
dtable_desc dt = record { base = dt.base; limit = dt.limit; access = 0 }

abbrev pub desc_dtable : SegDesc → Dtable
desc_dtable desc = record { base = desc.base; limit = u16 (desc.limit); padding = replicate 3 0 }

-- The general registers with their numbers, in the order in which they are set.
pub named_registers : VcpuRegs → List (ℕ × ℕ)
named_registers regs =
    (0, regs.rax)
    ∷ (1, regs.rbx)
    ∷ (2, regs.rcx)
    ∷ (3, regs.rdx)
    ∷ (4, regs.rsi)
    ∷ (5, regs.rdi)
    ∷ (19, regs.rsp)
    ∷ (6, regs.rbp)
    ∷ (7, regs.r8)
    ∷ (8, regs.r9)
    ∷ (9, regs.r10)
    ∷ (10, regs.r11)
    ∷ (11, regs.r12)
    ∷ (12, regs.r13)
    ∷ (13, regs.r14)
    ∷ (14, regs.r15)
    ∷ (20, regs.rip)
    ∷ (21, regs.rflags)
    ∷ []

module _ {S E : Type 0} (vmm : Vmm S E) where
  -- One `set_register(..)?` after the other.
  unfoldable pub set_registers : List (ℕ × ℕ) → S → Result E S
  set_registers [] s = ok s
  set_registers ((r, v) ∷ rest) s = do s' ← vmm.set_register r v s; set_registers rest s'

  abbrev pub set_regs : VcpuRegs → S → Result E S
  set_regs regs s = set_registers (named_registers regs) s

  pub get_regs : S → Result E VcpuRegs
  get_regs s = do
    rax ← vmm.get_register 0 s
    rbx ← vmm.get_register 1 s
    rcx ← vmm.get_register 2 s
    rdx ← vmm.get_register 3 s
    rsi ← vmm.get_register 4 s
    rdi ← vmm.get_register 5 s
    rsp ← vmm.get_register 19 s
    rbp ← vmm.get_register 6 s
    r8 ← vmm.get_register 7 s
    r9 ← vmm.get_register 8 s
    r10 ← vmm.get_register 9 s
    r11 ← vmm.get_register 10 s
    r12 ← vmm.get_register 11 s
    r13 ← vmm.get_register 12 s
    r14 ← vmm.get_register 13 s
    r15 ← vmm.get_register 14 s
    rip ← vmm.get_register 20 s
    rflags ← vmm.get_register 21 s
    ok (record {
      rax = rax;
      rbx = rbx;
      rcx = rcx;
      rdx = rdx;
      rsi = rsi;
      rdi = rdi;
      rsp = rsp;
      rbp = rbp;
      r8 = r8;
      r9 = r9;
      r10 = r10;
      r11 = r11;
      r12 = r12;
      r13 = r13;
      r14 = r14;
      r15 = r15;
      rip = rip;
      rflags = rflags;
    })

  unfoldable pub set_segment : ℕ → Segment → S → Result E S
  set_segment reg seg s = do
    s' ← vmm.set_descriptor reg (segment_desc seg) s
    vmm.set_register reg (seg.selector) s'

  pub get_segment : ℕ → S → Result E Segment
  get_segment reg s = do
    desc ← vmm.get_descriptor reg s
    selector ← vmm.get_register reg s
    ok (record (desc_segment desc) { selector = u16 selector })

  unfoldable pub set_dtable : ℕ → Dtable → S → Result E S
  set_dtable reg dt s = vmm.set_descriptor reg (dtable_desc dt) s

  pub get_dtable : ℕ → S → Result E Dtable
  get_dtable reg s = do desc ← vmm.get_descriptor reg s; ok (desc_dtable desc)

  unfoldable pub set_segments : List (ℕ × Segment) → S → Result E S
  set_segments [] s = ok s
  set_segments ((r, seg) ∷ rest) s = do s' ← set_segment r seg s; set_segments rest s'

  unfoldable pub set_sregs : VcpuSregs → S → Result E S
  set_sregs sregs s = do
    s₁ ←
        set_segments
          ((23, sregs.cs)
            ∷ (25, sregs.ds)
            ∷ (22, sregs.es)
            ∷ (26, sregs.fs)
            ∷ (27, sregs.gs)
            ∷ (24, sregs.ss)
            ∷ (29, sregs.tr)
            ∷ (28, sregs.ldt)
            ∷ [])
          s
    s₂ ← set_dtable 31 (sregs.gdt) s₁
    s₃ ← set_dtable 30 (sregs.idt) s₂
    set_registers
        ((15, sregs.cr0)
          ∷ (33, sregs.cr2)
          ∷ (16, sregs.cr3)
          ∷ (17, sregs.cr4)
          ∷ (32, sregs.efer)
          ∷ [])
        s₃

  pub get_sregs : S → Result E VcpuSregs
  get_sregs s = do
    cs ← get_segment 23 s
    ds ← get_segment 25 s
    es ← get_segment 22 s
    fs ← get_segment 26 s
    gs ← get_segment 27 s
    ss ← get_segment 24 s
    tr ← get_segment 29 s
    ldt ← get_segment 28 s
    gdt ← get_dtable 31 s
    idt ← get_dtable 30 s
    cr0 ← vmm.get_register 15 s
    cr2 ← vmm.get_register 33 s
    cr3 ← vmm.get_register 16 s
    cr4 ← vmm.get_register 17 s
    efer ← vmm.get_register 32 s
    ok (record {
      cs = cs;
      ds = ds;
      es = es;
      fs = fs;
      gs = gs;
      ss = ss;
      tr = tr;
      ldt = ldt;
      gdt = gdt;
      idt = idt;
      cr0 = cr0;
      cr2 = cr2;
      cr3 = cr3;
      cr4 = cr4;
      cr8 = 0;
      efer = efer;
      apic_base = 0;
      interrupt_bitmap = replicate 4 0;
    })
