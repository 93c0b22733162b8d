-- ===== src/Cpu/Kvm/Structs.antt =====
-- The register structures of src/kvm/api.rs.
use ferrvm.Prelude.{ℕ, List}

pub record KvmSegment : Type 0 where
  pub base : ℕ
  pub limit : ℕ
  pub selector : ℕ
  pub kind : ℕ
  pub present : ℕ
  pub dpl : ℕ
  pub db : ℕ
  pub s : ℕ
  pub l : ℕ
  pub g : ℕ
  pub avl : ℕ
  pub unusable : ℕ
  pub padding : ℕ

pub record KvmDtable : Type 0 where
  pub base : ℕ
  pub limit : ℕ
  pub padding : List ℕ

pub record KvmSregs : Type 0 where
  pub cs : KvmSegment
  pub ds : KvmSegment
  pub es : KvmSegment
  pub fs : KvmSegment
  pub gs : KvmSegment
  pub ss : KvmSegment
  pub tr : KvmSegment
  pub ldt : KvmSegment
  pub gdt : KvmDtable
  pub idt : KvmDtable
  pub cr0 : ℕ
  pub cr2 : ℕ
  pub cr3 : ℕ
  pub cr4 : ℕ
  pub cr8 : ℕ
  pub efer : ℕ
  pub apic_base : ℕ
  pub interrupt_bitmap : List ℕ

pub record KvmRegs : Type 0 where
  pub rax : ℕ
  pub rbx : ℕ
  pub rcx : ℕ
  pub rdx : ℕ
  pub rsi : ℕ
  pub rdi : ℕ
  pub rsp : ℕ
  pub rbp : ℕ
  pub r8 : ℕ
  pub r9 : ℕ
  pub r10 : ℕ
  pub r11 : ℕ
  pub r12 : ℕ
  pub r13 : ℕ
  pub r14 : ℕ
  pub r15 : ℕ
  pub rip : ℕ
  pub rflags : ℕ
