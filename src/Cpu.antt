-- ===== src/Cpu.antt =====
-- src/traits.rs: the registers of a vCPU, and what the rest of the program asks of one.
pub mod Bhyve
pub mod Kvm
mod Tests
use ferrvm.Prelude.{ℕ, List, Result, Option}
use ferrvm.Memory.{GuestMemory}

pub record VcpuRegs : Type 0 where
  pub rax : ℕ
  pub rbx : ℕ
  pub rcx : ℕ
  pub rdx : ℕ
  pub rsi : ℕ
  pub rdi : ℕ
  pub rsp : ℕ
  pub rbp : ℕ
  pub r8 : ℕ
  pub r9 : ℕ
  pub r10 : ℕ
  pub r11 : ℕ
  pub r12 : ℕ
  pub r13 : ℕ
  pub r14 : ℕ
  pub r15 : ℕ
  pub rip : ℕ
  pub rflags : ℕ

pub record Segment : Type 0 where
  pub base : ℕ
  pub limit : ℕ
  pub selector : ℕ
  pub kind : ℕ
  pub present : ℕ
  pub dpl : ℕ
  pub db : ℕ
  pub s : ℕ
  pub l : ℕ
  pub g : ℕ
  pub avl : ℕ
  pub unusable : ℕ
  pub padding : ℕ

pub record Dtable : Type 0 where
  pub base : ℕ
  pub limit : ℕ
  pub padding : List ℕ

pub record VcpuSregs : Type 0 where
  pub cs : Segment
  pub ds : Segment
  pub es : Segment
  pub fs : Segment
  pub gs : Segment
  pub ss : Segment
  pub tr : Segment
  pub ldt : Segment
  pub gdt : Dtable
  pub idt : Dtable
  pub cr0 : ℕ
  pub cr2 : ℕ
  pub cr3 : ℕ
  pub cr4 : ℕ
  pub cr8 : ℕ
  pub efer : ℕ
  pub apic_base : ℕ
  pub interrupt_bitmap : List ℕ

-- `trait Vcpu` without `step_run`, over the state `C` of a vCPU and its errors `E`.
pub record Vcpu (C E : Type 0) : Type 0 where
  pub get_regs : C → Result E VcpuRegs
  pub set_regs : VcpuRegs → C → Result E C
  pub get_sregs : C → Result E VcpuSregs
  pub set_sregs : VcpuSregs → C → Result E C
