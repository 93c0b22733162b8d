-- ===== src/Boot/Paging/Registers.antt =====
-- The registers that src/boot.rs gives the CPU, when the CPU takes them.
use ferrvm.Prelude.{ℕ, ◌≡◌, ok, bind_ok}
use ferrvm.Cpu.{Vcpu, VcpuRegs, VcpuSregs}
use ferrvm.Boot.Errors.{in_cpu, in_cpu_ok}
use ferrvm.Boot.Paging.{
  general_registers, protected_mode_sregs, setup_general_registers, setup_protected_mode,
}

module _ {C E : Type 0} (vcpu : Vcpu C E) (c c' : C) where
  pub setup_general_registers_ok :
      (entry : ℕ)
      → setup_general_registers vcpu entry c ≡ ok c'
      → (regs : VcpuRegs) × (vcpu.get_regs c ≡ ok regs)
        × (vcpu.set_regs (general_registers entry regs) c ≡ ok c')
  unfolding setup_general_registers
  setup_general_registers_ok entry h =
      let got = bind_ok (in_cpu (vcpu.get_regs c)) _ c' h in
      (got.0, in_cpu_ok _ got.0 got.1, in_cpu_ok _ c' got.2)

  pub setup_protected_mode_ok :
      setup_protected_mode vcpu c ≡ ok c'
      → (sregs : VcpuSregs) × (vcpu.get_sregs c ≡ ok sregs)
        × (vcpu.set_sregs (protected_mode_sregs sregs) c ≡ ok c')
  unfolding setup_protected_mode
  setup_protected_mode_ok h =
      let got = bind_ok (in_cpu (vcpu.get_sregs c)) _ c' h in
      (got.0, in_cpu_ok _ got.0 got.1, in_cpu_ok _ c' got.2)
