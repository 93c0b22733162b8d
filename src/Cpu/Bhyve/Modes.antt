-- ===== src/Cpu/Bhyve/Modes.antt =====
-- The processor's modes, which `gla2gpa` of src/bhyve/core.rs tells apart by the special registers.
use ferrvm.Prelude.{bit_and, has_bits, ◌==◌, if◌then◌else◌}
use ferrvm.Cpu.{VcpuSregs}

pub data VmCpuMode : Type 0 where
  real protected compatibility sixty_four_bit : VmCpuMode

pub data VmPagingMode : Type 0 where
  flat thirty_two pae sixty_four : VmPagingMode

-- The processor's mode, by which `gla2gpa` asks for a translation.
unfoldable pub cpu_mode : VcpuSregs → VmCpuMode
cpu_mode sregs =
    if has_bits (sregs.efer) 0x400
    then (if sregs.cs.l == 0 then compatibility else sixty_four_bit)
    else if has_bits (sregs.cr0) 1
    then protected
    else real

unfoldable pub paging_mode : VcpuSregs → VmPagingMode
paging_mode sregs =
    if bit_and sregs.cr0 0x8000_0000 == 0
    then flat
    else if bit_and sregs.cr4 0x20 == 0
    then thirty_two
    else if has_bits (sregs.efer) 0x100
    then sixty_four
    else pae
