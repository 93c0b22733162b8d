-- ===== src/Boot/Load.antt =====
-- `load_kernel` of src/boot.rs: the kernel, the RAM disk, the zero page, the command line, the CPU.
pub mod BzImage
use ferrvm.Prelude.{
  ℕ, ◌+◌, ◌-◌, ◌*◌, Option, none, some, List, leb, if◌then◌else◌, Result, ok, err, ◌>>=◌, length,
  drop,
}
use ferrvm.Memory.{GuestMemory, write_at}
use ferrvm.Cpu.{Vcpu}
use ferrvm.Boot.Errors.{BootError, in_memory, no_payload}
use ferrvm.Boot.Image.{
  KernelImageFormat, bz_image, elf64, detect_kernel_image_format, get_setup_sects, Files, read_file,
  load_initrd, setup_cmdline, himem_start,
}
use ferrvm.Boot.Elf.{load_elf_kernel}
use ferrvm.Boot.Params.{setup_boot_params}
use ferrvm.Boot.Paging.{setup_long_mode, setup_protected_mode, setup_general_registers}

-- The payload of a bzImage, behind its setup sectors, at `himem_start`.
unfoldable pub load_payload :
    {E : Type 0} → GuestMemory → List ℕ → ℕ → Result (BootError E) (ℕ × GuestMemory)
load_payload mem kernel setup_sects =
    if leb (length kernel) ((setup_sects + 1) * 512) then err no_payload else (do
      mem' ← in_memory (write_at mem himem_start (drop ((setup_sects + 1) * 512) kernel))
      ok (himem_start, mem'))

-- The kernel in memory, and its entry point.
unfoldable pub load_image :
    {E : Type 0} → KernelImageFormat → GuestMemory → List ℕ → Result (BootError E) (ℕ × GuestMemory)
load_image bz_image mem kernel = get_setup_sects kernel >>= load_payload mem kernel
load_image elf64 mem kernel = load_elf_kernel kernel himem_start mem

module _ {C E : Type 0} (vcpu : Vcpu C E) where
  -- The CPU's mode for the format.
  unfoldable pub setup_mode :
      KernelImageFormat → C → GuestMemory → Result (BootError E) (C × GuestMemory)
  setup_mode bz_image c mem = do c' ← setup_protected_mode vcpu c; ok (c', mem)
  setup_mode elf64 c mem = setup_long_mode vcpu c mem

  unfoldable pub load_kernel :
      {P : Type 0}
      → Files P
      → C
      → GuestMemory
      → P
      → List ℕ
      → Option P
      → Result (BootError E) (C × GuestMemory)
  load_kernel files c mem kernel_path cmdline initrd_path = do
    kernel ← read_file files kernel_path
    format ← detect_kernel_image_format kernel
    (entry, loaded) ← load_image format mem kernel
    ((initrd_addr, initrd_size), with_initrd) ← load_initrd files loaded initrd_path
    with_params ← setup_boot_params with_initrd format kernel cmdline initrd_addr initrd_size
    with_cmdline ← setup_cmdline with_params cmdline
    c' ← setup_general_registers vcpu entry c
    setup_mode format c' with_cmdline
