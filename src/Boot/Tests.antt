-- ===== src/Boot/Tests.antt =====
-- The theorems on the kernel loader at a small memory, a CPU of registers and a kernel of three bytes.
use ferrvm.Prelude.{arith, ℕ, ◌+◌, ◌^◌, ◌<◌, ◌≡◌, refl, [], ◌∷◌, none, some, false, ok}
use ferrvm.Prelude.Words.{to_le, from_le}
use ferrvm.Memory.{GuestMemory, read_at, write_at, checked_hva}
use ferrvm.Cpu.{VcpuRegs, VcpuSregs}
use ferrvm.Boot.Image.{
  Files, bz_image, detect_kernel_image_format, get_setup_sects, is_elf64, is_bzimage, same_bytes,
  load_initrd, setup_cmdline,
}
use ferrvm.Boot.Params.{
  setup_boot_params, choose_header, read_setup_header, table_bytes, e820_map, params_bytes,
}
use ferrvm.Boot.Params.Header.{header_bytes}
use ferrvm.Boot.Paging.{
  general_registers, protected_mode_sregs, long_mode_sregs, segment_gdt_entry, code_seg, data_seg,
  setup_long_mode, setup_protected_mode, setup_general_registers, write_words, write_page_tables,
  write_pd, gdt_table,
}
use ferrvm.Boot.Paging.Walk.{walk}
use ferrvm.Boot.Paging.LongMode.{setup_long_mode_lem}
use ferrvm.Boot.Load.{load_kernel, load_image, load_payload, setup_mode}
use ferrvm.Boot.Load.BzImage.{IsEntry, IsFlatProtected, load_kernel_bz_image}
use ferrvm.Boot.Samples.{image, small, no_regs, no_sregs, cpu, outcome_memory, memory_of}

abbrev paged : GuestMemory
paged = outcome_memory (setup_long_mode cpu (no_regs, no_sregs) small)

setup_long_mode_lem_example :
    (sregs : VcpuSregs) × (cpu.get_sregs (no_regs, no_sregs) ≡ ok sregs)
    × (cpu.set_sregs (long_mode_sregs sregs) (no_regs, no_sregs)
        ≡ ok (no_regs, long_mode_sregs no_sregs))
    × ((va : ℕ) → va < 2 ^ 30 → walk paged ((long_mode_sregs sregs).cr3) va ≡ some va)
    × (read_at paged ((long_mode_sregs sregs).gdt.base) 8 ≡ ok (to_le 8 0))
    × (read_at paged ((long_mode_sregs sregs).gdt.base + 8) 8
        ≡ ok (to_le 8 (segment_gdt_entry code_seg)))
    × (read_at paged ((long_mode_sregs sregs).gdt.base + 16) 8
        ≡ ok (to_le 8 (segment_gdt_entry data_seg)))
unfolding setup_long_mode write_words write_page_tables write_pd write_at checked_hva gdt_table
    to_le
setup_long_mode_lem_example =
    setup_long_mode_lem cpu (no_regs, no_sregs) (no_regs, long_mode_sregs no_sregs) small paged refl

abbrev zero_page : GuestMemory
zero_page = memory_of (setup_boot_params small bz_image image (0x61 ∷ []) 0 0)

abbrev disk : Files ℕ
disk = record { exists = λ path. false; contents = λ path. some image }

abbrev booted : GuestMemory
booted = outcome_memory (load_kernel cpu disk (no_regs, no_sregs) small 0 (0x61 ∷ []) none)

load_kernel_bz_image_example :
    (read_at booted 0x10_0000 3 ≡ ok (1 ∷ 2 ∷ 3 ∷ []))
    × (read_at booted 0x2_0000 2 ≡ ok (0x61 ∷ 0 ∷ []))
    × (read_at booted (0x7000 + 0x228) 4 ≡ ok (to_le 4 0x2_0000))
    × ((regs : VcpuRegs) × (c₁ : VcpuRegs × VcpuSregs) × (sregs : VcpuSregs) × (cpu.set_regs regs
            (no_regs, no_sregs)
          ≡ ok c₁)
        × (cpu.set_sregs sregs c₁
            ≡ ok (general_registers 0x10_0000 no_regs, protected_mode_sregs no_sregs))
        × IsEntry regs
        × IsFlatProtected sregs)
unfolding load_kernel load_image load_payload setup_mode detect_kernel_image_format is_elf64
    is_bzimage same_bytes get_setup_sects load_initrd setup_cmdline setup_general_registers
    setup_protected_mode setup_boot_params choose_header read_setup_header params_bytes header_bytes
    table_bytes e820_map write_at checked_hva to_le from_le
load_kernel_bz_image_example =
    load_kernel_bz_image cpu disk (no_regs, no_sregs)
      (general_registers 0x10_0000 no_regs, protected_mode_sregs no_sregs) small booted 0
      (0x61 ∷ []) none image 1 refl refl refl refl (omega arith)
