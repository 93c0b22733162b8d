-- ===== src/Boot/Paging.antt =====
-- The boot-time segments and page tables of src/boot.rs.
pub mod Gdt
pub mod Walk
pub mod LongMode
pub mod Registers
pub mod Modes
use ferrvm.Prelude.{
  ℕ, zero, suc, ◌+◌, ◌-◌, ◌*◌, ◌/◌, ◌%◌, ◌^◌, List, [], ◌∷◌, Result, ok, err, ◌>>=◌, bit_and,
  bit_or, u16, u64, ◌<<<◌, ◌>>>◌, to_le,
}
use ferrvm.Memory.{GuestMemory, MemoryError, write_at}
use ferrvm.Boot.Errors.{BootError, in_memory, in_cpu}
use ferrvm.Cpu.{Segment, VcpuSregs, VcpuRegs, Vcpu}

abbrev pub efer_lme : ℕ
efer_lme = 2 ^ 8

abbrev pub efer_lma : ℕ
efer_lma = 2 ^ 10

abbrev pub efer_nxe : ℕ
efer_nxe = 2 ^ 11

abbrev pub boot_stack_pointer : ℕ
boot_stack_pointer = 0x8ff0

abbrev pub zero_page_start : ℕ
zero_page_start = 0x7000

abbrev pub boot_gdt_offset : ℕ
boot_gdt_offset = 0x500

abbrev pub x86_cr0_pe : ℕ
x86_cr0_pe = 0x1

abbrev pub x86_cr4_pae : ℕ
x86_cr4_pae = 0x20

abbrev pub x86_cr0_pg : ℕ
x86_cr0_pg = 0x8000_0000

unfoldable pub generate_segment : ℕ → ℕ → Segment
generate_segment selector_index kind = record {
  base = 0;
  limit = 0xf_ffff;
  selector = u16 (selector_index <<< 3);
  kind = kind;
  present = 1;
  dpl = 0;
  db = 0;
  s = 1;
  l = 1;
  g = 1;
  avl = 0;
  unusable = 0;
  padding = 0;
}

pub segment_flags : Segment → ℕ
segment_flags seg =
    bit_or
      (bit_or (bit_or (bit_and seg.g 1 <<< 3) (bit_and seg.db 1 <<< 2)) (bit_and seg.l 1 <<< 1))
      (bit_and seg.avl 1)

pub segment_access : Segment → ℕ
segment_access seg =
    bit_or
      (bit_or (bit_or (bit_and seg.present 1 <<< 7) (bit_and seg.dpl 3 <<< 5))
        (bit_and seg.s 1 <<< 4))
      (bit_and seg.kind 15)

pub segment_gdt_entry : Segment → ℕ
segment_gdt_entry seg =
    let flags = segment_flags seg in
    let access = segment_access seg in
    bit_or
      (bit_or
        (bit_or
          (bit_or
            (bit_or (u64 (bit_and seg.base 0xff00_0000 <<< 32))
              (bit_and seg.base 0x00ff_ffff <<< 16))
            (bit_and seg.limit 0xffff))
          (bit_and seg.limit 0xf_0000 <<< 32))
        (flags <<< 52))
      (access <<< 40)

abbrev pub code_seg : Segment
code_seg = generate_segment 1 0b1011

abbrev pub data_seg : Segment
data_seg = generate_segment 2 0b0011

-- `gdt_table`, the null descriptor first.
unfoldable pub gdt_table : List ℕ
gdt_table = 0 ∷ segment_gdt_entry code_seg ∷ segment_gdt_entry data_seg ∷ []

-- The loop that writes the 64-bit entries from `offset` on.
unfoldable pub write_words : ℕ → List ℕ → GuestMemory → Result MemoryError GuestMemory
write_words offset [] mem = ok mem
write_words offset (entry ∷ entries) mem = do
  mem' ← write_at mem offset (to_le 8 entry)
  write_words (offset + 8) entries mem'

abbrev pub boot_pml4_addr : ℕ
boot_pml4_addr = 0xa000

abbrev pub boot_pdpte_addr : ℕ
boot_pdpte_addr = 0xb000

abbrev pub boot_pde_addr : ℕ
boot_pde_addr = 0xc000

-- `(i << 21) | 0b1000_0011`
pub pd_entry : ℕ → ℕ
pd_entry i = bit_or (u64 (i <<< 21)) 0b1000_0011

-- The loop over the page directory, `left` entries from `i` on.
unfoldable pub write_pd : ℕ → ℕ → GuestMemory → Result MemoryError GuestMemory
write_pd zero i mem = ok mem
write_pd (suc left) i mem = do
  mem' ← write_at mem (boot_pde_addr + i * 8) (to_le 8 (pd_entry i))
  write_pd left (i + 1) mem'

-- The three levels of tables.
unfoldable pub write_page_tables : GuestMemory → Result MemoryError GuestMemory
write_page_tables mem = do
  mem' ← write_at mem boot_pml4_addr (to_le 8 (bit_or boot_pdpte_addr 0b11))
  mem'' ← write_at mem' boot_pdpte_addr (to_le 8 (bit_or boot_pde_addr 0b11))
  write_pd 512 0 mem''

-- The control registers and segments of long mode.
pub long_mode_sregs : VcpuSregs → VcpuSregs
long_mode_sregs sregs = record sregs {
  cs = code_seg;
  ds = data_seg;
  es = data_seg;
  fs = data_seg;
  gs = data_seg;
  ss = data_seg;
  gdt = record (sregs.gdt) { base = boot_gdt_offset; limit = 23 };
  cr0 = bit_or (bit_or sregs.cr0 x86_cr0_pe) x86_cr0_pg;
  cr3 = boot_pml4_addr;
  cr4 = bit_or sregs.cr4 x86_cr4_pae;
  efer = bit_or sregs.efer (bit_or efer_lma efer_lme);
}

-- `value & !mask` on 64 bits
abbrev pub clear_bits : ℕ → ℕ → ℕ
clear_bits value mask = bit_and value (2 ^ 64 - 1 - mask)

unfoldable pub make_flat32_segment : ℕ → Segment → Segment
make_flat32_segment kind seg = record seg {
  base = 0;
  limit = 0xffff_ffff;
  g = 1;
  db = 1;
  l = 0;
  kind = kind;
}

unfoldable pub protected_mode_sregs : VcpuSregs → VcpuSregs
protected_mode_sregs sregs = record sregs {
  cs = make_flat32_segment 0b1011 (sregs.cs);
  ds = make_flat32_segment 0b0011 (sregs.ds);
  es = make_flat32_segment 0b0011 (sregs.es);
  fs = make_flat32_segment 0b0011 (sregs.fs);
  gs = make_flat32_segment 0b0011 (sregs.gs);
  ss = make_flat32_segment 0b0011 (sregs.ss);
  cr0 = clear_bits (bit_or sregs.cr0 x86_cr0_pe) x86_cr0_pg;
  cr4 = clear_bits sregs.cr4 x86_cr4_pae;
  efer = clear_bits sregs.efer (bit_or (bit_or efer_lme efer_lma) efer_nxe);
}

unfoldable pub general_registers : ℕ → VcpuRegs → VcpuRegs
general_registers entry_point regs = record regs {
  rip = entry_point;
  rsp = boot_stack_pointer;
  rbp = boot_stack_pointer;
  rsi = zero_page_start;
  rflags = 2;
}

module _ {C E : Type 0} (vcpu : Vcpu C E) where
  unfoldable pub setup_long_mode : C → GuestMemory → Result (BootError E) (C × GuestMemory)
  setup_long_mode c mem = do
    sregs ← in_cpu (vcpu.get_sregs c)
    mem' ← in_memory (write_words boot_gdt_offset gdt_table mem)
    mem'' ← in_memory (write_page_tables mem')
    c' ← in_cpu (vcpu.set_sregs (long_mode_sregs sregs) c)
    ok (c', mem'')

  unfoldable pub setup_protected_mode : C → Result (BootError E) C
  setup_protected_mode c = do
    sregs ← in_cpu (vcpu.get_sregs c)
    in_cpu (vcpu.set_sregs (protected_mode_sregs sregs) c)

  unfoldable pub setup_general_registers : ℕ → C → Result (BootError E) C
  setup_general_registers entry_point c = do
    regs ← in_cpu (vcpu.get_regs c)
    in_cpu (vcpu.set_regs (general_registers entry_point regs) c)
