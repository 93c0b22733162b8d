-- ===== src/Boot/Params.antt =====
-- The zero page that src/boot.rs fills for the kernel, with the structures of src/bootparams.rs.
-- The source sets three fields of `BootParams`, and every other byte stays zero; `zeros` stands for
-- those. `last_addr - HIMEM_START` and the `u32` casts wrap.
pub mod Header
pub mod ZeroPage
use ferrvm.Prelude.{
  ℕ, ◌+◌, ◌-◌, ◌*◌, ◌^◌, ◌%◌, Bool, true, false, List, [], ◌∷◌, ◌++◌, leb, if◌then◌else◌, Result,
  ok, err, ◌>>=◌, length, take, drop, replicate, u32, u64, bit_or, to_le,
}
use ferrvm.Memory.{GuestMemory, write_at}
use ferrvm.Boot.Errors.{BootError, in_memory, header_too_small}
use ferrvm.Boot.Image.{KernelImageFormat, bz_image, elf64, cmdline_addr, himem_start}
use ferrvm.Boot.Paging.{zero_page_start}
use Header.{SetupHeader, header_bytes, header_of, zero_header}

pub record E820Entry : Type 0 where
  pub addr : ℕ
  pub size : ℕ
  pub entry_type : ℕ

abbrev pub e820_ram : ℕ
e820_ram = 1

abbrev pub e820_reserved : ℕ
e820_reserved = 2

abbrev pub e820_max_entries_zeropage : ℕ
e820_max_entries_zeropage = 128

abbrev pub ebda_start : ℕ
ebda_start = 0x9fc00

abbrev pub normal_vga_mode : ℕ
normal_vga_mode = 0xffff

-- `LINUX_BOOT_HDR_LOAD_HIGH | .._KEEP_SEGMENTS | .._CAN_USE_HEAP`
abbrev pub linux_boot_hdr_flags : ℕ
linux_boot_hdr_flags = bit_or (bit_or (2 ^ 0) (2 ^ 6)) (2 ^ 7)

abbrev pub linux_heap_end_ptr : ℕ
linux_heap_end_ptr = 0xfe00

abbrev pub setup_header_offset : ℕ
setup_header_offset = 0x1f1

pub record BootParams : Type 0 where
  pub e820_entries : ℕ
  pub hdr : SetupHeader
  pub e820_table : List E820Entry

-- `BootParams::new`
abbrev pub new : BootParams
new = record { e820_entries = 0; hdr = zero_header; e820_table = [] }

abbrev pub zeros : ℕ → List ℕ
zeros n = replicate n 0

abbrev pub entry_bytes : E820Entry → List ℕ
entry_bytes entry = to_le 8 (entry.addr) ++ to_le 8 (entry.size) ++ to_le 4 (entry.entry_type)

unfoldable pub table_bytes : List E820Entry → List ℕ
table_bytes [] = []
table_bytes (entry ∷ entries) = entry_bytes entry ++ table_bytes entries

-- The 4096 bytes of the structure: each field at its offset, zeros between them.
unfoldable pub params_bytes : BootParams → List ℕ
params_bytes params =
    zeros 0x1e8
    ++ (params.e820_entries ∷ [])
    ++ zeros 8
    ++ header_bytes (params.hdr)
    ++ zeros (0x2d0 - 0x1f1 - 123)
    ++ table_bytes (params.e820_table)
    ++ zeros (0xcd0 - 0x2d0 - 20 * length params.e820_table)
    ++ zeros (4096 - 0xcd0)

-- The map of a memory that ends at `last_addr`: low memory, the reserved part, high memory.
unfoldable pub e820_map : ℕ → List E820Entry
e820_map last_addr =
    record { addr = 0; size = ebda_start; entry_type = e820_ram }
    ∷ record { addr = ebda_start; size = himem_start - ebda_start; entry_type = e820_reserved }
    ∷ record {
      addr = himem_start;
      size = u64 (last_addr + 2 ^ 64 - himem_start);
      entry_type = e820_ram;
    }
    ∷ []

unfoldable pub read_setup_header : {E : Type 0} → List ℕ → Result (BootError E) SetupHeader
read_setup_header kernel =
    if leb (setup_header_offset + 123) (length kernel)
    then ok (header_of (take 123 (drop setup_header_offset kernel)))
    else err header_too_small

-- The header that the loader makes up for a kernel without one.
pub plain_header : List ℕ → SetupHeader → SetupHeader
plain_header cmdline hdr = record hdr {
  type_of_loader = 0xff;
  boot_flag = 0xaa55;
  header = 0x5372_6448;
  cmd_line_ptr = u32 cmdline_addr;
  cmdline_size = u32 (1 + u32 (length cmdline));
  kernel_alignment = 0x100_0000;
}

-- What the loader sets in the header of a bzImage.
pub image_header : List ℕ → SetupHeader → SetupHeader
image_header cmdline hdr = record hdr {
  vid_mode = normal_vga_mode;
  type_of_loader = 0xff;
  loadflags = bit_or hdr.loadflags linux_boot_hdr_flags;
  heap_end_ptr = linux_heap_end_ptr;
  cmd_line_ptr = u32 cmdline_addr;
  cmdline_size = u32 (length cmdline + 1);
  code32_start = u32 himem_start;
}

unfoldable pub choose_header :
    {E : Type 0}
    → KernelImageFormat
    → List ℕ
    → List ℕ
    → SetupHeader
    → Result (BootError E) SetupHeader
choose_header bz_image kernel cmdline hdr = do
  found ← read_setup_header kernel
  ok (image_header cmdline found)
choose_header elf64 kernel cmdline hdr = ok hdr

unfoldable pub setup_boot_params :
    {E : Type 0}
    → GuestMemory
    → KernelImageFormat
    → List ℕ
    → List ℕ
    → ℕ
    → ℕ
    → Result (BootError E) GuestMemory
setup_boot_params mem format kernel cmdline initrd_addr initrd_size = do
  hdr ← choose_header format kernel cmdline (plain_header cmdline (new.hdr))
  in_memory (
      write_at mem zero_page_start (
        params_bytes (record new {
          e820_entries = length (e820_map mem.size);
          e820_table = e820_map mem.size;
          hdr = record hdr { ramdisk_image = initrd_addr; ramdisk_size = initrd_size };
        })))
