-- ===== src/Boot/Params/Header.antt =====
-- The setup header of the Linux boot protocol in src/bootparams.rs, and its bytes.
pub mod RoundTrip
use ferrvm.Prelude.{ℕ, List, [], ◌∷◌, ◌++◌, take, drop, to_le, from_le}

pub record SetupHeader : Type 0 where
  pub setup_sects : ℕ
  pub root_flags : ℕ
  pub syssize : ℕ
  pub ram_size : ℕ
  pub vid_mode : ℕ
  pub root_dev : ℕ
  pub boot_flag : ℕ
  pub jump : ℕ
  pub header : ℕ
  pub version : ℕ
  pub realmode_swtch : ℕ
  pub start_sys_seg : ℕ
  pub kernel_version : ℕ
  pub type_of_loader : ℕ
  pub loadflags : ℕ
  pub setup_move_size : ℕ
  pub code32_start : ℕ
  pub ramdisk_image : ℕ
  pub ramdisk_size : ℕ
  pub bootsect_kludge : ℕ
  pub heap_end_ptr : ℕ
  pub ext_loader_ver : ℕ
  pub ext_loader_type : ℕ
  pub cmd_line_ptr : ℕ
  pub initrd_addr_max : ℕ
  pub kernel_alignment : ℕ
  pub relocatable_kernel : ℕ
  pub min_alignment : ℕ
  pub xloadflags : ℕ
  pub cmdline_size : ℕ
  pub hardware_subarch : ℕ
  pub hardware_subarch_data : ℕ
  pub payload_offset : ℕ
  pub payload_length : ℕ
  pub setup_data : ℕ
  pub pref_address : ℕ
  pub init_size : ℕ
  pub handover_offset : ℕ
  pub kernel_info_offset : ℕ

-- The bytes of the packed structure.
unfoldable pub header_bytes : SetupHeader → List ℕ
header_bytes hdr =
    to_le 1 (hdr.setup_sects)
    ++ to_le 2 (hdr.root_flags)
    ++ to_le 4 (hdr.syssize)
    ++ to_le 2 (hdr.ram_size)
    ++ to_le 2 (hdr.vid_mode)
    ++ to_le 2 (hdr.root_dev)
    ++ to_le 2 (hdr.boot_flag)
    ++ to_le 2 (hdr.jump)
    ++ to_le 4 (hdr.header)
    ++ to_le 2 (hdr.version)
    ++ to_le 4 (hdr.realmode_swtch)
    ++ to_le 2 (hdr.start_sys_seg)
    ++ to_le 2 (hdr.kernel_version)
    ++ to_le 1 (hdr.type_of_loader)
    ++ to_le 1 (hdr.loadflags)
    ++ to_le 2 (hdr.setup_move_size)
    ++ to_le 4 (hdr.code32_start)
    ++ to_le 4 (hdr.ramdisk_image)
    ++ to_le 4 (hdr.ramdisk_size)
    ++ to_le 4 (hdr.bootsect_kludge)
    ++ to_le 2 (hdr.heap_end_ptr)
    ++ to_le 1 (hdr.ext_loader_ver)
    ++ to_le 1 (hdr.ext_loader_type)
    ++ to_le 4 (hdr.cmd_line_ptr)
    ++ to_le 4 (hdr.initrd_addr_max)
    ++ to_le 4 (hdr.kernel_alignment)
    ++ to_le 1 (hdr.relocatable_kernel)
    ++ to_le 1 (hdr.min_alignment)
    ++ to_le 2 (hdr.xloadflags)
    ++ to_le 4 (hdr.cmdline_size)
    ++ to_le 4 (hdr.hardware_subarch)
    ++ to_le 8 (hdr.hardware_subarch_data)
    ++ to_le 4 (hdr.payload_offset)
    ++ to_le 4 (hdr.payload_length)
    ++ to_le 8 (hdr.setup_data)
    ++ to_le 8 (hdr.pref_address)
    ++ to_le 4 (hdr.init_size)
    ++ to_le 4 (hdr.handover_offset)
    ++ to_le 4 (hdr.kernel_info_offset)

-- The structure that lies in these bytes.
unfoldable pub header_of : List ℕ → SetupHeader
header_of bytes = record {
  setup_sects = from_le (take 1 (drop 0 bytes));
  root_flags = from_le (take 2 (drop 1 bytes));
  syssize = from_le (take 4 (drop 3 bytes));
  ram_size = from_le (take 2 (drop 7 bytes));
  vid_mode = from_le (take 2 (drop 9 bytes));
  root_dev = from_le (take 2 (drop 11 bytes));
  boot_flag = from_le (take 2 (drop 13 bytes));
  jump = from_le (take 2 (drop 15 bytes));
  header = from_le (take 4 (drop 17 bytes));
  version = from_le (take 2 (drop 21 bytes));
  realmode_swtch = from_le (take 4 (drop 23 bytes));
  start_sys_seg = from_le (take 2 (drop 27 bytes));
  kernel_version = from_le (take 2 (drop 29 bytes));
  type_of_loader = from_le (take 1 (drop 31 bytes));
  loadflags = from_le (take 1 (drop 32 bytes));
  setup_move_size = from_le (take 2 (drop 33 bytes));
  code32_start = from_le (take 4 (drop 35 bytes));
  ramdisk_image = from_le (take 4 (drop 39 bytes));
  ramdisk_size = from_le (take 4 (drop 43 bytes));
  bootsect_kludge = from_le (take 4 (drop 47 bytes));
  heap_end_ptr = from_le (take 2 (drop 51 bytes));
  ext_loader_ver = from_le (take 1 (drop 53 bytes));
  ext_loader_type = from_le (take 1 (drop 54 bytes));
  cmd_line_ptr = from_le (take 4 (drop 55 bytes));
  initrd_addr_max = from_le (take 4 (drop 59 bytes));
  kernel_alignment = from_le (take 4 (drop 63 bytes));
  relocatable_kernel = from_le (take 1 (drop 67 bytes));
  min_alignment = from_le (take 1 (drop 68 bytes));
  xloadflags = from_le (take 2 (drop 69 bytes));
  cmdline_size = from_le (take 4 (drop 71 bytes));
  hardware_subarch = from_le (take 4 (drop 75 bytes));
  hardware_subarch_data = from_le (take 8 (drop 79 bytes));
  payload_offset = from_le (take 4 (drop 87 bytes));
  payload_length = from_le (take 4 (drop 91 bytes));
  setup_data = from_le (take 8 (drop 95 bytes));
  pref_address = from_le (take 8 (drop 103 bytes));
  init_size = from_le (take 4 (drop 111 bytes));
  handover_offset = from_le (take 4 (drop 115 bytes));
  kernel_info_offset = from_le (take 4 (drop 119 bytes));
}

-- All fields zero.
pub zero_header : SetupHeader
zero_header = record {
  setup_sects = 0;
  root_flags = 0;
  syssize = 0;
  ram_size = 0;
  vid_mode = 0;
  root_dev = 0;
  boot_flag = 0;
  jump = 0;
  header = 0;
  version = 0;
  realmode_swtch = 0;
  start_sys_seg = 0;
  kernel_version = 0;
  type_of_loader = 0;
  loadflags = 0;
  setup_move_size = 0;
  code32_start = 0;
  ramdisk_image = 0;
  ramdisk_size = 0;
  bootsect_kludge = 0;
  heap_end_ptr = 0;
  ext_loader_ver = 0;
  ext_loader_type = 0;
  cmd_line_ptr = 0;
  initrd_addr_max = 0;
  kernel_alignment = 0;
  relocatable_kernel = 0;
  min_alignment = 0;
  xloadflags = 0;
  cmdline_size = 0;
  hardware_subarch = 0;
  hardware_subarch_data = 0;
  payload_offset = 0;
  payload_length = 0;
  setup_data = 0;
  pref_address = 0;
  init_size = 0;
  handover_offset = 0;
  kernel_info_offset = 0;
}
