-- ===== src/Boot/Params/Header/RoundTrip.antt =====
-- A setup header and its bytes, one from the other.
use ferrvm.Prelude.{◌^◌, ◌<◌, ◌≡◌, from_le-to_le}
use ferrvm.Prelude.Words.{to_le}
use ferrvm.Boot.Params.Header.{SetupHeader, header_bytes, header_of}

-- Each field fits its width.
pub record Fits (hdr : SetupHeader) : Type 0 where
  setup_sects_fits : hdr.setup_sects < 256 ^ 1
  root_flags_fits : hdr.root_flags < 256 ^ 2
  syssize_fits : hdr.syssize < 256 ^ 4
  ram_size_fits : hdr.ram_size < 256 ^ 2
  vid_mode_fits : hdr.vid_mode < 256 ^ 2
  root_dev_fits : hdr.root_dev < 256 ^ 2
  boot_flag_fits : hdr.boot_flag < 256 ^ 2
  jump_fits : hdr.jump < 256 ^ 2
  header_fits : hdr.header < 256 ^ 4
  version_fits : hdr.version < 256 ^ 2
  realmode_swtch_fits : hdr.realmode_swtch < 256 ^ 4
  start_sys_seg_fits : hdr.start_sys_seg < 256 ^ 2
  kernel_version_fits : hdr.kernel_version < 256 ^ 2
  type_of_loader_fits : hdr.type_of_loader < 256 ^ 1
  loadflags_fits : hdr.loadflags < 256 ^ 1
  setup_move_size_fits : hdr.setup_move_size < 256 ^ 2
  code32_start_fits : hdr.code32_start < 256 ^ 4
  ramdisk_image_fits : hdr.ramdisk_image < 256 ^ 4
  ramdisk_size_fits : hdr.ramdisk_size < 256 ^ 4
  bootsect_kludge_fits : hdr.bootsect_kludge < 256 ^ 4
  heap_end_ptr_fits : hdr.heap_end_ptr < 256 ^ 2
  ext_loader_ver_fits : hdr.ext_loader_ver < 256 ^ 1
  ext_loader_type_fits : hdr.ext_loader_type < 256 ^ 1
  cmd_line_ptr_fits : hdr.cmd_line_ptr < 256 ^ 4
  initrd_addr_max_fits : hdr.initrd_addr_max < 256 ^ 4
  kernel_alignment_fits : hdr.kernel_alignment < 256 ^ 4
  relocatable_kernel_fits : hdr.relocatable_kernel < 256 ^ 1
  min_alignment_fits : hdr.min_alignment < 256 ^ 1
  xloadflags_fits : hdr.xloadflags < 256 ^ 2
  cmdline_size_fits : hdr.cmdline_size < 256 ^ 4
  hardware_subarch_fits : hdr.hardware_subarch < 256 ^ 4
  hardware_subarch_data_fits : hdr.hardware_subarch_data < 256 ^ 8
  payload_offset_fits : hdr.payload_offset < 256 ^ 4
  payload_length_fits : hdr.payload_length < 256 ^ 4
  setup_data_fits : hdr.setup_data < 256 ^ 8
  pref_address_fits : hdr.pref_address < 256 ^ 8
  init_size_fits : hdr.init_size < 256 ^ 4
  handover_offset_fits : hdr.handover_offset < 256 ^ 4
  kernel_info_offset_fits : hdr.kernel_info_offset < 256 ^ 4

-- A header whose fields fit their widths is the one that its bytes hold.
pub header_of-header_bytes : (hdr : SetupHeader) → Fits hdr → header_of (header_bytes hdr) ≡ hdr
unfolding header_of header_bytes to_le
header_of-header_bytes hdr fits = λ i. record {
  setup_sects = from_le-to_le 1 (hdr.setup_sects) (fits.setup_sects_fits) i;
  root_flags = from_le-to_le 2 (hdr.root_flags) (fits.root_flags_fits) i;
  syssize = from_le-to_le 4 (hdr.syssize) (fits.syssize_fits) i;
  ram_size = from_le-to_le 2 (hdr.ram_size) (fits.ram_size_fits) i;
  vid_mode = from_le-to_le 2 (hdr.vid_mode) (fits.vid_mode_fits) i;
  root_dev = from_le-to_le 2 (hdr.root_dev) (fits.root_dev_fits) i;
  boot_flag = from_le-to_le 2 (hdr.boot_flag) (fits.boot_flag_fits) i;
  jump = from_le-to_le 2 (hdr.jump) (fits.jump_fits) i;
  header = from_le-to_le 4 (hdr.header) (fits.header_fits) i;
  version = from_le-to_le 2 (hdr.version) (fits.version_fits) i;
  realmode_swtch = from_le-to_le 4 (hdr.realmode_swtch) (fits.realmode_swtch_fits) i;
  start_sys_seg = from_le-to_le 2 (hdr.start_sys_seg) (fits.start_sys_seg_fits) i;
  kernel_version = from_le-to_le 2 (hdr.kernel_version) (fits.kernel_version_fits) i;
  type_of_loader = from_le-to_le 1 (hdr.type_of_loader) (fits.type_of_loader_fits) i;
  loadflags = from_le-to_le 1 (hdr.loadflags) (fits.loadflags_fits) i;
  setup_move_size = from_le-to_le 2 (hdr.setup_move_size) (fits.setup_move_size_fits) i;
  code32_start = from_le-to_le 4 (hdr.code32_start) (fits.code32_start_fits) i;
  ramdisk_image = from_le-to_le 4 (hdr.ramdisk_image) (fits.ramdisk_image_fits) i;
  ramdisk_size = from_le-to_le 4 (hdr.ramdisk_size) (fits.ramdisk_size_fits) i;
  bootsect_kludge = from_le-to_le 4 (hdr.bootsect_kludge) (fits.bootsect_kludge_fits) i;
  heap_end_ptr = from_le-to_le 2 (hdr.heap_end_ptr) (fits.heap_end_ptr_fits) i;
  ext_loader_ver = from_le-to_le 1 (hdr.ext_loader_ver) (fits.ext_loader_ver_fits) i;
  ext_loader_type = from_le-to_le 1 (hdr.ext_loader_type) (fits.ext_loader_type_fits) i;
  cmd_line_ptr = from_le-to_le 4 (hdr.cmd_line_ptr) (fits.cmd_line_ptr_fits) i;
  initrd_addr_max = from_le-to_le 4 (hdr.initrd_addr_max) (fits.initrd_addr_max_fits) i;
  kernel_alignment = from_le-to_le 4 (hdr.kernel_alignment) (fits.kernel_alignment_fits) i;
  relocatable_kernel = from_le-to_le 1 (hdr.relocatable_kernel) (fits.relocatable_kernel_fits) i;
  min_alignment = from_le-to_le 1 (hdr.min_alignment) (fits.min_alignment_fits) i;
  xloadflags = from_le-to_le 2 (hdr.xloadflags) (fits.xloadflags_fits) i;
  cmdline_size = from_le-to_le 4 (hdr.cmdline_size) (fits.cmdline_size_fits) i;
  hardware_subarch = from_le-to_le 4 (hdr.hardware_subarch) (fits.hardware_subarch_fits) i;
  hardware_subarch_data =
      from_le-to_le 8 (hdr.hardware_subarch_data) (fits.hardware_subarch_data_fits) i;
  payload_offset = from_le-to_le 4 (hdr.payload_offset) (fits.payload_offset_fits) i;
  payload_length = from_le-to_le 4 (hdr.payload_length) (fits.payload_length_fits) i;
  setup_data = from_le-to_le 8 (hdr.setup_data) (fits.setup_data_fits) i;
  pref_address = from_le-to_le 8 (hdr.pref_address) (fits.pref_address_fits) i;
  init_size = from_le-to_le 4 (hdr.init_size) (fits.init_size_fits) i;
  handover_offset = from_le-to_le 4 (hdr.handover_offset) (fits.handover_offset_fits) i;
  kernel_info_offset = from_le-to_le 4 (hdr.kernel_info_offset) (fits.kernel_info_offset_fits) i;
}
