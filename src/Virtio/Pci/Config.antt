-- ===== src/Virtio/Pci/Config.antt =====
-- The PCI configuration space of a virtio function in src/virtio/pci.rs.
pub mod Bar
use ferrvm.Prelude.{
  ℕ, ◌+◌, ◌-◌, ◌%◌, ◌^◌, Bool, true, false, ◌||◌, ◌&&◌, List, [], ◌∷◌, ltb, leb, ◌==◌,
  if◌then◌else◌, bit_and, bit_or, u8, u16, has_bits,
}
use ferrvm.Pci.{ConfigSpace, config_space, set_u8, set_u16, set_u32, get_u8, get_u16, get_u32}
use ferrvm.Virtio.Pci.Layout.{
  virtio_pci_vendor, virtio_pci_device_base, pci_cap_id_vndr, pci_cap_id_msix,
  virtio_pci_cap_common_cfg, virtio_pci_cap_notify_cfg, virtio_pci_cap_isr_cfg,
  virtio_pci_cap_device_cfg, cap_common, cap_notify, cap_isr, cap_device, cap_msix,
  common_cfg_offset, common_cfg_len, notify_offset, notify_len, isr_offset, isr_len,
  device_cfg_offset, device_cfg_len, msix_table_offset, msix_pba_offset, msix_msgctrl_enable,
  msix_msgctrl_function_mask,
}

-- class and subclass
pub pci_class : ℕ → ℕ × ℕ
pci_class virtio_id = if virtio_id == 2 then (0x01, 0x00) else (0xff, 0x00)

pub write_cap : ConfigSpace → ℕ → ℕ → ℕ → ℕ → ℕ → ℕ → ConfigSpace
write_cap cs at next len cfg_type bar_offset bar_len =
    let cs = set_u8 cs at pci_cap_id_vndr in
    let cs = set_u8 cs (at + 1) next in
    let cs = set_u8 cs (at + 2) len in
    let cs = set_u8 cs (at + 3) cfg_type in
    let cs = set_u8 cs (at + 4) 0 in
    let cs = set_u8 cs (at + 5) 0 in
    let cs = set_u8 cs (at + 6) 0 in
    let cs = set_u8 cs (at + 7) 0 in
    let cs = set_u32 cs (at + 8) bar_offset in set_u32 cs (at + 12) bar_len

pub build_config : ℕ → ℕ → ℕ → ConfigSpace
unfolding pci_class write_cap
build_config virtio_id irq_line num_vectors =
    let (class, subclass) = pci_class virtio_id in
    let cs = set_u16 config_space 0x00 virtio_pci_vendor in
    let cs = set_u16 cs 0x02 (u16 (virtio_pci_device_base + u16 virtio_id)) in
    let cs = set_u16 cs 0x04 0x0000 in
    let cs = set_u16 cs 0x06 0x0010 in
    let cs = set_u8 cs 0x08 0x01 in
    let cs = set_u8 cs 0x09 0x00 in
    let cs = set_u8 cs 0x0a subclass in
    let cs = set_u8 cs 0x0b class in
    let cs = set_u8 cs 0x0e 0x00 in
    let cs = set_u32 cs 0x10 0x0000_0000 in
    let cs = set_u16 cs 0x2c virtio_pci_vendor in
    let cs = set_u16 cs 0x2e (u16 virtio_id) in
    let cs = set_u8 cs 0x34 cap_common in
    let cs = set_u8 cs 0x3c irq_line in
    let cs = set_u8 cs 0x3d 0x01 in
    let cs =
      write_cap cs cap_common cap_notify 0x10 virtio_pci_cap_common_cfg common_cfg_offset
        common_cfg_len in
    let cs =
      write_cap cs cap_notify cap_isr 0x14 virtio_pci_cap_notify_cfg notify_offset notify_len in
    let cs = set_u32 cs (cap_notify + 16) 0 in
    let cs = write_cap cs cap_isr cap_device 0x10 virtio_pci_cap_isr_cfg isr_offset isr_len in
    let cs =
      write_cap cs cap_device cap_msix 0x10 virtio_pci_cap_device_cfg device_cfg_offset
        device_cfg_len in
    let cs = set_u8 cs cap_msix pci_cap_id_msix in
    let cs = set_u8 cs (cap_msix + 1) 0x00 in
    let cs = set_u16 cs (cap_msix + 2) (num_vectors - 1) in
    let cs = set_u32 cs (cap_msix + 4) msix_table_offset in
    set_u32 cs (cap_msix + 8) msix_pba_offset

pub bar_base : ConfigSpace → ℕ
bar_base cs = bit_and (get_u32 cs 0x10) 0xffff_f000

pub mem_enabled : ConfigSpace → Bool
mem_enabled cs = has_bits (get_u16 cs 0x04) 0x0002

unfoldable pub msix_enabled : ConfigSpace → Bool
msix_enabled cs = has_bits (get_u16 cs (cap_msix + 2)) msix_msgctrl_enable

unfoldable pub msix_function_masked : ConfigSpace → Bool
msix_function_masked cs = has_bits (get_u16 cs (cap_msix + 2)) msix_msgctrl_function_mask

-- `0x04 | 0x05 | 0x10..=0x13 | 0x3c`
unfoldable pub writable : ℕ → Bool
writable off = off == 0x04 || off == 0x05 || (leb 0x10 off && leb off 0x13) || off == 0x3c

-- One byte of `config_write`.
pub write_config_byte : ConfigSpace → ℕ → ℕ → ConfigSpace
write_config_byte cs off byte =
    if writable off
    then set_u8 cs off byte
    else if off == cap_msix + 3
    then set_u8 cs off (bit_or (bit_and byte 0xc0) (bit_and (get_u8 cs off) 0x3f))
    else cs

pub write_config_bytes : ConfigSpace → ℕ → List ℕ → ConfigSpace
write_config_bytes cs off [] = cs
write_config_bytes cs off (byte ∷ rest) =
    write_config_bytes (write_config_byte cs off byte) (off + 1) rest

-- `config_write` up to the delivery of pending interrupts: BAR0 keeps its type and size bits.
pub write_config_space : ConfigSpace → ℕ → List ℕ → ConfigSpace
write_config_space cs offset bytes =
    let cs' = write_config_bytes cs offset bytes in
    set_u32 cs' 0x10 (bit_and (get_u32 cs' 0x10) 0xffff_f000)
