-- ===== src/Virtio/Pci/Layout.antt =====
-- The constants of src/virtio/pci.rs: PCI identifiers, capabilities, MSI-X bits, the BAR0 layout.
use ferrvm.Prelude.{ℕ}

abbrev pub virtio_pci_vendor : ℕ
virtio_pci_vendor = 0x1af4

abbrev pub virtio_pci_device_base : ℕ
virtio_pci_device_base = 0x1040

abbrev pub pci_cap_id_vndr : ℕ
pci_cap_id_vndr = 0x09

abbrev pub pci_cap_id_msix : ℕ
pci_cap_id_msix = 0x11

abbrev pub virtio_pci_cap_common_cfg : ℕ
virtio_pci_cap_common_cfg = 1

abbrev pub virtio_pci_cap_notify_cfg : ℕ
virtio_pci_cap_notify_cfg = 2

abbrev pub virtio_pci_cap_isr_cfg : ℕ
virtio_pci_cap_isr_cfg = 3

abbrev pub virtio_pci_cap_device_cfg : ℕ
virtio_pci_cap_device_cfg = 4

abbrev pub cap_common : ℕ
cap_common = 0x40

abbrev pub cap_notify : ℕ
cap_notify = 0x50

abbrev pub cap_isr : ℕ
cap_isr = 0x64

abbrev pub cap_device : ℕ
cap_device = 0x74

abbrev pub cap_msix : ℕ
cap_msix = 0x84

abbrev pub virtio_msi_no_vector : ℕ
virtio_msi_no_vector = 0xffff

abbrev pub isr_queue : ℕ
isr_queue = 0x1

abbrev pub queue_size_max : ℕ
queue_size_max = 256

abbrev pub msix_msgctrl_enable : ℕ
msix_msgctrl_enable = 0x8000

abbrev pub msix_msgctrl_function_mask : ℕ
msix_msgctrl_function_mask = 0x4000

abbrev pub msix_vector_ctrl_mask : ℕ
msix_vector_ctrl_mask = 0x1

abbrev pub bar0_size : ℕ
bar0_size = 0x1000

abbrev pub common_cfg_offset : ℕ
common_cfg_offset = 0x0000

abbrev pub common_cfg_len : ℕ
common_cfg_len = 0x0040

abbrev pub isr_offset : ℕ
isr_offset = 0x0040

abbrev pub isr_len : ℕ
isr_len = 0x0010

abbrev pub notify_offset : ℕ
notify_offset = 0x0050

abbrev pub notify_len : ℕ
notify_len = 0x0010

abbrev pub device_cfg_offset : ℕ
device_cfg_offset = 0x0100

abbrev pub device_cfg_len : ℕ
device_cfg_len = 0x0100

abbrev pub msix_table_offset : ℕ
msix_table_offset = 0x0800

abbrev pub msix_pba_offset : ℕ
msix_pba_offset = 0x0c00

abbrev pub msix_entry_size : ℕ
msix_entry_size = 16
