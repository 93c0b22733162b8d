-- ===== src/Virtio/Pci/Mmio.antt =====
-- The BAR0 accesses of src/virtio/pci.rs, its configuration accesses, and the MMIO window.
use ferrvm.Prelude.{
  ℕ, suc, ◌+◌, ◌-◌, ◌*◌, ◌/◌, ◌%◌, Bool, false, not, ◌&&◌, Option, none, some, List, [], ◌∷◌, ltb,
  leb, ◌==◌, if◌then◌else◌, length, replicate, get_elem?, bit_or, u32, u64, ◌<<<◌, ◌>>>◌,
}
use ferrvm.Memory.{GuestMemory}
use ferrvm.Pci
use ferrvm.Virtio.Pci.Layout.{
  bar0_size, common_cfg_offset, common_cfg_len, isr_offset, isr_len, notify_offset, notify_len,
  device_cfg_offset, device_cfg_len, msix_table_offset, msix_pba_offset, msix_entry_size,
}
use ferrvm.Virtio.Pci.Config.{write_config_space, mem_enabled, bar_base}
use ferrvm.Virtio.Pci.State.{
  VirtioDevice, VirtioPciDevice, MsixEntry, raise_queue_interrupt, deliver_pending, set_line,
}
use ferrvm.Virtio.Pci.Common.{
  put_le, get_le, with_low, with_high, modify, common_cfg_read, common_cfg_write,
}

-- `(start..start + len).contains(&o)`
abbrev pub in_region : ℕ → ℕ → ℕ → Bool
in_region start len o = leb start o && ltb o (start + len)

pub entry_field : MsixEntry → ℕ → ℕ
entry_field e field =
    if field == 0
    then u32 e.address
    else if field == 4
    then u32 (e.address >>> 32)
    else if field == 8
    then e.word
    else if field == 12
    then e.control
    else 0

unfoldable pub set_entry_field : ℕ → ℕ → MsixEntry → MsixEntry
set_entry_field field value e =
    if field == 0
    then record e { address = with_low e.address value }
    else if field == 4
    then record e { address = with_high e.address value }
    else if field == 8
    then record e { word = value }
    else if field == 12
    then record e { control = value }
    else e

abbrev pub entry_value : Option MsixEntry → ℕ → ℕ
entry_value none field = 0
entry_value (some e) field = entry_field e field

-- The bits of the pending array from vector `base` on, as a 64-bit word; `idx` is the next vector.
pub pba_bits : ℕ → ℕ → ℕ → List Bool → ℕ
pba_bits base idx qword [] = qword
pba_bits base idx qword (pending ∷ rest) =
    pba_bits base (idx + 1)
      (if pending && leb base idx && ltb idx (base + 64)
        then bit_or qword (1 <<< (idx - base))
        else qword)
      rest

module _ {D : Type 0} where
  pub msix_table_read : VirtioPciDevice D → ℕ → List ℕ → List ℕ
  msix_table_read v rel buffer =
      put_le buffer
        (entry_value (get_elem? v.msix_table (rel / msix_entry_size)) (rel % msix_entry_size))

  unfoldable pub msix_table_write : VirtioPciDevice D → ℕ → List ℕ → VirtioPciDevice D
  msix_table_write v rel bytes =
      let field = rel % msix_entry_size in
      let v' : VirtioPciDevice D = record v {
        msix_table =
            modify v.msix_table (rel / msix_entry_size)
              (set_entry_field field (u32 (get_le bytes)));
      } in
      if field == 12 then deliver_pending v' else v'

  pub msix_pba_read : VirtioPciDevice D → ℕ → List ℕ → List ℕ
  msix_pba_read v rel buffer = put_le buffer (pba_bits (rel / 8 * 64) 0 0 v.msix_pending)

  abbrev pub msix_table_len : VirtioPciDevice D → ℕ
  msix_table_len v = length v.msix_table * msix_entry_size

-- The first byte gets `value`, the others 0.
abbrev pub first_byte : ℕ → List ℕ → List ℕ
first_byte value [] = []
first_byte value (b ∷ rest) = value ∷ replicate (length rest) 0

module _ {D : Type 0} (backend : VirtioDevice D) where
  unfoldable pub mmio_read : VirtioPciDevice D → ℕ → List ℕ → List ℕ × VirtioPciDevice D
  mmio_read v o buffer =
      if ltb o (common_cfg_offset + common_cfg_len)
      then (common_cfg_read backend v o buffer, v)
      else if in_region isr_offset isr_len o
      then (first_byte v.isr_status buffer, set_line false (record v { isr_status = 0 }))
      else if in_region notify_offset notify_len o
      then (replicate (length buffer) 0, v)
      else if in_region device_cfg_offset device_cfg_len o
      then (backend.read_config v.device (o - device_cfg_offset) buffer, v)
      else if in_region msix_table_offset (msix_table_len v) o
      then (msix_table_read v (o - msix_table_offset) buffer, v)
      else if in_region msix_pba_offset 8 o
      then (msix_pba_read v (o - msix_pba_offset) buffer, v)
      else (replicate (length buffer) 0, v)

  -- A notification of queue `queue_idx`: the backend works on the queue, and may ask for an
  -- interrupt.
  unfoldable pub notify : ℕ → VirtioPciDevice D → GuestMemory → VirtioPciDevice D × GuestMemory
  notify queue_idx v mem = elim (get_elem? v.queues queue_idx) [
    | none ↦ (v, mem)
    | some q ↦
        let (wants, q', mem', device) = backend.on_notify queue_idx q mem v.device in
        let v' : VirtioPciDevice D = record v {
          queues = modify v.queues queue_idx (λ old. q');
          device = device;
        } in
        (if wants then raise_queue_interrupt queue_idx v' else v', mem')
  ]

  unfoldable pub mmio_write :
      VirtioPciDevice D → ℕ → List ℕ → GuestMemory → VirtioPciDevice D × GuestMemory
  mmio_write v o bytes mem =
      if ltb o (common_cfg_offset + common_cfg_len)
      then (common_cfg_write v o bytes, mem)
      else if in_region notify_offset notify_len o
      then notify (get_le bytes) v mem
      else if in_region device_cfg_offset device_cfg_len o
      then (record v { device = backend.write_config (o - device_cfg_offset) bytes v.device }, mem)
      else if in_region msix_table_offset (msix_table_len v) o
      then (msix_table_write v (o - msix_table_offset) bytes, mem)
      else (v, mem)

module _ {D : Type 0} where
  -- `PciDevice::config_read` and `config_write`
  pub config_read : VirtioPciDevice D → ℕ → List ℕ → List ℕ
  config_read v offset buffer = Pci.config_read v.config offset buffer

  unfoldable pub config_write : VirtioPciDevice D → ℕ → List ℕ → VirtioPciDevice D
  config_write v offset bytes =
      deliver_pending (record v { config = write_config_space v.config offset bytes })

  -- Whether BAR0 of a device answers at `addr`.
  abbrev pub covers : VirtioPciDevice D → ℕ → Bool
  covers v addr =
      let base = bar_base v.config in
      mem_enabled v.config && not (base == 0) && leb base addr && ltb addr (base + bar0_size)

  -- `VirtioPciMmio::route`: the first device that answers, by its place, and the BAR offset.
  pub route : List (VirtioPciDevice D) → ℕ → Option (ℕ × VirtioPciDevice D × ℕ)
  route [] addr = none
  route (v ∷ devices) addr =
      let rest = route devices addr in
      if covers v addr
      then some (0, v, addr - bar_base v.config)
      else elim rest [ none ↦ none | some (i, w, rel) ↦ some (suc i, w, rel) ]

module _ {D : Type 0} (backend : VirtioDevice D) (window_base : ℕ) where
  -- `BusDevice` for the window: the devices are shared with the PCI root bus.
  pub window_read : List (VirtioPciDevice D) → ℕ → List ℕ → List ℕ × List (VirtioPciDevice D)
  window_read devices offset buffer = elim (route devices (u64 (window_base + offset))) [
    | none ↦ (replicate (length buffer) 0xff, devices)
    | some (i, v, rel) ↦
        let (bytes, v') = mmio_read backend v rel buffer in (bytes, modify devices i (λ old. v'))
  ]

  pub window_write :
      List (VirtioPciDevice D) → ℕ → List ℕ → GuestMemory → List (VirtioPciDevice D) × GuestMemory
  window_write devices offset bytes mem = elim (route devices (u64 (window_base + offset))) [
    | none ↦ (devices, mem)
    | some (i, v, rel) ↦
        let (v', mem') = mmio_write backend v rel bytes mem in (modify devices i (λ old. v'), mem')
  ]
