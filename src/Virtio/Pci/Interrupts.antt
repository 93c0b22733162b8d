-- ===== src/Virtio/Pci/Interrupts.antt =====
-- The MSI-X interrupts of a virtio-pci device, src/virtio/pci.rs, and the operations that touch them.
use ferrvm.Prelude.{
  ℕ, Bool, true, false, not, ◌||◌, ◌==◌, ◌≡◌, refl, List, if◌then◌else◌, get_elem?, Bool-cases,
  if_keeps, inl, inr, Option-cases, u8, ltb, ◌+◌, ◌%◌,
}
use ferrvm.Pci.{ConfigSpace}
use ferrvm.Memory.{GuestMemory}
use ferrvm.Virtio.Pci.Layout.{
  virtio_msi_no_vector, msix_entry_size, common_cfg_offset, common_cfg_len, isr_offset, isr_len,
  notify_offset, notify_len, device_cfg_offset, device_cfg_len, msix_table_offset, msix_pba_offset,
}
use ferrvm.Virtio.Pci.Config.{msix_enabled, msix_function_masked}
use ferrvm.Virtio.Pci.State.{
  VirtioDevice, VirtioPciDevice, MsixEntry, masked, set_line, signal_msix, raise_queue_interrupt,
  deliver_pending, reset,
}
use ferrvm.Virtio.Pci.Common.{
  modify, set_driver_features, set_status, write_common_cfg, common_cfg_write, get_le,
}
use ferrvm.Virtio.Pci.Mmio.{
  set_entry_field, in_region, msix_table_len, msix_table_write, mmio_read, notify, mmio_write,
  config_write,
}
use ferrvm.Virtio.Pci.Pending.{quiet, deliver-quiet, quiet-map-false, quiet-set, quiet-modify}

-- MSI-X messages go out: the capability is enabled and the function is not masked.
pub live : ConfigSpace → Bool
live c = not (not (msix_enabled c) || msix_function_masked c)

-- While messages go out, no vector is both pending and unmasked.
pub settled : ConfigSpace → List MsixEntry → List Bool → Bool
settled c table pending = not (live c) || quiet table pending

or_true : (a b : Bool) → b ≡ true → (a || b) ≡ true
or_true true b h = refl
or_true false b h = h

pub settled_by_quiet :
    (c : ConfigSpace) (table : List MsixEntry) (pending : List Bool)
    → quiet table pending ≡ true
    → settled c table pending ≡ true
unfolding settled
settled_by_quiet c table pending q = or_true _ _ q

settled_dead :
    (c : ConfigSpace) (table : List MsixEntry) (pending : List Bool)
    → (not (msix_enabled c) || msix_function_masked c) ≡ true
    → settled c table pending ≡ true
unfolding settled live
settled_dead c table pending dead = rw dead refl

-- A change that keeps a quiet table quiet keeps a settled one settled.
settled_keeps :
    (c : ConfigSpace) (table table' : List MsixEntry) (pending pending' : List Bool)
    → (quiet table pending ≡ true → quiet table' pending' ≡ true)
    → settled c table pending ≡ true
    → settled c table' pending' ≡ true
unfolding settled
settled_keeps c table table' pending pending' keeps h = go (live c) h
  where
    go :
        (b : Bool) → (not b || quiet table pending) ≡ true → (not b || quiet table' pending') ≡ true
    go true h = keeps h
    go false h = refl

-- Only the control word of an entry has its mask bit.
set_entry_field-masked :
    (field value : ℕ) (e : MsixEntry)
    → (field == 12) ≡ false
    → masked (set_entry_field field value e) ≡ masked e
unfolding set_entry_field
set_entry_field-masked field value e other =
    keep (field == 0) _ _ refl
      (keep (field == 4) _ _ refl (keep (field == 8) _ _ refl (rw other refl)))
  where
    keep :
        (b : Bool) (x y : MsixEntry)
        → masked x ≡ masked e
        → masked y ≡ masked e
        → masked (if b then x else y) ≡ masked e
    keep = if_keeps (λ (x : MsixEntry). masked x ≡ masked e)

module _ {D : Type 0} where
  unfoldable pub IsSettled : VirtioPciDevice D → Type 0
  IsSettled v = settled v.config v.msix_table v.msix_pending ≡ true

  pub kept :
      (v v' : VirtioPciDevice D)
      → v'.config ≡ v.config
      → v'.msix_table ≡ v.msix_table
      → v'.msix_pending ≡ v.msix_pending
      → IsSettled v
      → IsSettled v'
  unfolding IsSettled
  kept v v' c t p h = rw (c, t, p) h

  pub deliver_pending-IsSettled : (v : VirtioPciDevice D) → IsSettled (deliver_pending v)
  unfolding IsSettled deliver_pending
  deliver_pending-IsSettled v =
      elim (Bool-cases (not (msix_enabled v.config) || msix_function_masked v.config)) [
        | inl dead ↦ rw dead (settled_dead v.config v.msix_table v.msix_pending dead)
        | inr sends ↦ rw sends (
            settled_by_quiet v.config v.msix_table _
              (deliver-quiet v.msix_table v.msix_pending v.messages))
      ]

  pub signal_msix-IsSettled :
      (vector : ℕ) (v : VirtioPciDevice D) → IsSettled v → IsSettled (signal_msix vector v)
  unfolding IsSettled signal_msix
  signal_msix-IsSettled vector v h = elim (Option-cases (get_elem? v.msix_table vector)) [
    | inl missing ↦ rw (signal_msix, missing) h
    | inr (e, found) ↦
        rw (signal_msix, found)
          (if_keeps IsSettled (vector == virtio_msi_no_vector) _ _ h
            (elim (Bool-cases (msix_function_masked v.config)) [
              | inl off ↦ rw (off) (settled_dead v.config v.msix_table _ (or_true _ _ off))
              | inr on ↦ elim (Bool-cases (masked e)) [
                | inl m ↦
                    rw (on, m)
                      (settled_keeps v.config v.msix_table v.msix_table v.msix_pending _
                        (λ q. quiet-set v.msix_table v.msix_pending vector e q found m) h)
                | inr m ↦ rw (on, m) h
              ]
            ]))
  ]

  pub raise_queue_interrupt-IsSettled :
      (queue_idx : ℕ) (v : VirtioPciDevice D)
      → IsSettled v
      → IsSettled (raise_queue_interrupt queue_idx v)
  unfolding IsSettled raise_queue_interrupt set_line
  raise_queue_interrupt-IsSettled queue_idx v h =
      if_keeps IsSettled (msix_enabled v.config) _ _ (signal_msix-IsSettled _ v h) h

  reset-IsSettled : (v : VirtioPciDevice D) → IsSettled (reset v)
  unfolding IsSettled reset set_line
  reset-IsSettled v =
      settled_by_quiet v.config v.msix_table _ (quiet-map-false v.msix_table v.msix_pending)

  set_driver_features-IsSettled :
      (value : ℕ) (v : VirtioPciDevice D) → IsSettled v → IsSettled (set_driver_features value v)
  unfolding set_driver_features
  set_driver_features-IsSettled value v h =
      if_keeps IsSettled (v.driver_feature_select == 0) _ _ (kept v _ refl refl refl h) (
        if_keeps IsSettled (v.driver_feature_select == 1) _ _ (kept v _ refl refl refl h)
          (kept v _ refl refl refl h))

  set_status-IsSettled :
      (value : ℕ) (v : VirtioPciDevice D) → IsSettled v → IsSettled (set_status value v)
  unfolding set_status
  set_status-IsSettled value v h =
      if_keeps IsSettled (u8 value == 0) _ _ (reset-IsSettled (record v { status = u8 value }))
        (kept v _ refl refl refl h)

  write_common_cfg-IsSettled :
      (offset value : ℕ) (v : VirtioPciDevice D)
      → IsSettled v
      → IsSettled (write_common_cfg offset value v)
  unfolding write_common_cfg
  write_common_cfg-IsSettled offset value v h =
      keep (offset == 0x00) _ _ (kept v _ refl refl refl h) (
        keep (offset == 0x08) _ _ (kept v _ refl refl refl h) (
          keep (offset == 0x0c) _ _ (set_driver_features-IsSettled value v h) (
            keep (offset == 0x14) _ _ (set_status-IsSettled value v h) (
              keep (offset == 0x16) _ _ (kept v _ refl refl refl h) (
                keep (offset == 0x18) _ _ (kept v _ refl refl refl h) (
                  keep (offset == 0x1c) _ _ (kept v _ refl refl refl h) (
                    keep (offset == 0x20) _ _ (kept v _ refl refl refl h) (
                      keep (offset == 0x24) _ _ (kept v _ refl refl refl h) (
                        keep (offset == 0x28) _ _ (kept v _ refl refl refl h) (
                          keep (offset == 0x2c) _ _ (kept v _ refl refl refl h) (
                            keep (offset == 0x30) _ _ (kept v _ refl refl refl h) (
                              keep (offset == 0x34) _ _ (kept v _ refl refl refl h) (
                                keep (offset == 0x10) _ _ (kept v _ refl refl refl h) (
                                  keep (offset == 0x1a) _ _ (kept v _ refl refl refl h)
                                    (kept v _ refl refl refl h)))))))))))))))
    where
      keep :
          (b : Bool) (x y : VirtioPciDevice D)
          → IsSettled x
          → IsSettled y
          → IsSettled (if b then x else y)
      keep = if_keeps IsSettled

  msix_table_write-IsSettled :
      (rel : ℕ) (bytes : List ℕ) (v : VirtioPciDevice D)
      → IsSettled v
      → IsSettled (msix_table_write v rel bytes)
  unfolding msix_table_write IsSettled
  msix_table_write-IsSettled rel bytes v h = elim (Bool-cases (rel % msix_entry_size == 12)) [
    | inl control ↦ rw control (deliver_pending-IsSettled _)
    | inr other ↦ rw other (
        settled_keeps v.config v.msix_table _ v.msix_pending v.msix_pending
          (λ q.
            quiet-modify v.msix_table v.msix_pending _ _ (λ e. set_entry_field-masked _ _ e other)
              q)
          h)
  ]

  pub config_write-IsSettled :
      (v : VirtioPciDevice D) (offset : ℕ) (bytes : List ℕ)
      → IsSettled (config_write v offset bytes)
  unfolding config_write
  config_write-IsSettled v offset bytes = deliver_pending-IsSettled _

module _ {D : Type 0} (backend : VirtioDevice D) where
  pub mmio_read-IsSettled :
      (o : ℕ) (buffer : List ℕ) (v : VirtioPciDevice D)
      → IsSettled v
      → IsSettled (mmio_read backend v o buffer).1
  unfolding mmio_read set_line
  mmio_read-IsSettled o buffer v h = keep (ltb o (common_cfg_offset + common_cfg_len)) _ _ h (
      keep (in_region isr_offset isr_len o) _ _ (kept v _ refl refl refl h) (
        keep (in_region notify_offset notify_len o) _ _ h (
          keep (in_region device_cfg_offset device_cfg_len o) _ _ h (
            keep (in_region msix_table_offset (msix_table_len v) o) _ _ h
              (keep (in_region msix_pba_offset 8 o) _ _ h h)))))
    where
      keep :
          (b : Bool) (x y : List ℕ × VirtioPciDevice D)
          → IsSettled x.1
          → IsSettled y.1
          → IsSettled (if b then x else y).1
      keep = if_keeps (λ (x : List ℕ × VirtioPciDevice D). IsSettled x.1)

  notify-IsSettled :
      (queue_idx : ℕ) (v : VirtioPciDevice D) (mem : GuestMemory)
      → IsSettled v
      → IsSettled (notify backend queue_idx v mem).0
  unfolding notify
  notify-IsSettled queue_idx v mem h = elim (Option-cases (get_elem? v.queues queue_idx)) [
    | inl missing ↦ rw (notify, missing) h
    | inr (q, found) ↦
        let worked = backend.on_notify queue_idx q mem v.device in
        let v' : VirtioPciDevice D = record v {
          queues = modify v.queues queue_idx (λ old. worked.1);
          device = worked.3;
        } in
        let settled' : IsSettled v' = kept v v' refl refl refl h in
        rw (notify, found)
          (if_keeps IsSettled worked.0 _ _ (raise_queue_interrupt-IsSettled queue_idx v' settled')
            settled')
  ]

  pub mmio_write-IsSettled :
      (o : ℕ) (bytes : List ℕ) (v : VirtioPciDevice D) (mem : GuestMemory)
      → IsSettled v
      → IsSettled (mmio_write backend v o bytes mem).0
  unfolding mmio_write common_cfg_write
  mmio_write-IsSettled o bytes v mem h =
      keep (ltb o (common_cfg_offset + common_cfg_len)) _ _
        (write_common_cfg-IsSettled o (get_le bytes) v h)
        (keep (in_region notify_offset notify_len o) _ _ (notify-IsSettled _ v mem h) (
          keep (in_region device_cfg_offset device_cfg_len o) _ _ (kept v _ refl refl refl h) (
            keep (in_region msix_table_offset (msix_table_len v) o) _ _
              (msix_table_write-IsSettled _ bytes v h) h)))
    where
      keep :
          (b : Bool) (x y : VirtioPciDevice D × GuestMemory)
          → IsSettled x.0
          → IsSettled y.0
          → IsSettled (if b then x else y).0
      keep = if_keeps (λ (x : VirtioPciDevice D × GuestMemory). IsSettled x.0)
