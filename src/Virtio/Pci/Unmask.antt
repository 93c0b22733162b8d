-- ===== src/Virtio/Pci/Unmask.antt =====
-- An MSI-X interrupt of src/virtio/pci.rs that arrives while its vector is masked.
use ferrvm.Prelude.{
  arith, ℕ, zero, suc, ◌+◌, ◌*◌, ◌/◌, ◌%◌, Bool, true, false, ◌||◌, ◌==◌, ◌≡◌, refl, some, List, [],
  ◌∷◌, get_elem?, set, ◌∙◌, ap, u32, has_bits, get_elem?-set_self, ◌<◌, length,
}
use ferrvm.Virtio.Pci.Layout.{virtio_msi_no_vector, msix_entry_size, msix_vector_ctrl_mask}
use ferrvm.Virtio.Pci.Config.{msix_enabled, msix_function_masked}
use ferrvm.Virtio.Pci.State.{
  VirtioPciDevice, MsixEntry, masked, deliver, signal_msix, raise_queue_interrupt, deliver_pending,
}
use ferrvm.Virtio.Pci.Common.{modify, get_le}
use ferrvm.Virtio.Pci.Mmio.{set_entry_field, msix_table_write}
use ferrvm.Virtio.Pci.Pending.{quiet, quiet-set, deliver_one}

modify_at {ℓ} :
    {A : Type ℓ} (xs : List A) (i : ℕ) (f : A → A) (x : A)
    → get_elem? xs i ≡ some x
    → modify xs i f ≡ modify xs i (λ y. f x)
modify_at [] i f x h = refl
modify_at (y ∷ xs) zero f x h = ground arith
modify_at (y ∷ xs) (suc i) f x h = ap (λ zs. y ∷ zs) (modify_at xs i f x h)

or_last : (b : Bool) → (b || true) ≡ true
or_last true = refl
or_last false = refl

some-injective {ℓ} : {A : Type ℓ} (x y : A) → some x ≡ some y → x ≡ y
some-injective x y h = cc

module _ {D : Type 0} where
  signal_masked :
      (vector : ℕ) (e : MsixEntry) (v : VirtioPciDevice D)
      → (vector == virtio_msi_no_vector) ≡ false
      → get_elem? v.msix_table vector ≡ some e
      → masked e ≡ true
      → signal_msix vector v ≡ record v { msix_pending = set v.msix_pending vector true }
  unfolding signal_msix
  signal_masked vector e v real found m =
      rw (signal_msix, found, real, m, or_last (msix_function_masked v.config)) refl

  raise_masked :
      (queue_idx vector : ℕ) (e : MsixEntry) (v : VirtioPciDevice D)
      → msix_enabled v.config ≡ true
      → get_elem? v.queue_msix_vectors queue_idx ≡ some vector
      → (vector == virtio_msi_no_vector) ≡ false
      → get_elem? v.msix_table vector ≡ some e
      → masked e ≡ true
      → raise_queue_interrupt queue_idx v
        ≡ record v { msix_pending = set v.msix_pending vector true }
  unfolding raise_queue_interrupt
  raise_masked queue_idx vector e v on routed real found m =
      rw (on, routed) (signal_masked vector e v real found m)

  write_control :
      (vector : ℕ) (bytes : List ℕ) (e : MsixEntry) (v : VirtioPciDevice D)
      → get_elem? v.msix_table vector ≡ some e
      → msix_table_write v (vector * msix_entry_size + 12) bytes
        ≡ deliver_pending (record v {
          msix_table = modify v.msix_table vector (λ x. record e { control = u32 (get_le bytes) });
        })
  unfolding msix_table_write set_entry_field
  write_control vector bytes e v found =
      let field : (vector * msix_entry_size + 12) % msix_entry_size ≡ 12 = omega arith in
      let entry : (vector * msix_entry_size + 12) / msix_entry_size ≡ vector = omega arith in
      rw
        (
          field,
          entry,
          modify_at v.msix_table vector (set_entry_field 12 (u32 (get_le bytes))) e found,
        )
        refl

  deliver_live :
      (v : VirtioPciDevice D)
      → msix_enabled v.config ≡ true
      → msix_function_masked v.config ≡ false
      → deliver_pending v ≡ (
          let (pending, log) = deliver v.msix_table v.msix_pending v.messages in
          record v { msix_pending = pending; messages = log })
  unfolding deliver_pending
  deliver_live v on sends = rw (on, sends) refl

  -- Bringing up an interrupt whose vector is masked sends nothing and makes the vector pending; when
  -- the guest then clears the mask bit of the entry, exactly one message goes out, with the entry's
  -- address and data, and the vector is pending no more. This holds when MSI-X is enabled
  -- and the function unmasked, no vector is both pending and unmasked, the queue is routed to the
  -- vector, and the vector is inside the table and the pending array.
  pub raise-masked-unmask :
      (queue_idx vector : ℕ) (e : MsixEntry) (bytes : List ℕ) (v : VirtioPciDevice D)
      → msix_enabled v.config ≡ true
      → msix_function_masked v.config ≡ false
      → quiet v.msix_table v.msix_pending ≡ true
      → get_elem? v.queue_msix_vectors queue_idx ≡ some vector
      → (vector == virtio_msi_no_vector) ≡ false
      → get_elem? v.msix_table vector ≡ some e
      → vector < length v.msix_pending
      → masked e ≡ true
      → has_bits (u32 (get_le bytes)) msix_vector_ctrl_mask ≡ false
      → let raised = raise_queue_interrupt queue_idx v in
        let unmasked = msix_table_write raised (vector * msix_entry_size + 12) bytes in
        (raised.messages ≡ v.messages)
        × (get_elem? raised.msix_pending vector ≡ some true)
        × (unmasked.messages ≡ (e.address, e.word) ∷ v.messages)
        × (unmasked.msix_pending ≡ set (set v.msix_pending vector true) vector false)
  raise-masked-unmask queue_idx vector e bytes v on sends q routed real found inside m clear =
      let pending = set v.msix_pending vector true in
      let raised : VirtioPciDevice D = record v { msix_pending = pending } in
      let is_raised : raise_queue_interrupt queue_idx v ≡ raised =
        raise_masked queue_idx vector e v on routed real found m in
      let is_pending : get_elem? pending vector ≡ some true =
        get_elem?-set_self v.msix_pending vector true inside in
      let new : MsixEntry = record e { control = u32 (get_le bytes) } in
      let one =
        deliver_one v.msix_table pending v.messages vector e new
          (quiet-set v.msix_table v.msix_pending vector e q found m) found is_pending clear in
      let is_unmasked =
        write_control vector bytes e raised found
        ∙ deliver_live (record raised { msix_table = modify v.msix_table vector (λ x. new) }) on
            sends in
      rw is_raised (
        refl,
        is_pending,
        rw (is_unmasked) (ap (λ p. p.1) one),
        rw (is_unmasked) (ap (λ p. p.0) one),
      )
