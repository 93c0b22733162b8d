-- ===== src/Pci/Latch.antt =====
-- The CONFIG_ADDRESS latch of src/pci.rs: what is written to ports 0xcf8 to 0xcfb reads back.
use ferrvm.Prelude.{
  ℕ, zero, suc, ◌+◌, ◌≤◌, ◌<◌, ◌≡◌, refl, ap, ap₂, ◌∙◌, List, [], ◌∷◌, arith, length, get_or, set,
  lt→ltb, to_le, from_le, All, IsByte, length-set, get_or-set_self, get_or-set_ne, to_le-from_le,
  length-to_le, to_le-IsByte,
}
use ferrvm.Pci.{PciRootBus, PciDevice, latch_read, latch_write, read, write}

length-latch_write :
    (bytes : List ℕ) (idx : ℕ) (vs : List ℕ) → length (latch_write bytes idx vs) ≡ length bytes
unfolding latch_write
length-latch_write bytes idx [] = refl
length-latch_write bytes idx (v ∷ vs) =
    length-latch_write (set bytes idx v) (idx + 1) vs ∙ length-set bytes idx v

set-IsByte :
    (bytes : List ℕ) (idx v : ℕ) → All IsByte bytes → IsByte v → All IsByte (set bytes idx v)
set-IsByte [] idx v h b = tt
set-IsByte (x ∷ xs) zero v h b = (b, h.1)
set-IsByte (x ∷ xs) (suc idx) v h b = (h.0, set-IsByte xs idx v h.1 b)

latch_write-IsByte :
    (bytes : List ℕ) (idx : ℕ) (vs : List ℕ)
    → All IsByte bytes
    → All IsByte vs
    → All IsByte (latch_write bytes idx vs)
unfolding latch_write
latch_write-IsByte bytes idx [] h b = h
latch_write-IsByte bytes idx (v ∷ vs) h b =
    latch_write-IsByte (set bytes idx v) (idx + 1) vs (set-IsByte bytes idx v h b.0) b.1

-- Bytes below the written ones stay.
latch_write_below :
    (bytes : List ℕ) (idx : ℕ) (vs : List ℕ) (i : ℕ)
    → i < idx
    → get_or (latch_write bytes idx vs) i 0 ≡ get_or bytes i 0
unfolding latch_write
latch_write_below bytes idx [] i h = refl
latch_write_below bytes idx (v ∷ vs) i h =
    latch_write_below (set bytes idx v) (idx + 1) vs i (omega arith)
    ∙ get_or-set_ne bytes idx i v 0 (omega arith)

latch_read-latch_write :
    (bytes : List ℕ) (idx : ℕ) (vs : List ℕ)
    → idx + length vs ≤ length bytes
    → latch_read (latch_write bytes idx vs) idx vs ≡ vs
unfolding latch_write latch_read
latch_read-latch_write bytes idx [] h = refl
latch_read-latch_write bytes idx (v ∷ vs) h =
    ap₂ ◌∷◌
      (latch_write_below (set bytes idx v) (idx + 1) vs idx (omega arith)
        ∙ get_or-set_self bytes idx v 0 (omega arith))
      (latch_read-latch_write (set bytes idx v) (idx + 1) vs (rw length-set (omega arith)))

module _ {H S : Type 0} (device : PciDevice H S) (bus : PciRootBus H) (offset : ℕ) (bytes : List ℕ)
    (s : S) where
  pub write_latch :
      offset < 4
      → write device bus offset bytes s ≡ (
        record bus {
          config_address = from_le (latch_write (to_le 4 bus.config_address) offset bytes);
        },
        s,
      )
  unfolding write
  write_latch h = rw (lt→ltb offset 4 h)

  pub read_latch :
      offset < 4
      → read device bus offset bytes s ≡ latch_read (to_le 4 bus.config_address) offset bytes
  unfolding read
  read_latch h = rw (lt→ltb offset 4 h)

-- Bytes written inside the CONFIG_ADDRESS latch read back from the same ports, and no device hears
-- of them.
pub write-read_latch :
    {H S : Type 0} (device : PciDevice H S) (bus : PciRootBus H) (offset : ℕ) (bytes : List ℕ)
    (s : S)
    → 0 < length bytes
    → offset + length bytes ≤ 4
    → All IsByte bytes
    → let (bus', s') = write device bus offset bytes s in
      (read device bus' offset bytes s' ≡ bytes) × (s' ≡ s) × (bus'.devices ≡ bus.devices)
write-read_latch device bus offset bytes s pos fits is_bytes =
    let below : offset < 4 = omega arith in
    let old = to_le 4 bus.config_address in
    let new = latch_write old offset bytes in
    let new_length : length new ≡ 4 = length-latch_write old offset bytes ∙ length-to_le 4 _ in
    let new_bytes : All IsByte new =
      latch_write-IsByte old offset bytes (to_le-IsByte 4 bus.config_address) is_bytes in
    let stored : to_le 4 (from_le new) ≡ new = rw new_length at (to_le-from_le new new_bytes) in
    rw (write_latch device bus offset bytes s below) (
      read_latch device (record bus { config_address = from_le new }) offset bytes s below
          ∙ ap (λ b. latch_read b offset bytes) stored
          ∙ latch_read-latch_write old offset bytes (rw length-to_le fits),
      refl,
      refl,
    )
