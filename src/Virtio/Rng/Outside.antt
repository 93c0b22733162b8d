-- ===== src/Virtio/Rng/Outside.antt =====
-- What the entropy source of src/virtio/rng.rs leaves alone in guest memory.
use ferrvm.Prelude.{
  ℕ, ◌+◌, ◌≤◌, false, ◌&&◌, Option, some, List, [], ◌∷◌, ◌≡◌, refl, ◌∙◌, ◌⊎◌, inl, inr, ltb, length,
  has_bits, Bool-cases, Option-cases, Result-cases, All,
}
use ferrvm.Memory.{GuestMemory, read_at, write_at}
use ferrvm.Memory.Access.{write_at-read_at_disjoint}
use ferrvm.Virtio.Queue.{VirtqDesc, virtq_desc_f_write}
use ferrvm.Virtio.Rng.{fill, fill_all, process_chain}

-- The device may not write the `len` bytes at `gpa` through the descriptor: it is for reading, or it is
-- empty, or it lies elsewhere.
unfoldable pub IsApart : ℕ → ℕ → VirtqDesc → Type 0
IsApart gpa len desc =
    ((has_bits desc.flags virtq_desc_f_write && ltb 0 desc.len) ≡ false)
    ⊎ ((gpa + len ≤ desc.addr) ⊎ (desc.addr + desc.len ≤ gpa))

module _ {E : Type 0} (read_exact : ℕ → E → Option (List ℕ) × E)
    (fills : (len : ℕ) (entropy : E) (bytes : List ℕ)
      → (read_exact len entropy).0 ≡ some bytes
      → length bytes ≡ len) where
  fill-read_at :
      (gpa len : ℕ) (desc : VirtqDesc) (s : ℕ × GuestMemory × E)
      → IsApart gpa len desc
      → read_at (fill read_exact desc s).1 gpa len ≡ read_at s.1 gpa len
  unfolding IsApart fill
  fill-read_at gpa len desc (total, mem, entropy) (inl skipped) = rw skipped refl
  fill-read_at gpa len desc (total, mem, entropy) (inr apart) =
      elim (Bool-cases (has_bits desc.flags virtq_desc_f_write && ltb 0 desc.len)) [
        | inr skipped ↦ rw skipped refl
        | inl writes ↦ elim (Option-cases (read_exact desc.len entropy).0) [
          | inl failed ↦ rw (writes, fill, failed) refl
          | inr (bytes, got) ↦ elim (Result-cases (write_at mem desc.addr bytes)) [
            | inl (e, refused) ↦ rw (writes, fill, got, refused) refl
            | inr (mem', stored) ↦
                rw (writes, fill, got, stored)
                  (write_at-read_at_disjoint mem mem' desc.addr bytes gpa len stored
                    (rw (fills desc.len entropy bytes got) apart))
          ]
        ]
      ]

  fill_all-read_at :
      (gpa len : ℕ) (chain : List VirtqDesc) (s : ℕ × GuestMemory × E)
      → All (IsApart gpa len) chain
      → read_at (fill_all read_exact chain s).1 gpa len ≡ read_at s.1 gpa len
  unfolding fill_all
  fill_all-read_at gpa len [] s h = refl
  fill_all-read_at gpa len (desc ∷ chain) s h =
      fill_all-read_at gpa len chain (fill read_exact desc s) h.1 ∙ fill-read_at gpa len desc s h.0

  -- Serving a chain leaves a range of guest memory as it was when each descriptor is for reading, is
  -- empty or lies elsewhere, given an entropy source that gives as many bytes as it is asked for.
  pub process_chain-read_at :
      (gpa len : ℕ) (chain : List VirtqDesc) (mem : GuestMemory) (entropy : E)
      → All (IsApart gpa len) chain
      → read_at (process_chain read_exact chain mem entropy).1 gpa len ≡ read_at mem gpa len
  unfolding process_chain
  process_chain-read_at gpa len chain mem entropy h =
      fill_all-read_at gpa len chain (0, mem, entropy) h
