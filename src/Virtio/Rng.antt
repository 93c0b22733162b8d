-- ===== src/Virtio/Rng.antt =====
-- src/virtio/rng.rs: the virtio entropy source.
-- The entropy file is a parameter over a state `E`: `read_exact` gives the bytes, or nothing when it
-- fails, and the new state.
pub mod Outside
use ferrvm.Prelude.{
  ℕ, zero, suc, ◌+◌, Bool, true, false, Option, none, some, List, [], ◌∷◌, ltb, ◌==◌, ◌&&◌, ◌%◌,
  ◌^◌, if◌then◌else◌, Result, ok, err, has_bits, u32, ◌≡◌, refl, ◌≤◌, ◌<◌, arith, length,
  Result-cases, Option-cases, inl, inr, Bool-cases,
}
use ferrvm.Memory.{GuestMemory, read_at, write_at}
use ferrvm.Virtio.Queue.{VirtqDesc, Virtqueue, virtq_desc_f_write, process}

module _ {E : Type 0} (read_exact : ℕ → E → Option (List ℕ) × E) where
  -- One descriptor: only a buffer that the device may write and that is not empty is filled.
  unfoldable pub fill : VirtqDesc → ℕ × GuestMemory × E → ℕ × GuestMemory × E
  fill desc (total_written, mem, entropy) =
      if has_bits desc.flags virtq_desc_f_write && ltb 0 desc.len
      then (let (buf, entropy') = read_exact desc.len entropy in
          elim buf [
            | none ↦ (total_written, mem, entropy')
            | some bytes ↦ elim (write_at mem desc.addr bytes) [
              | err e ↦ (total_written, mem, entropy')
              | ok mem' ↦ (u32 (total_written + desc.len), mem', entropy')
            ]
          ])
      else (total_written, mem, entropy)

  unfoldable pub fill_all : List VirtqDesc → ℕ × GuestMemory × E → ℕ × GuestMemory × E
  fill_all [] s = s
  fill_all (desc ∷ chain) s = fill_all chain (fill desc s)

  unfoldable pub process_chain : List VirtqDesc → GuestMemory → E → ℕ × GuestMemory × E
  process_chain chain mem entropy = fill_all chain (0, mem, entropy)

  pub on_notify : ℕ → Virtqueue → GuestMemory → E → Bool × Virtqueue × GuestMemory × E
  on_notify queue_idx queue mem entropy =
      if queue_idx == 0
      then elim (process (λ chain m e. process_chain chain m e) queue mem entropy) [
        | none ↦ (false, queue, mem, entropy)
        | some (processed, queue', mem', entropy') ↦ (ltb 0 processed, queue', mem', entropy')
      ]
      else (false, queue, mem, entropy)
