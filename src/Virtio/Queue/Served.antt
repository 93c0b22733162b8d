-- ===== src/Virtio/Queue/Served.antt =====
-- What serving the available chains of a queue is, told apart from the loop of src/virtio/mod.rs.
use ferrvm.Prelude.{
  arith, ℕ, zero, suc, ◌+◌, ◌*◌, ◌%◌, ◌^◌, ◌<◌, ◌≡◌, refl, List, ◌++◌, ok, length, u64,
}
use ferrvm.Prelude.Words.{to_le, from_le}
use ferrvm.Memory.{GuestMemory, read_at, write_at}
use ferrvm.Memory.Access.{InBounds, write_or_skip_ok}
use ferrvm.Virtio.Queue.{VirtqDesc, Virtqueue, chain_at, used_elem_offset, used_elem, serve}

module _ {D : Type 0} (process_chain : List VirtqDesc → GuestMemory → D → ℕ × GuestMemory × D) where
  -- `n` chains in turn. Each head is the entry of the available ring at the device's index modulo the
  -- size of the queue; the callback gets its chain, and the used ring gets the head and the number of
  -- bytes written at the same place; the index goes on modulo 2^16.
  unfoldable pub Served : ℕ → Virtqueue → GuestMemory → D → GuestMemory → D → Type 0
  Served zero q mem d mem' d' = (mem ≡ mem') × (d ≡ d')
  Served (suc n) q mem d mem' d' =
      (head : List ℕ) × (mem₂ : GuestMemory) × (read_at mem
          (q.avail_ring + 4 + q.last_avail_idx % q.num * 2) 2
        ≡ ok head)
      × (let (written, mem₁, d₁) = process_chain (chain_at mem q (from_le head)) mem d in
          (write_at mem₁ (q.used_ring + 4 + q.last_avail_idx % q.num * 8)
              (to_le 4 (from_le head) ++ to_le 4 written)
            ≡ ok mem₂)
          × Served n (record q { last_avail_idx = (q.last_avail_idx + 1) % 2 ^ 16 }) mem₂ d₁ mem'
              d')

  length-used_elem : (head written : ℕ) → length (to_le 4 head ++ to_le 4 written) ≡ 8
  unfolding to_le
  length-used_elem head written = refl

  -- One round of the loop is one chain served.
  pub serve-write_at :
      (q : Virtqueue) (head : ℕ) (mem : GuestMemory) (d : D)
      → (process_chain (chain_at mem q head) mem d).1.size ≡ mem.size
      → 0 < q.num
      → InBounds mem q.used_ring (4 + q.num * 8)
      → write_at
          (process_chain (chain_at mem q head) mem d).1
          (q.used_ring + 4 + q.last_avail_idx % q.num * 8)
          (to_le 4 head ++ to_le 4 (process_chain (chain_at mem q head) mem d).0)
        ≡ ok (serve process_chain q head mem d).0
  unfolding serve used_elem used_elem_offset
  serve-write_at q head mem d same pos used =
      let slot : q.last_avail_idx % q.num < q.num = omega arith in
      let at : u64 (q.used_ring + 4 + q.last_avail_idx % q.num * 8)
          ≡ q.used_ring + 4 + q.last_avail_idx % q.num * 8 =
        omega arith in
      let size = length-used_elem head (process_chain (chain_at mem q head) mem d).0 in
      rw at (write_or_skip_ok _ _ _ (omega (arith, same, size), omega (arith, same, size)))
