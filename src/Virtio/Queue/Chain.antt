-- ===== src/Virtio/Queue/Chain.antt =====
-- The descriptor chains of src/virtio/mod.rs: their length.
use ferrvm.Prelude.{
  ℕ, zero, suc, ◌+◌, ◌≤◌, arith, length, has_bits, Result-cases, Bool-cases, inl, inr,
}
use ferrvm.Memory.{GuestMemory, read_at}
use ferrvm.Virtio.Queue.{Virtqueue, parse_desc, collect_chain, chain_at, desc_offset}

length-collect_chain :
    (mem : GuestMemory) (q : Virtqueue) (left idx : ℕ)
    → length (collect_chain mem q left idx) ≤ left
unfolding collect_chain
length-collect_chain mem q zero idx = omega arith
length-collect_chain mem q (suc left) idx =
    elim (Result-cases (read_at mem (desc_offset q idx) 16)) [
      | inl (e, h) ↦ rw (collect_chain, h) (omega arith)
      | inr (bytes, h) ↦ elim (Bool-cases (has_bits (parse_desc bytes).flags 1)) [
        | inl more ↦
            rw (collect_chain, h, more)
              (omega (arith, length-collect_chain mem q left (parse_desc bytes).next))
        | inr last ↦ rw (collect_chain, h, last) (omega arith)
      ]
    ]

-- A chain has at most one descriptor more than the queue has entries, whatever the guest wrote.
pub length-chain_at :
    (mem : GuestMemory) (q : Virtqueue) (head_idx : ℕ)
    → length (chain_at mem q head_idx) ≤ q.num + 1
unfolding chain_at
length-chain_at mem q head_idx = length-collect_chain mem q (q.num + 1) head_idx
