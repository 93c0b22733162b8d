-- ===== src/Virtio/Queue.antt =====
-- src/virtio/mod.rs: split virtqueues in guest memory.
-- Unchecked `u64` sums wrap, as in a release build. The callback of `process` is a function of the
-- descriptor chain, guest memory and a device state `D`; it gives the bytes written, and the new
-- memory and state. The loop runs on fuel, one unit for each descriptor chain: an index of 16 bits
-- is met again after at most 2^16 - 1 increments, so 2^16 units are enough (`Progress`).
pub mod Chain
pub mod Served
pub mod Progress
use ferrvm.Prelude.{
  ℕ, zero, suc, ◌+◌, ◌-◌, ◌*◌, ◌/◌, ◌%◌, ◌^◌, Bool, true, false, not, ◌||◌, Option, none, some,
  List, [], ◌∷◌, ◌++◌, ltb, ◌==◌, if◌then◌else◌, Result, ok, err, length, take, drop, has_bits,
  to_le, from_le, u16, u32, u64,
}
use ferrvm.Memory.{GuestMemory, read_at, write_at, write_or_skip}

pub record VirtqDesc : Type 0 where
  pub addr : ℕ
  pub len : ℕ
  pub flags : ℕ
  pub next : ℕ

pub record Virtqueue : Type 0 where
  pub desc_table : ℕ
  pub avail_ring : ℕ
  pub used_ring : ℕ
  pub num : ℕ
  pub last_avail_idx : ℕ
  pub ready : Bool

abbrev pub new : Virtqueue
new = record {
  desc_table = 0;
  avail_ring = 0;
  used_ring = 0;
  num = 0;
  last_avail_idx = 0;
  ready = false;
}

abbrev pub virtq_desc_f_next : ℕ
virtq_desc_f_next = 1

abbrev pub virtq_desc_f_write : ℕ
virtq_desc_f_write = 2

-- The little-endian field of `width` bytes at `offset`
abbrev pub le_field : ℕ → ℕ → List ℕ → ℕ
le_field offset width bytes = from_le (take width (drop offset bytes))

pub parse_desc : List ℕ → VirtqDesc
parse_desc bytes = record {
  addr = le_field 0 8 bytes;
  len = le_field 8 4 bytes;
  flags = le_field 12 2 bytes;
  next = le_field 14 2 bytes;
}

pub desc_offset : Virtqueue → ℕ → ℕ
desc_offset q desc_idx = u64 (q.desc_table + desc_idx * 16)

-- The loop that collects a chain, with `left` more descriptors allowed.
pub collect_chain : GuestMemory → Virtqueue → ℕ → ℕ → List VirtqDesc
collect_chain mem q zero desc_idx = []
collect_chain mem q (suc left) desc_idx = elim (read_at mem (desc_offset q desc_idx) 16) [
  | err e ↦ []
  | ok bytes ↦
      let desc : VirtqDesc = parse_desc bytes in
      elim (has_bits desc.flags virtq_desc_f_next) [
        | true ↦ desc ∷ collect_chain mem q left desc.next
        | false ↦ desc ∷ []
      ]
]

-- The chain is cut once it is longer than the queue.
pub chain_at : GuestMemory → Virtqueue → ℕ → List VirtqDesc
chain_at mem q head_idx = collect_chain mem q (q.num + 1) head_idx

pub ring_offset : Virtqueue → ℕ
ring_offset q = u64 (q.avail_ring + 4 + q.last_avail_idx % q.num * 2)

pub used_elem_offset : Virtqueue → ℕ
used_elem_offset q = u64 (q.used_ring + 4 + q.last_avail_idx % q.num * 8)

pub used_elem : ℕ → ℕ → List ℕ
used_elem head_idx total_written = to_le 4 head_idx ++ to_le 4 total_written

-- `wrapping_add(1)`
pub advance : Virtqueue → Virtqueue
advance q = record q { last_avail_idx = u16 (q.last_avail_idx + 1) }

module _ {D : Type 0} (process_chain : List VirtqDesc → GuestMemory → D → ℕ × GuestMemory × D) where
  -- One round of the loop: the callback on the chain at `head_idx`, and its used element.
  pub serve : Virtqueue → ℕ → GuestMemory → D → GuestMemory × D
  serve q head_idx mem d =
      let (total_written, mem', d') = process_chain (chain_at mem q head_idx) mem d in
      (write_or_skip mem' (used_elem_offset q) (used_elem head_idx total_written), d')

  -- `while self.last_avail_idx != avail_idx`; `none` means that the fuel ran out.
  pub process_loop :
      ℕ → ℕ → ℕ → Virtqueue → GuestMemory → D → Option (ℕ × Virtqueue × GuestMemory × D)
  process_loop zero avail_idx processed q mem d = none
  process_loop (suc fuel) avail_idx processed q mem d = elim (q.last_avail_idx == avail_idx) [
    | true ↦ some (processed, q, mem, d)
    | false ↦ elim (read_at mem (ring_offset q) 2) [
      | err e ↦ some (processed, q, mem, d)
      | ok bytes ↦
          let s = serve q (from_le bytes) mem d in
          process_loop fuel avail_idx (processed + 1) (advance q) s.0 s.1
    ]
  ]

  -- The used index is published if anything was processed.
  pub publish : ℕ × Virtqueue × GuestMemory × D → ℕ × Virtqueue × GuestMemory × D
  publish (processed, q, mem, d) = (
    processed,
    q,
    if ltb 0 processed
        then write_or_skip mem (u64 (q.used_ring + 2)) (to_le 2 q.last_avail_idx)
        else mem,
    d,
  )

  abbrev pub loop_fuel : ℕ
  loop_fuel = 2 ^ 16

  pub process : Virtqueue → GuestMemory → D → Option (ℕ × Virtqueue × GuestMemory × D)
  process q mem d =
      if not q.ready || q.num == 0
      then some (0, q, mem, d)
      else elim (read_at mem (u64 (q.avail_ring + 2)) 2) [
        | err e ↦ some (0, q, mem, d)
        | ok bytes ↦ elim (process_loop loop_fuel (from_le bytes) 0 q mem d) [
          | none ↦ none
          | some r ↦ some (publish r)
        ]
      ]
