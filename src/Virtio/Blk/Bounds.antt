-- ===== src/Virtio/Blk/Bounds.antt =====
-- Where the block device of src/virtio/blk.rs reads and writes its backing file.
use ferrvm.Prelude.{
  arith, take, min, get_or, ℕ, zero, suc, ◌+◌, ◌*◌, ◌^◌, ◌≤◌, ◌<◌, Bool, true, Option, List, [],
  ◌∷◌, ◌≡◌, refl, ◌==◌, if◌then◌else◌, length, u64, Bool-cases, Option-cases, Result-cases, inl,
  inr, if_keeps,
}
use ferrvm.Memory.{GuestMemory, read_at, write_at}
use ferrvm.Memory.Access.{length-read_at}
use ferrvm.Virtio.Queue.{VirtqDesc, le_field}
use ferrvm.Virtio.Blk.{
  Disk, VirtioBlk, id_buffer, virtio_blk_id_bytes, finish, process_chain, Progress, read_segment,
  write_segment, segment, transfer, get_id, request_end, in_capacity, execute, total_len,
  sector_size, virtio_blk_t_in, virtio_blk_t_out, virtio_blk_t_flush, virtio_blk_t_get_id,
}

get_id_file :
    {F : Type 0} (id : ℕ) (segments : List VirtqDesc) (p : Progress F)
    → (get_id id segments p).1.file ≡ p.file
unfolding get_id
get_id_file id [] p = refl
get_id_file id (desc ∷ segments) p =
    elim (Result-cases
      (write_at p.memory desc.addr (id_buffer id (min desc.len virtio_blk_id_bytes)))) [
        | inl (e, refused) ↦ rw (get_id, refused) refl
        | inr (mem, stored) ↦ rw (get_id, stored) refl
      ]

-- A request in the capacity starts at its sector and ends, with its whole length, in the capacity.
in_capacity_lem :
    (capacity sector : ℕ) (segments : List VirtqDesc)
    → total_len segments < 2 ^ 64
    → in_capacity capacity (request_end sector segments) ≡ true
    → u64 (sector * sector_size) + total_len segments ≤ u64 (capacity * sector_size)
unfolding in_capacity request_end
in_capacity_lem capacity sector segments short h = ground arith

total_len-take : (n : ℕ) (chain : List VirtqDesc) → total_len (take n chain) ≤ total_len chain
unfolding total_len
total_len-take zero chain = omega arith
total_len-take (suc n) [] = omega arith
total_len-take (suc n) (d ∷ chain) = omega (arith, total_len-take n chain)

take_short :
    (head : VirtqDesc) (chain : List VirtqDesc) (n : ℕ)
    → total_len (head ∷ chain) < 2 ^ 64
    → total_len (take n chain) < 2 ^ 64
unfolding total_len
take_short head chain n short = omega (arith, total_len-take n chain)

module _ {F : Type 0} (backing : Disk F) where
  read_segment_file :
      (offset : ℕ) (desc : VirtqDesc) (p : Progress F)
      → (read_segment backing offset desc p).1.file ≡ p.file
  unfolding read_segment
  read_segment_file offset desc p =
      elim (Option-cases (backing.read_exact_at desc.len offset p.file)) [
        | inl failed ↦ rw (read_segment, failed) refl
        | inr (bytes, got) ↦ elim (Result-cases (write_at p.memory desc.addr bytes)) [
          | inl (e, refused) ↦ rw (read_segment, got, refused) refl
          | inr (mem, stored) ↦ rw (read_segment, got, stored) refl
        ]
      ]

  module _ (P : F → Type 0) (limit : ℕ) (small : limit < 2 ^ 64)
      (keeps : (bytes : List ℕ) (at_offset : ℕ) (f : F)
        → at_offset + length bytes ≤ limit
        → P f
        → P (backing.write_all_at bytes at_offset f).1) where
    write_segment_keeps :
        (offset : ℕ) (desc : VirtqDesc) (p : Progress F)
        → offset + desc.len ≤ limit
        → P p.file
        → P (write_segment backing offset desc p).1.file
    unfolding write_segment
    write_segment_keeps offset desc p fits h =
        elim (Result-cases (read_at p.memory desc.addr desc.len)) [
          | inl (e, refused) ↦ rw (write_segment, refused) h
          | inr (bytes, got) ↦
              rw (write_segment, got)
                (keeps bytes offset p.file
                  (omega (arith, length-read_at p.memory desc.addr desc.len got)) h)
        ]

    segment_keeps :
        (req_type offset : ℕ) (desc : VirtqDesc) (p : Progress F)
        → offset + desc.len ≤ limit
        → P p.file
        → P (segment backing req_type offset desc p).1.file
    unfolding segment
    segment_keeps req_type offset desc p fits h =
        if_keeps (λ (r : Option ℕ × Progress F). P r.1.file) (req_type == virtio_blk_t_in) _ _
          (rw (read_segment_file offset desc p) h)
          (if_keeps (λ (r : Option ℕ × Progress F). P r.1.file) (req_type == virtio_blk_t_out) _ _
            (write_segment_keeps offset desc p fits h) h)

    transfer_keeps :
        (req_type offset : ℕ) (segments : List VirtqDesc) (p : Progress F)
        → offset + total_len segments ≤ limit
        → P p.file
        → P (transfer backing req_type offset segments p).1.file
    unfolding transfer total_len
    transfer_keeps req_type offset [] p fits h = h
    transfer_keeps req_type offset (desc ∷ segments) p fits h =
        let result = segment backing req_type offset desc p in
        let here = segment_keeps req_type offset desc p (omega arith) h in
        let next : u64 (offset + desc.len) ≡ offset + desc.len = omega arith in
        let rest =
          transfer_keeps req_type (u64 (offset + desc.len)) segments result.1
            (rw next (omega arith)) here in
        elim (Option-cases result.0) [
          | inl more ↦ rw (transfer, more) rest
          | inr (status, done) ↦ rw (transfer, done) here
        ]

  -- Whatever the request, the file is written only inside the disk's capacity: a property of the file
  -- that every write below the capacity keeps is kept by the request, for any header and for data
  -- segments whose lengths sum to less than 2^64.
  pub execute_in_capacity :
      (P : F → Type 0) (blk : VirtioBlk F) (req_type sector : ℕ) (segments : List VirtqDesc)
      → (p : Progress F) → total_len segments < 2 ^ 64
      → ((bytes : List ℕ) (at_offset : ℕ) (f : F)
          → at_offset + length bytes ≤ u64 (blk.capacity_sectors * sector_size)
          → P f
          → P (backing.write_all_at bytes at_offset f).1)
      → P p.file
      → P (execute backing blk req_type sector segments p).1.file
  unfolding execute
  execute_in_capacity P blk req_type sector segments p short keeps h =
      keep (req_type == virtio_blk_t_flush) _ _ h (
        keep (req_type == virtio_blk_t_get_id) _ _ (rw (get_id_file blk.id segments p) h)
          (elim (Bool-cases (in_capacity blk.capacity_sectors (request_end sector segments))) [
            | inl fits ↦ rw fits (
                transfer_keeps P (u64 (blk.capacity_sectors * sector_size)) (omega arith) keeps
                  req_type (u64 (sector * sector_size)) segments p
                  (in_capacity_lem blk.capacity_sectors sector segments short fits) h)
            | inr over ↦ rw over h
          ]))
    where
      keep :
          (b : Bool) (x y : ℕ × Progress F)
          → P x.1.file
          → P y.1.file
          → P (if b then x else y).1.file
      keep = if_keeps (λ (r : ℕ × Progress F). P r.1.file)

  finish_file : (last : VirtqDesc) (r : ℕ × Progress F) → (finish last r).file ≡ r.1.file
  unfolding finish
  finish_file last (status, p) = elim (Result-cases (write_at p.memory last.addr (status ∷ []))) [
    | inl (e, refused) ↦ rw (finish, refused) refl
    | inr (mem, stored) ↦ rw (finish, stored) refl
  ]

  -- A descriptor chain makes the device write its file only below the capacity: a property of the file
  -- that every write below the capacity keeps is kept by the chain, for descriptors whose lengths sum
  -- to less than 2^64.
  pub process_chain_in_capacity :
      (P : F → Type 0) (chain : List VirtqDesc) (mem : GuestMemory) (blk : VirtioBlk F)
      → total_len chain < 2 ^ 64
      → ((bytes : List ℕ) (at_offset : ℕ) (f : F)
          → at_offset + length bytes ≤ u64 (blk.capacity_sectors * sector_size)
          → P f
          → P (backing.write_all_at bytes at_offset f).1)
      → P blk.disk
      → P (process_chain backing chain mem blk).2.disk
  unfolding process_chain
  process_chain_in_capacity P [] mem blk short keeps h = h
  process_chain_in_capacity P (head ∷ []) mem blk short keeps h = h
  process_chain_in_capacity P (head ∷ second ∷ rest) mem blk short keeps h =
      elim (Result-cases (read_at mem head.addr 16)) [
        | inl (e, refused) ↦ rw (process_chain, refused) h
        | inr (hdr, got) ↦
            let p : Progress F = record { written = 0; memory = mem; file = blk.disk } in
            let data_short : total_len (take (length rest) (second ∷ rest)) < 2 ^ 64 =
              take_short (head) (second ∷ rest) (length rest) short in
            let done =
              execute_in_capacity P blk (le_field 0 4 hdr) (le_field 8 8 hdr)
                (take (length rest) (second ∷ rest)) p data_short keeps h in
            rw (process_chain, got)
              (rw
                (finish_file (get_or (second ∷ rest) (length rest) second) (
                  execute backing blk (le_field 0 4 hdr) (le_field 8 8 hdr)
                    (take (length rest) (second ∷ rest)) p))
                done)
      ]
