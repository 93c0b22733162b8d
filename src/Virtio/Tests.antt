-- ===== src/Virtio/Tests.antt =====
-- The theorems on virtio at concrete queues, devices and requests.
use ferrvm.Prelude.{
  ℕ, List, [], ◌∷◌, Option, some, ◌≡◌, ◌≤◌, ◌+◌, ◌⊎◌, inr, refl, true, arith, ok, max, length,
  replicate, ◌==◌, if◌then◌else◌, IsByte, if_keeps, length-replicate,
}
use ferrvm.Prelude.Words.{from_le}
use ferrvm.Memory.{GuestMemory, read_at, write_at, checked_hva, copy_out}
use ferrvm.Virtio.Queue.{VirtqDesc, Virtqueue, process}
use ferrvm.Virtio.Queue.Served.{Served}
use ferrvm.Virtio.Queue.Progress.{process_total, process_lem}
use ferrvm.Virtio.Blk.{Disk, VirtioBlk, process_chain, total_len}
use ferrvm.Virtio.Blk.Bounds.{process_chain_in_capacity}
use ferrvm.Virtio.Rng
use ferrvm.Virtio.Rng.Outside.{IsApart, process_chain-read_at}

-- A queue of four whose available ring is at 0 with one entry, and its used ring at 64.
abbrev queue : Virtqueue
queue = record {
  desc_table = 128;
  avail_ring = 0;
  used_ring = 64;
  num = 4;
  last_avail_idx = 0;
  ready = true;
}

abbrev memory : GuestMemory
memory = record { size = 4096; byte_at = λ a. if a == 2 then 1 else 0 }

memory-IsByte : (a : ℕ) → IsByte (memory.byte_at a)
memory-IsByte a = if_keeps IsByte (a == 2) 1 0 (omega arith) (omega arith)

abbrev drop_chain : List VirtqDesc → GuestMemory → ℕ → ℕ × GuestMemory × ℕ
drop_chain chain mem served = (0, mem, served + 1)

process_total_example :
    (r : ℕ × Virtqueue × GuestMemory × ℕ) × (process drop_chain queue memory 0 ≡ some r)
process_total_example = process_total drop_chain queue memory 0 (omega arith) memory-IsByte

process_lem_example :
    (mem' : GuestMemory) × (d' : ℕ) × (mem₁ : GuestMemory) × (process drop_chain queue memory 0
      ≡ some (1, record queue { last_avail_idx = 1 }, mem', d'))
    × (mem'.size ≡ 4096)
    × Served drop_chain 1 queue memory 0 mem₁ d'
    × (((queue.last_avail_idx ≡ 1) × (mem' ≡ mem₁))
        ⊎ ((write_at mem₁ 66 (1 ∷ 0 ∷ []) ≡ ok mem') × (read_at mem' 66 2 ≡ ok (1 ∷ 0 ∷ []))))
unfolding read_at checked_hva copy_out from_le
process_lem_example =
    process_lem drop_chain (λ chain mem d. refl) queue memory 0 (1 ∷ 0 ∷ []) (omega arith)
      memory-IsByte refl (omega arith) (omega arith, omega arith) (omega arith, omega arith) refl

-- A file that is the end of the furthest write.
abbrev watermark : Disk ℕ
watermark = record {
  read_exact_at = λ len offset f. some (replicate len 0);
  write_all_at = λ bytes offset f. (true, max f (offset + length bytes));
  sync_all = λ f. true;
}

abbrev two_sectors : VirtioBlk ℕ
two_sectors = record { id = 0; disk = 0; capacity_sectors = 2 }

abbrev request : List VirtqDesc
request =
    record { addr = 0; len = 16; flags = 1; next = 1 }
    ∷ record { addr = 1024; len = 512; flags = 1; next = 2 }
    ∷ record { addr = 2048; len = 1; flags = 2; next = 0 }
    ∷ []

process_chain_in_capacity_example :
    (process_chain watermark request memory two_sectors).2.disk ≤ 1024
unfolding total_len
process_chain_in_capacity_example =
    process_chain_in_capacity watermark (λ f. f ≤ 1024) request memory two_sectors (omega arith)
      (λ bytes at_offset f below h. omega arith) (omega arith)

abbrev fours : ℕ → ℕ → Option (List ℕ) × ℕ
fours len entropy = (some (replicate len 4), entropy)

fours-length :
    (len entropy : ℕ) (bytes : List ℕ) → (fours len entropy).0 ≡ some bytes → length bytes ≡ len
fours-length len entropy bytes h =
    rw (some-injective (replicate len 4) bytes h) at (length-replicate {A = ℕ} len 4)
  where
    some-injective : (x y : List ℕ) → some x ≡ some y → x ≡ y
    some-injective x y h = cc

process_chain-read_at_example :
    read_at (Rng.process_chain {E = ℕ} fours request memory 0).1 3000 8 ≡ read_at memory 3000 8
unfolding IsApart
process_chain-read_at_example =
    process_chain-read_at fours fours-length 3000 8 request memory 0
      (inr (inr (omega arith)), (inr (inr (omega arith)), (inr (inr (omega arith)), tt)))
