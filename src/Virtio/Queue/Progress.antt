-- ===== src/Virtio/Queue/Progress.antt =====
-- The loop of `Virtqueue::process` in src/virtio/mod.rs: it ends, and it takes every chain that the
-- guest made available.
use ferrvm.Prelude.{
  ◌⊎◌, ℕ, zero, suc, ◌+◌, ◌-◌, ◌*◌, ◌%◌, ◌≤◌, ◌<◌, ◌^◌, ◌≡◌, ◌≢◌, refl, sym, ap, ◌∙◌, true, false,
  not, ◌||◌, List, some, ok, err, arith, to_le, from_le, from_le-lt, to_le-from_le, length-to_le,
  lt→ltb, if_keeps, ltb, u16, u64, Result-cases, Bool-cases, inl, inr, ◌==◌, IsByte,
}
use native.Mathlib.Decide.{ℕ_discrete}
use ferrvm.Memory.{GuestMemory, MemoryError, read_at, write_at}
use ferrvm.Virtio.Queue.Served.{Served, serve-write_at}
use ferrvm.Memory.Access.{
  InBounds, write_or_skip-read_at, write_or_skip_ok, read_at-IsByte, length-read_at, read_at_ok,
  size-write_or_skip,
}
use ferrvm.Virtio.Queue.{
  VirtqDesc, Virtqueue, ring_offset, serve, advance, process_loop, publish, process,
}

-- How many increments of the 16-bit index lead from `a` to `b`.
abbrev pub distance : ℕ → ℕ → ℕ
distance a b = (b + 2 ^ 16 - a) % 2 ^ 16

from_le-read_at :
    (mem : GuestMemory) (gpa : ℕ) (bytes : List ℕ)
    → ((a : ℕ) → IsByte (mem.byte_at a))
    → read_at mem gpa 2 ≡ ok bytes
    → from_le bytes < 2 ^ 16
from_le-read_at mem gpa bytes h e =
    rw (length-read_at mem gpa 2 e) at (from_le-lt bytes (read_at-IsByte mem gpa 2 bytes h e))

to_le-from_le_read :
    (mem : GuestMemory) (gpa : ℕ) (bytes : List ℕ)
    → ((a : ℕ) → IsByte (mem.byte_at a))
    → read_at mem gpa 2 ≡ ok bytes
    → to_le 2 (from_le bytes) ≡ bytes
to_le-from_le_read mem gpa bytes h e =
    rw (length-read_at mem gpa 2 e) at (to_le-from_le bytes (read_at-IsByte mem gpa 2 bytes h e))

module _ {D : Type 0} (process_chain : List VirtqDesc → GuestMemory → D → ℕ × GuestMemory × D) where
  loop_done :
      (fuel avail_idx processed : ℕ) (q : Virtqueue) (mem : GuestMemory) (d : D)
      → q.last_avail_idx ≡ avail_idx
      → process_loop process_chain (suc fuel) avail_idx processed q mem d
        ≡ some (processed, q, mem, d)
  unfolding process_loop
  loop_done fuel avail_idx processed q mem d e =
      let met : (q.last_avail_idx == avail_idx) ≡ true = ground arith in rw (process_loop, met)

  loop_fault :
      (fuel avail_idx processed : ℕ) (q : Virtqueue) (mem : GuestMemory) (d : D) {e : MemoryError}
      → q.last_avail_idx ≢ avail_idx
      → read_at mem (ring_offset q) 2 ≡ err e
      → process_loop process_chain (suc fuel) avail_idx processed q mem d
        ≡ some (processed, q, mem, d)
  unfolding process_loop
  loop_fault fuel avail_idx processed q mem d ne fault =
      let unmet : (q.last_avail_idx == avail_idx) ≡ false = ground arith in
      rw (process_loop, unmet, fault)

  loop_next :
      (fuel avail_idx processed : ℕ) (q : Virtqueue) (mem : GuestMemory) (d : D) {bytes : List ℕ}
      → q.last_avail_idx ≢ avail_idx
      → read_at mem (ring_offset q) 2 ≡ ok bytes
      → process_loop process_chain (suc fuel) avail_idx processed q mem d ≡ (
          let s = serve process_chain q (from_le bytes) mem d in
          process_loop process_chain fuel avail_idx (processed + 1) (advance q) s.0 s.1)
  unfolding process_loop
  loop_next fuel avail_idx processed q mem d ne found =
      let unmet : (q.last_avail_idx == avail_idx) ≡ false = ground arith in
      rw (process_loop, unmet, found)

  -- With more fuel than chains to take the loop returns.
  process_loop_total :
      (fuel avail_idx processed : ℕ) (q : Virtqueue) (mem : GuestMemory) (d : D)
      → q.last_avail_idx < 2 ^ 16
      → avail_idx < 2 ^ 16
      → distance q.last_avail_idx avail_idx < fuel
      → (r : ℕ × Virtqueue × GuestMemory × D) × (process_loop process_chain fuel avail_idx processed
            q mem d
          ≡ some r)
  unfolding advance
  process_loop_total zero avail_idx processed q mem d hq ha h = elim h [ ]
  process_loop_total (suc fuel) avail_idx processed q mem d hq ha h =
      elim (ℕ_discrete q.last_avail_idx avail_idx) [
        | yes e ↦ ((processed, q, mem, d), loop_done fuel avail_idx processed q mem d e)
        | no ne ↦ elim (Result-cases (read_at mem (ring_offset q) 2)) [
          | inl (e, fault) ↦
              ((processed, q, mem, d), loop_fault fuel avail_idx processed q mem d ne fault)
          | inr (bytes, found) ↦
              let s = serve process_chain q (from_le bytes) mem d in
              let rest =
                process_loop_total fuel avail_idx (processed + 1) (advance q) s.0 s.1 (omega arith)
                  ha (omega arith) in
              (rest.0, loop_next fuel avail_idx processed q mem d ne found ∙ rest.1)
        ]
      ]

  -- Processing a queue returns, whatever the queue's addresses and the guest's memory hold.
  pub process_total :
      (q : Virtqueue) (mem : GuestMemory) (d : D)
      → q.last_avail_idx < 2 ^ 16
      → ((a : ℕ) → IsByte (mem.byte_at a))
      → (r : ℕ × Virtqueue × GuestMemory × D) × (process process_chain q mem d ≡ some r)
  unfolding process
  process_total q mem d hq is_bytes = elim (Bool-cases (not q.ready || q.num == 0)) [
    | inl idle ↦ ((0, q, mem, d), rw idle)
    | inr busy ↦ elim (Result-cases (read_at mem (u64 (q.avail_ring + 2)) 2)) [
      | inl (e, fault) ↦ ((0, q, mem, d), rw (process, busy, fault))
      | inr (bytes, found) ↦
          let rest =
            process_loop_total (2 ^ 16) (from_le bytes) 0 q mem d hq
              (from_le-read_at mem _ bytes is_bytes found) (omega arith) in
          (publish process_chain rest.0, rw (process, busy, found, rest.1))
    ]
  ]

  process_busy :
      (q : Virtqueue) (mem : GuestMemory) (d : D) (bytes : List ℕ)
      (r : ℕ × Virtqueue × GuestMemory × D)
      → q.ready ≡ true
      → 0 < q.num
      → q.avail_ring + 2 < 2 ^ 64
      → read_at mem (q.avail_ring + 2) 2 ≡ ok bytes
      → process_loop process_chain (2 ^ 16) (from_le bytes) 0 q mem d ≡ some r
      → process process_chain q mem d ≡ some (publish process_chain r)
  unfolding process
  process_busy q mem d bytes r ready pos fits found loop =
      let busy : (not q.ready || q.num == 0) ≡ false = ground arith in
      let field : u64 (q.avail_ring + 2) ≡ q.avail_ring + 2 = omega arith in
      rw (process, busy, field, found, loop)

  publish_lem :
      (n : ℕ) (q : Virtqueue) (mem : GuestMemory) (d : D)
      → InBounds mem q.used_ring 4
      → ((publish process_chain (n, q, mem, d)).2.size ≡ mem.size)
        × (0 < n
            → read_at (publish process_chain (n, q, mem, d)).2 (q.used_ring + 2) 2
              ≡ ok (to_le 2 q.last_avail_idx))
        × (0 < n
            → write_at mem (q.used_ring + 2) (to_le 2 q.last_avail_idx)
              ≡ ok (publish process_chain (n, q, mem, d)).2)
        × (n ≡ 0 → (publish process_chain (n, q, mem, d)).2 ≡ mem)
  unfolding publish
  publish_lem n q mem d used = (
    if_keeps (λ (m : GuestMemory). m.size ≡ mem.size) (ltb 0 n) _ _ (size-write_or_skip _ _ _) refl,
    λ pos.
        let some_done : ltb 0 n ≡ true = lt→ltb 0 n pos in
        let field : u64 (q.used_ring + 2) ≡ q.used_ring + 2 = omega arith in
        rw (some_done, field)
          (rw length-to_le at (
            write_or_skip-read_at mem (q.used_ring + 2) (to_le 2 q.last_avail_idx)
              (rw length-to_le (omega arith, omega arith)))),
    λ pos.
        let some_done : ltb 0 n ≡ true = lt→ltb 0 n pos in
        let field : u64 (q.used_ring + 2) ≡ q.used_ring + 2 = omega arith in
        rw (some_done, field)
          (write_or_skip_ok mem (q.used_ring + 2) (to_le 2 q.last_avail_idx)
            (rw length-to_le (omega arith, omega arith))),
    λ none_left. rw none_left refl,
  )

  -- The callback may change the memory's bytes, not its size.
  module _
      (keeps : (chain : List VirtqDesc) (mem : GuestMemory) (d : D)
        → (process_chain chain mem d).1.size ≡ mem.size) where
    size-serve :
        (q : Virtqueue) (head_idx : ℕ) (mem : GuestMemory) (d : D)
        → (serve process_chain q head_idx mem d).0.size ≡ mem.size
    unfolding serve
    size-serve q head_idx mem d = size-write_or_skip _ _ _ ∙ keeps _ mem d

    ring_readable :
        (q : Virtqueue) (mem : GuestMemory)
        → 0 < q.num
        → q.avail_ring + 4 + q.num * 2 ≤ mem.size
        → q.avail_ring + 4 + q.num * 2 < 2 ^ 64
        → (bytes : List ℕ) × (read_at mem (ring_offset q) 2 ≡ ok bytes)
    unfolding ring_offset
    ring_readable q mem pos inside fits =
        let slot : q.last_avail_idx % q.num < q.num = omega arith in
        (_, read_at_ok mem (ring_offset q) 2 (omega arith, omega arith))

    nothing-Served :
        (q : Virtqueue) (mem : GuestMemory) (d : D) (avail_idx : ℕ)
        → q.last_avail_idx ≡ avail_idx
        → Served process_chain (distance q.last_avail_idx avail_idx) q mem d mem d
    unfolding Served
    nothing-Served q mem d avail_idx e =
        let none_left : distance q.last_avail_idx avail_idx ≡ 0 = omega arith in
        rw none_left (refl, refl)

    -- One chain and then the rest.
    first-Served :
        (q : Virtqueue) (mem : GuestMemory) (d : D) (avail_idx : ℕ) (mem' : GuestMemory) (d' : D)
        (head : List ℕ)
        → q.last_avail_idx < 2 ^ 16
        → avail_idx < 2 ^ 16
        → q.last_avail_idx ≢ avail_idx
        → 0 < q.num
        → q.avail_ring + 4 + q.num * 2 ≤ mem.size
        → q.avail_ring + 4 + q.num * 2 < 2 ^ 64
        → InBounds mem q.used_ring (4 + q.num * 8)
        → read_at mem (ring_offset q) 2 ≡ ok head
        → Served process_chain
            (distance (advance q).last_avail_idx avail_idx)
            (advance q)
            (serve process_chain q (from_le head) mem d).0
            (serve process_chain q (from_le head) mem d).1
            mem'
            d'
        → Served process_chain (distance q.last_avail_idx avail_idx) q mem d mem' d'
    unfolding Served ring_offset advance serve
    first-Served q mem d avail_idx mem' d' head hq ha ne pos inside fits used found rest =
        let one_more : distance q.last_avail_idx avail_idx
            ≡ suc (distance (u16 (q.last_avail_idx + 1)) avail_idx) =
          omega arith in
        let slot : q.last_avail_idx % q.num < q.num = omega arith in
        let place : u64 (q.avail_ring + 4 + q.last_avail_idx % q.num * 2)
            ≡ q.avail_ring + 4 + q.last_avail_idx % q.num * 2 =
          omega arith in
        rw one_more (
          head,
          (serve process_chain q (from_le head) mem d).0,
          rw place at found,
          (serve-write_at process_chain q (from_le head) mem d (keeps _ mem d) pos used, rest),
        )

    -- With the ring in memory, the loop takes every available chain.
    process_loop_lem :
        (fuel avail_idx processed : ℕ) (q : Virtqueue) (mem : GuestMemory) (d : D)
        → q.last_avail_idx < 2 ^ 16
        → avail_idx < 2 ^ 16
        → distance q.last_avail_idx avail_idx < fuel
        → 0 < q.num
        → q.avail_ring + 4 + q.num * 2 ≤ mem.size
        → q.avail_ring + 4 + q.num * 2 < 2 ^ 64
        → InBounds mem q.used_ring (4 + q.num * 8)
        → (mem' : GuestMemory) × (d' : D) × (process_loop process_chain fuel avail_idx processed q
              mem d
            ≡ some (
              processed + distance q.last_avail_idx avail_idx,
              record q { last_avail_idx = avail_idx },
              mem',
              d',
            ))
          × (mem'.size ≡ mem.size)
          × Served process_chain (distance q.last_avail_idx avail_idx) q mem d mem' d'
    unfolding advance Served ring_offset
    process_loop_lem zero avail_idx processed q mem d hq ha h pos inside fits used = elim h [ ]
    process_loop_lem (suc fuel) avail_idx processed q mem d hq ha h pos inside fits used =
        elim (ℕ_discrete q.last_avail_idx avail_idx) [
          | yes e ↦
              let none_left : processed ≡ processed + distance q.last_avail_idx avail_idx =
                omega arith in
              (
                mem,
                d,
                loop_done fuel avail_idx processed q mem d e ∙ λ i.
                    some (none_left i, record q { last_avail_idx = e i }, mem, d),
                refl,
                nothing-Served q mem d avail_idx e,
              )
          | no ne ↦
              let ring = ring_readable q mem pos inside fits in
              let s = serve process_chain q (from_le ring.0) mem d in
              let same : s.0.size ≡ mem.size = size-serve q (from_le ring.0) mem d in
              let rest =
                process_loop_lem fuel avail_idx (processed + 1) (advance q) s.0 s.1 (omega arith) ha
                  (omega arith) pos (rw same inside) fits (used.0, rw same used.1) in
              let one_more : processed + 1 + distance (u16 (q.last_avail_idx + 1)) avail_idx
                  ≡ processed + distance q.last_avail_idx avail_idx =
                omega arith in
              (
                rest.0,
                rest.1,
                loop_next fuel avail_idx processed q mem d ne ring.1
                    ∙ rest.2
                    ∙ ap (λ n. some (n, record q { last_avail_idx = avail_idx }, rest.0, rest.1))
                        one_more,
                rest.3 ∙ same,
                first-Served q mem d avail_idx (rest.0) (rest.1) ring.0 hq ha ne pos inside fits
                    used ring.1 rest.4,
              )
        ]

    -- With a callback that keeps the size of memory, a memory of bytes, and the queue ready with its
    -- rings in memory, one call serves exactly the chains between the device's index and the guest's,
    -- modulo 2^16, one after the other: the callback runs on the chain at each head in the available
    -- ring, and the used ring gets the head with the number of bytes written. The index is then the
    -- guest's, the size of memory is kept, and if the indices differed, the last write publishes the new
    -- one, so that the used ring holds it.
    pub process_lem :
        (q : Virtqueue) (mem : GuestMemory) (d : D) (bytes : List ℕ)
        → q.last_avail_idx < 2 ^ 16
        → ((a : ℕ) → IsByte (mem.byte_at a))
        → q.ready ≡ true
        → 0 < q.num
        → InBounds mem q.avail_ring (4 + q.num * 2)
        → InBounds mem q.used_ring (4 + q.num * 8)
        → read_at mem (q.avail_ring + 2) 2 ≡ ok bytes
        → (mem' : GuestMemory) × (d' : D) × (mem₁ : GuestMemory) × (process process_chain q mem d
            ≡ some (
              distance q.last_avail_idx (from_le bytes),
              record q { last_avail_idx = from_le bytes },
              mem',
              d',
            ))
          × (mem'.size ≡ mem.size)
          × Served process_chain (distance q.last_avail_idx (from_le bytes)) q mem d mem₁ d'
          × (((q.last_avail_idx ≡ from_le bytes) × (mem' ≡ mem₁))
              ⊎ ((write_at mem₁ (q.used_ring + 2) bytes ≡ ok mem')
                  × (read_at mem' (q.used_ring + 2) 2 ≡ ok bytes)))
    unfolding publish
    process_lem q mem d bytes hq is_bytes ready pos avail used found =
        let idx = from_le bytes in
        let ha : idx < 2 ^ 16 = from_le-read_at mem _ bytes is_bytes found in
        let n = distance q.last_avail_idx idx in
        let loop =
          process_loop_lem (2 ^ 16) idx 0 q mem d hq ha (omega arith) pos (omega arith)
            (omega arith) used in
        let count : 0 + n ≡ n = omega arith in
        let q' : Virtqueue = record q { last_avail_idx = idx } in
        let r : ℕ × Virtqueue × GuestMemory × D = (n, q', loop.0, loop.1) in
        let stored = to_le-from_le_read mem _ bytes is_bytes found in
        let published =
          publish_lem n q' loop.0 loop.1
            (omega (arith, used.0), rw loop.3 (omega (arith, used.1))) in
        (
          (publish process_chain r).2,
          loop.1,
          loop.0,
          process_busy q mem d bytes r ready pos (omega arith) found
              (loop.2 ∙ ap (λ k. some (k, q', loop.0, loop.1)) count),
          published.0 ∙ loop.3,
          loop.4,
          elim (Bool-cases (q.last_avail_idx == idx)) [
            | inl same ↦ inl (ground arith, published.3 (ground arith))
            | inr ne ↦ inr (
              ap (write_at (loop.0) (q.used_ring + 2)) (sym stored) ∙ published.2 (ground arith),
              published.1 (ground arith) ∙ ap (λ b. ok b) stored,
            )
          ],
        )
