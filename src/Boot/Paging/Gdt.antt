-- ===== src/Boot/Paging/Gdt.antt =====
-- The segment descriptors of src/boot.rs against their layout in the architecture.
use ferrvm.Prelude.{arith, ℕ, ◌+◌, ◌*◌, ◌/◌, ◌%◌, ◌^◌, ◌<◌, ◌≡◌, refl, u64, ◌<<<◌}
use ferrvm.Prelude.Bits.{bit_and_field, bit_and_ones, bit_or_low, bit_or_gap}
use ferrvm.Cpu.{Segment}
use ferrvm.Boot.Paging.{segment_flags, segment_access, segment_gdt_entry}

segment_flags_lem :
    (seg : Segment)
    → segment_flags seg ≡ seg.g % 2 * 8 + seg.db % 2 * 4 + seg.l % 2 * 2 + seg.avl % 2
unfolding segment_flags
segment_flags_lem seg =
    let g = seg.g % 2 in
    let db = seg.db % 2 in
    let l = seg.l % 2 in
    rw
      (
        bit_and_ones 1 seg.g,
        bit_and_ones 1 seg.db,
        bit_and_ones 1 seg.l,
        bit_and_ones 1 seg.avl,
        bit_or_gap 2 1 (g * 8) db (omega arith) (omega arith),
        bit_or_gap 1 1 (g * 8 + db * 4) l (omega arith) (omega arith),
      )
      (bit_or_low 1 (g * 8 + db * 4 + l * 2) (seg.avl % 2) (omega arith) (omega arith))

segment_access_lem :
    (seg : Segment)
    → segment_access seg ≡ seg.present % 2 * 128 + seg.dpl % 4 * 32 + seg.s % 2 * 16 + seg.kind % 16
unfolding segment_access
segment_access_lem seg =
    let p = seg.present % 2 in
    let dpl = seg.dpl % 4 in
    let s = seg.s % 2 in
    rw
      (
        bit_and_ones 1 seg.present,
        bit_and_ones 2 seg.dpl,
        bit_and_ones 1 seg.s,
        bit_and_ones 4 seg.kind,
        bit_or_gap 5 2 (p * 128) dpl (omega arith) (omega arith),
        bit_or_gap 4 1 (p * 128 + dpl * 32) s (omega arith) (omega arith),
      )
      (bit_or_low 4 (p * 128 + dpl * 32 + s * 16) (seg.kind % 16) (omega arith) (omega arith))

-- The six fields of an entry, added.
entry_sum : ℕ → ℕ → ℕ → ℕ → ℕ
entry_sum base limit flags access =
    base / 2 ^ 24 % 2 ^ 8 * 2 ^ 56
    + base % 2 ^ 24 * 2 ^ 16
    + limit % 2 ^ 16
    + limit / 2 ^ 16 % 2 ^ 4 * 2 ^ 48
    + flags * 2 ^ 52
    + access * 2 ^ 40

segment_gdt_entry_lem :
    (seg : Segment)
    → segment_gdt_entry seg ≡ entry_sum seg.base seg.limit (segment_flags seg) (segment_access seg)
unfolding segment_gdt_entry entry_sum
segment_gdt_entry_lem seg =
    let bh = seg.base / 2 ^ 24 % 2 ^ 8 in
    let bl = seg.base % 2 ^ 24 in
    let ll = seg.limit % 2 ^ 16 in
    let lh = seg.limit / 2 ^ 16 % 2 ^ 4 in
    let f = segment_flags seg in
    let a = segment_access seg in
    let f_fits : f < 16 = omega (arith, segment_flags_lem seg) in
    let a_fits : a < 256 = omega (arith, segment_access_lem seg) in
    let top : u64 ((bh * 2 ^ 24) <<< 32) ≡ bh * 2 ^ 56 = omega arith in
    let middle : (lh * 2 ^ 16) <<< 32 ≡ lh * 2 ^ 48 = omega arith in
    let x1 = bh * 2 ^ 56 in
    let x2 = x1 + bl * 2 ^ 16 in
    let x3 = x2 + ll in
    let x4 = x3 + lh * 2 ^ 48 in
    let x5 = x4 + f * 2 ^ 52 in
    rw
      (
        bit_and_field 24 8 seg.base,
        bit_and_ones 24 seg.base,
        bit_and_ones 16 seg.limit,
        bit_and_field 16 4 seg.limit,
        top,
        middle,
        bit_or_gap 16 40 x1 bl (omega arith) (omega arith),
        bit_or_low 16 x2 ll (omega arith) (omega arith),
        bit_or_gap 48 8 x3 lh (omega arith) (omega arith),
        bit_or_gap 52 4 x4 f (omega arith) f_fits,
        bit_or_gap 40 8 x5 a (omega arith) a_fits,
      )
      refl

-- The processor finds in a descriptor what the segment said: limit, base, type, system bit, privilege
-- level, presence, the available bit, the long and default size bits and the granularity, each at its
-- place in the architecture and cut to its width.
pub segment_gdt_entry_fields :
    (seg : Segment)
    → let e = segment_gdt_entry seg in
      (e % 2 ^ 16 + e / 2 ^ 48 % 2 ^ 4 * 2 ^ 16 ≡ seg.limit % 2 ^ 20)
      × (e / 2 ^ 16 % 2 ^ 24 + e / 2 ^ 56 % 2 ^ 8 * 2 ^ 24 ≡ seg.base % 2 ^ 32)
      × (e / 2 ^ 40 % 16 ≡ seg.kind % 16)
      × (e / 2 ^ 44 % 2 ≡ seg.s % 2)
      × (e / 2 ^ 45 % 4 ≡ seg.dpl % 4)
      × (e / 2 ^ 47 % 2 ≡ seg.present % 2)
      × (e / 2 ^ 52 % 2 ≡ seg.avl % 2)
      × (e / 2 ^ 53 % 2 ≡ seg.l % 2)
      × (e / 2 ^ 54 % 2 ≡ seg.db % 2)
      × (e / 2 ^ 55 % 2 ≡ seg.g % 2)
unfolding entry_sum
segment_gdt_entry_fields seg =
    let e = segment_gdt_entry seg in
    let sum = segment_gdt_entry_lem seg in
    let f = segment_flags_lem seg in
    let a = segment_access_lem seg in
    (
      omega (arith, sum, f, a),
      omega (arith, sum, f, a),
      omega (arith, sum, f, a),
      omega (arith, sum, f, a),
      omega (arith, sum, f, a),
      omega (arith, sum, f, a),
      omega (arith, sum, f, a),
      omega (arith, sum, f, a),
      omega (arith, sum, f, a),
      omega (arith, sum, f, a),
    )
