-- ===== src/Cpu/Bhyve/Segments.antt =====
-- Segments of src/bhyve/core.rs: the access word of a descriptor, and a segment set and read back.
use ferrvm.Prelude.{
  arith, ℕ, ◌+◌, ◌-◌, ◌*◌, ◌/◌, ◌%◌, ◌^◌, ◌<◌, ◌≡◌, refl, ap, ◌∙◌, Result, ok, bind_ok, ok_bind,
  bit_and, ◌>>>◌, u16,
}
use ferrvm.Prelude.Bits.{bit_and_ones, bit_or_gap}
use ferrvm.Cpu.{Segment}
use ferrvm.Cpu.Bhyve.{Vmm, segment_access, segment_desc, desc_segment, set_segment, get_segment}
use ferrvm.Cpu.Bhyve.Registers.{IsStore}

-- The nine fields of an access word, added.
access_sum : Segment → ℕ
access_sum seg =
    seg.kind % 16
    + seg.s % 2 * 16
    + seg.dpl % 4 * 32
    + seg.present % 2 * 128
    + seg.avl % 2 * 2 ^ 12
    + seg.l % 2 * 2 ^ 13
    + seg.db % 2 * 2 ^ 14
    + seg.g % 2 * 2 ^ 15
    + seg.unusable % 2 * 2 ^ 16

segment_access_lem : (seg : Segment) → segment_access seg ≡ access_sum seg
unfolding segment_access access_sum
segment_access_lem seg =
    let x1 = seg.kind % 16 in
    let x2 = x1 + seg.s % 2 * 16 in
    let x3 = x2 + seg.dpl % 4 * 32 in
    let x4 = x3 + seg.present % 2 * 128 in
    let x5 = x4 + seg.avl % 2 * 2 ^ 12 in
    let x6 = x5 + seg.l % 2 * 2 ^ 13 in
    let x7 = x6 + seg.db % 2 * 2 ^ 14 in
    let x8 = x7 + seg.g % 2 * 2 ^ 15 in
    rw
      (
        bit_and_ones 4 seg.kind,
        bit_and_ones 1 seg.s,
        bit_and_ones 2 seg.dpl,
        bit_and_ones 1 seg.present,
        bit_and_ones 1 seg.avl,
        bit_and_ones 1 seg.l,
        bit_and_ones 1 seg.db,
        bit_and_ones 1 seg.g,
        bit_and_ones 1 seg.unusable,
        bit_or_gap 4 1 x1 (seg.s % 2) (omega arith) (omega arith),
        bit_or_gap 5 2 x2 (seg.dpl % 4) (omega arith) (omega arith),
        bit_or_gap 7 1 x3 (seg.present % 2) (omega arith) (omega arith),
        bit_or_gap 12 1 x4 (seg.avl % 2) (omega arith) (omega arith),
        bit_or_gap 13 1 x5 (seg.l % 2) (omega arith) (omega arith),
        bit_or_gap 14 1 x6 (seg.db % 2) (omega arith) (omega arith),
        bit_or_gap 15 1 x7 (seg.g % 2) (omega arith) (omega arith),
        bit_or_gap 16 1 x8 (seg.unusable % 2) (omega arith) (omega arith),
      )
      refl

-- Each field of a segment fits the bits that its descriptor has for it.
pub record Fits (seg : Segment) : Type 0 where
  pub kind_fits : seg.kind < 16
  pub s_fits : seg.s < 2
  pub dpl_fits : seg.dpl < 4
  pub present_fits : seg.present < 2
  pub avl_fits : seg.avl < 2
  pub l_fits : seg.l < 2
  pub db_fits : seg.db < 2
  pub g_fits : seg.g < 2
  pub unusable_fits : seg.unusable < 2
  pub selector_fits : seg.selector < 2 ^ 16

access_field :
    (seg : Segment) (k j m v : ℕ)
    → m ≡ 2 ^ j - 1
    → access_sum seg / 2 ^ k % 2 ^ j ≡ v
    → bit_and (segment_access seg >>> k) m ≡ v
access_field seg k j m v ones h =
    rw (segment_access_lem seg, ones) (bit_and_ones j (access_sum seg / 2 ^ k) ∙ h)

type_field : (seg : Segment) → seg.kind < 16 → bit_and (segment_access seg) 15 ≡ seg.kind
unfolding access_sum
type_field seg fits = rw (segment_access_lem seg) (bit_and_ones 4 (access_sum seg) ∙ omega arith)

-- A segment made into a descriptor and back is the same but for the selector, which is not in it.
desc_segment-segment_desc :
    (seg : Segment)
    → Fits seg
    → desc_segment (segment_desc seg) ≡ record seg { selector = 0; padding = 0 }
unfolding desc_segment access_sum
desc_segment-segment_desc seg fits = λ i. record {
  base = seg.base;
  limit = seg.limit;
  selector = 0;
  kind = type_field seg (fits.kind_fits) i;
  s = access_field seg 4 1 1 seg.s refl (omega (arith, fits.s_fits)) i;
  dpl = access_field seg 5 2 3 seg.dpl refl (omega (arith, fits.dpl_fits)) i;
  present = access_field seg 7 1 1 seg.present refl (omega (arith, fits.present_fits)) i;
  avl = access_field seg 12 1 1 seg.avl refl (omega (arith, fits.avl_fits)) i;
  l = access_field seg 13 1 1 seg.l refl (omega (arith, fits.l_fits)) i;
  db = access_field seg 14 1 1 seg.db refl (omega (arith, fits.db_fits)) i;
  g = access_field seg 15 1 1 seg.g refl (omega (arith, fits.g_fits)) i;
  unusable = access_field seg 16 1 1 seg.unusable refl (omega (arith, fits.unusable_fits)) i;
  padding = 0;
}

abbrev with_selector : {E : Type 0} → ℕ → Segment → Result E Segment
with_selector selector seg = ok (record seg { selector = selector })

-- A segment that was set is the one read back, padding aside.
pub get_segment-set_segment :
    {S E : Type 0} (vmm : Vmm S E) (reg : ℕ) (seg : Segment) (s s' : S)
    → IsStore vmm
    → Fits seg
    → set_segment vmm reg seg s ≡ ok s'
    → get_segment vmm reg s' ≡ ok (record seg { padding = 0 })
unfolding set_segment get_segment
get_segment-set_segment vmm reg seg s s' store fits h =
    let step =
      bind_ok (vmm.set_descriptor reg (segment_desc seg) s)
        (λ x. vmm.set_register reg (seg.selector) x) s' h in
    let desc : vmm.get_descriptor reg s' ≡ ok (segment_desc seg) =
      store.register_descriptor reg (seg.selector) step.0 s' reg step.2
      ∙ store.descriptor_same reg (segment_desc seg) s step.0 step.1 in
    let selector = store.register_same reg (seg.selector) step.0 s' step.2 in
    let cut : u16 (seg.selector) ≡ seg.selector = omega (arith, fits.selector_fits) in
    ok_bind _ _ (segment_desc seg) desc
    ∙ ok_bind _ _ (seg.selector) selector
    ∙ ap (with_selector (u16 seg.selector)) (desc_segment-segment_desc seg fits)
    ∙ ap (λ selector. with_selector selector (record seg { padding = 0 })) cut
