-- ===== src/Cpu/Bhyve/Special/RoundTrip.antt =====
-- `set_sregs` and `get_sregs` of src/bhyve/core.rs, one after the other.
use ferrvm.Prelude.{arith, ℕ, ◌^◌, ◌<◌, ◌≡◌, ◌≢◌, refl, ◌∙◌, true, List, [], ◌∷◌, All, ok, bind_ok}
use ferrvm.Cpu.{Segment, VcpuSregs}
use ferrvm.Cpu.Bhyve.{
  Vmm, set_registers, set_segments, set_dtable, get_segment, set_sregs, get_sregs, dtable_desc,
}
use ferrvm.Cpu.Bhyve.Registers.{IsStore, fresh, distinct, set_registers_get}
use ferrvm.Cpu.Bhyve.Segments.{Fits}
use ferrvm.Cpu.Bhyve.Special.{
  Keeps, Keeps-trans, set_descriptor-Keeps, set_registers-Keeps, get_segment-Keeps,
  get_dtable-Keeps, set_segments_get, get_dtable-set_dtable, kept_sregs,
}

abbrev pub segments : VcpuSregs → List (ℕ × Segment)
segments sregs =
    (23, sregs.cs)
    ∷ (25, sregs.ds)
    ∷ (22, sregs.es)
    ∷ (26, sregs.fs)
    ∷ (27, sregs.gs)
    ∷ (24, sregs.ss)
    ∷ (29, sregs.tr)
    ∷ (28, sregs.ldt)
    ∷ []

abbrev pub controls : VcpuSregs → List (ℕ × ℕ)
controls sregs =
    (15, sregs.cr0) ∷ (33, sregs.cr2) ∷ (16, sregs.cr3) ∷ (17, sregs.cr4) ∷ (32, sregs.efer) ∷ []

-- The special registers that were set are the ones read back, as far as the backend keeps them, when
-- the segments fit their descriptors and the tables' limits 16 bits.
pub get_sregs-set_sregs :
    {S E : Type 0} (vmm : Vmm S E) (sregs : VcpuSregs) (s s' : S)
    → IsStore vmm
    → All (λ p. Fits p.1) (segments sregs)
    → sregs.gdt.limit < 2 ^ 16
    → sregs.idt.limit < 2 ^ 16
    → set_sregs vmm sregs s ≡ ok s'
    → get_sregs vmm s' ≡ ok (kept_sregs sregs)
unfolding set_sregs get_sregs kept_sregs set_dtable distinct fresh
get_sregs-set_sregs {S = S} {E = E} vmm sregs s s' store fits gdt_fits idt_fits h =
    let one = bind_ok (set_segments vmm (segments sregs) s) _ s' h in
    let two = bind_ok (set_dtable vmm 31 (sregs.gdt) one.0) _ s' one.2 in
    let three =
      bind_ok (set_dtable vmm 30 (sregs.idt) two.0) (set_registers vmm (controls sregs)) s' two.2 in
    let last : (q : ℕ) → fresh q (controls sregs) ≡ true → Keeps vmm store q three.0 s' =
      λ q f. set_registers-Keeps vmm store (controls sregs) three.0 s' q three.2 f in
    let idt_keeps : (q : ℕ) → 30 ≢ q → Keeps vmm store q two.0 three.0 = λ q apart.
      set_descriptor-Keeps vmm store 30 (dtable_desc sregs.idt) two.0 three.0 q three.1 apart in
    let gdt_keeps : (q : ℕ) → 31 ≢ q → Keeps vmm store q one.0 two.0 = λ q apart.
      set_descriptor-Keeps vmm store 31 (dtable_desc sregs.gdt) one.0 two.0 q two.1 apart in
    let after : (q : ℕ)
        → 31 ≢ q
        → 30 ≢ q
        → fresh q (controls sregs) ≡ true
        → get_segment vmm q s' ≡ get_segment vmm q one.0 =
      λ q a b f. get_segment-Keeps vmm store q one.0 s' (
        Keeps-trans vmm store q one.0 two.0 s' (gdt_keeps q a)
          (Keeps-trans vmm store q two.0 three.0 s' (idt_keeps q b) (last q f))) in
    let (cs, (ds, (es, (fs, (gs, (ss, (tr, (ldt, _)))))))) =
      set_segments_get vmm store (segments sregs) s one.0 one.1 refl fits in
    let (cr0, (cr2, (cr3, (cr4, (efer, _))))) =
      set_registers_get vmm store (controls sregs) three.0 s' three.2 refl in
    let gdt =
      get_dtable-Keeps vmm store 31 two.0 s'
        (Keeps-trans vmm store 31 two.0 three.0 s' (idt_keeps 31 (omega arith)) (last 31 refl))
      ∙ get_dtable-set_dtable vmm store 31 (sregs.gdt) one.0 two.0 gdt_fits two.1 in
    let idt =
      get_dtable-Keeps vmm store 30 three.0 s' (last 30 refl)
      ∙ get_dtable-set_dtable vmm store 30 (sregs.idt) two.0 three.0 idt_fits three.1 in
    rw
      (
        after 23 (omega arith) (omega arith) refl ∙ cs,
        after 25 (omega arith) (omega arith) refl ∙ ds,
        after 22 (omega arith) (omega arith) refl ∙ es,
        after 26 (omega arith) (omega arith) refl ∙ fs,
        after 27 (omega arith) (omega arith) refl ∙ gs,
        after 24 (omega arith) (omega arith) refl ∙ ss,
        after 29 (omega arith) (omega arith) refl ∙ tr,
        after 28 (omega arith) (omega arith) refl ∙ ldt,
        gdt,
        idt,
        cr0,
        cr2,
        cr3,
        cr4,
        efer,
      )
      refl
