-- ===== src/Cpu/Bhyve/Special.antt =====
-- The special registers that src/bhyve/core.rs sets and reads back.
pub mod RoundTrip
use ferrvm.Prelude.{
  arith, ℕ, ◌+◌, ◌%◌, ◌^◌, ◌<◌, ◌≡◌, ◌≢◌, refl, sym, ap, ◌∙◌, Bool, true, false, not, ◌&&◌, ◌==◌,
  List, [], ◌∷◌, All, Result, ok, err, ◌>>=◌, bind_ok, ok_bind, replicate, u16,
}
use ferrvm.Cpu.{Segment, Dtable, VcpuSregs}
use ferrvm.Cpu.Bhyve.{
  Vmm, SegDesc, segment_desc, dtable_desc, desc_dtable, desc_segment, set_registers, set_segment,
  get_segment, set_segments, set_dtable, get_dtable, set_sregs, get_sregs,
}
use ferrvm.Cpu.Bhyve.Registers.{IsStore, fresh, distinct, and_true, set_registers_get}
use ferrvm.Cpu.Bhyve.Segments.{Fits, get_segment-set_segment}

-- What the backend keeps of the special registers: no padding, and neither CR8, the base of the local
-- APIC nor the interrupt bitmap.
abbrev pub unpadded : Segment → Segment
unpadded seg = record seg { padding = 0 }

abbrev pub unpadded_table : Dtable → Dtable
unpadded_table dt = record dt { padding = replicate 3 0 }

pub kept_sregs : VcpuSregs → VcpuSregs
kept_sregs sregs = record sregs {
  cs = unpadded (sregs.cs);
  ds = unpadded (sregs.ds);
  es = unpadded (sregs.es);
  fs = unpadded (sregs.fs);
  gs = unpadded (sregs.gs);
  ss = unpadded (sregs.ss);
  tr = unpadded (sregs.tr);
  ldt = unpadded (sregs.ldt);
  gdt = unpadded_table (sregs.gdt);
  idt = unpadded_table (sregs.idt);
  cr8 = 0;
  apic_base = 0;
  interrupt_bitmap = replicate 4 0;
}

module _ {S E : Type 0} (vmm : Vmm S E) (store : IsStore vmm) where
  -- The register and the descriptor of number `q` are in `s'` what they are in `s`.
  pub record Keeps (q : ℕ) (s s' : S) : Type 0 where
    register : vmm.get_register q s' ≡ vmm.get_register q s
    descriptor : vmm.get_descriptor q s' ≡ vmm.get_descriptor q s

  pub Keeps-trans : (q : ℕ) (s s' s'' : S) → Keeps q s s' → Keeps q s' s'' → Keeps q s s''
  Keeps-trans q s s' s'' k l = record {
    register = l.register ∙ k.register;
    descriptor = l.descriptor ∙ k.descriptor;
  }

  set_register-Keeps :
      (r v : ℕ) (s s' : S) (q : ℕ) → vmm.set_register r v s ≡ ok s' → r ≢ q → Keeps q s s'
  set_register-Keeps r v s s' q h apart = record {
    register = store.register_other r v s s' q h apart;
    descriptor = store.register_descriptor r v s s' q h;
  }

  pub set_descriptor-Keeps :
      (r : ℕ) (d : SegDesc) (s s' : S) (q : ℕ)
      → vmm.set_descriptor r d s ≡ ok s'
      → r ≢ q
      → Keeps q s s'
  set_descriptor-Keeps r d s s' q h apart = record {
    register = store.descriptor_register r d s s' q h;
    descriptor = store.descriptor_other r d s s' q h apart;
  }

  pub set_registers-Keeps :
      (list : List (ℕ × ℕ)) (s s' : S) (q : ℕ)
      → set_registers vmm list s ≡ ok s'
      → fresh q list ≡ true
      → Keeps q s s'
  unfolding set_registers fresh
  set_registers-Keeps [] s s' q h f =
      let same : s ≡ s' = cc in rw (← same) (record { register = refl; descriptor = refl })
  set_registers-Keeps ((r, v) ∷ rest) s s' q h f =
      let step = bind_ok (vmm.set_register r v s) (set_registers vmm rest) s' h in
      let parts = and_true (not (r == q)) (fresh q rest) f in
      Keeps-trans q s step.0 s' (set_register-Keeps r v s step.0 q step.1 (ground (arith, parts.0)))
        (set_registers-Keeps rest step.0 s' q step.2 parts.1)

  set_segment-Keeps :
      (r : ℕ) (seg : Segment) (s s' : S) (q : ℕ)
      → set_segment vmm r seg s ≡ ok s'
      → r ≢ q
      → Keeps q s s'
  unfolding set_segment
  set_segment-Keeps r seg s s' q h apart =
      let step =
        bind_ok (vmm.set_descriptor r (segment_desc seg) s)
          (λ x. vmm.set_register r (seg.selector) x) s' h in
      Keeps-trans q s step.0 s' (set_descriptor-Keeps r (segment_desc seg) s step.0 q step.1 apart)
        (set_register-Keeps r (seg.selector) step.0 s' q step.2 apart)

  set_segments-Keeps :
      (list : List (ℕ × Segment)) (s s' : S) (q : ℕ)
      → set_segments vmm list s ≡ ok s'
      → fresh q list ≡ true
      → Keeps q s s'
  unfolding set_segments fresh
  set_segments-Keeps [] s s' q h f =
      let same : s ≡ s' = cc in rw (← same) (record { register = refl; descriptor = refl })
  set_segments-Keeps ((r, seg) ∷ rest) s s' q h f =
      let step = bind_ok (set_segment vmm r seg s) (set_segments vmm rest) s' h in
      let parts = and_true (not (r == q)) (fresh q rest) f in
      Keeps-trans q s step.0 s'
        (set_segment-Keeps r seg s step.0 q step.1 (ground (arith, parts.0)))
        (set_segments-Keeps rest step.0 s' q step.2 parts.1)

  pub get_segment-Keeps :
      (q : ℕ) (s s' : S) → Keeps q s s' → get_segment vmm q s' ≡ get_segment vmm q s
  unfolding get_segment
  get_segment-Keeps q s s' k = rw (k.register, k.descriptor) refl

  pub get_dtable-Keeps :
      (q : ℕ) (s s' : S) → Keeps q s s' → get_dtable vmm q s' ≡ get_dtable vmm q s
  unfolding get_dtable
  get_dtable-Keeps q s s' k = rw (k.descriptor) refl

  pub set_segments_get :
      (list : List (ℕ × Segment)) (s s' : S)
      → set_segments vmm list s ≡ ok s'
      → distinct list ≡ true
      → All (λ p. Fits p.1) list
      → All (λ p. get_segment vmm p.0 s' ≡ ok (unpadded p.1)) list
  unfolding set_segments distinct
  set_segments_get [] s s' h d fits = tt
  set_segments_get ((r, seg) ∷ rest) s s' h d fits =
      let step = bind_ok (set_segment vmm r seg s) (set_segments vmm rest) s' h in
      let parts = and_true (fresh r rest) (distinct rest) d in
      (
        get_segment-Keeps r step.0 s' (set_segments-Keeps rest step.0 s' r step.2 parts.0)
            ∙ get_segment-set_segment vmm r seg s step.0 store fits.0 step.1,
        set_segments_get rest step.0 s' step.2 parts.1 fits.1,
      )

  pub get_dtable-set_dtable :
      (r : ℕ) (dt : Dtable) (s s' : S)
      → dt.limit < 2 ^ 16
      → set_dtable vmm r dt s ≡ ok s'
      → get_dtable vmm r s' ≡ ok (unpadded_table dt)
  unfolding get_dtable set_dtable
  get_dtable-set_dtable r dt s s' fits h =
      let found = store.descriptor_same r (dtable_desc dt) s s' h in
      let cut : u16 (dt.limit) ≡ dt.limit = omega arith in
      ok_bind _ _ (dtable_desc dt) found ∙ ap (table_of dt) cut
    where
      table_of : Dtable → ℕ → Result E Dtable
      table_of dt limit = ok (record { base = dt.base; limit = limit; padding = replicate 3 0 })
