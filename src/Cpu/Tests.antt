-- ===== src/Cpu/Tests.antt =====
-- The theorem on special registers at a store of functions from register numbers.
use ferrvm.Prelude.{
  arith, ℕ, ◌≡◌, ◌≢◌, refl, ap, Bool-cases, inl, inr, ◌==◌, ==_iff, update, Result, ok, err,
  ok-injective, replicate,
}
use mathlib.Core.Path.{subst}
use ferrvm.Cpu.{Segment, Dtable, VcpuSregs}
use ferrvm.Cpu.Bhyve.{
  Vmm, SegDesc, set_registers, set_segment, set_segments, set_dtable, set_sregs, get_sregs,
}
use ferrvm.Cpu.Bhyve.Registers.{IsStore}
use ferrvm.Cpu.Bhyve.Segments.{Fits}
use ferrvm.Cpu.Bhyve.Special.{kept_sregs}
use ferrvm.Cpu.Bhyve.Special.RoundTrip.{get_sregs-set_sregs}

abbrev vmm : Vmm ((ℕ → ℕ) × (ℕ → SegDesc)) ℕ
vmm = record {
  set_register = λ r v s. ok (update s.0 r v, s.1);
  get_register = λ r s. ok (s.0 r);
  set_descriptor = λ r d s. ok (s.0, update s.1 r d);
  get_descriptor = λ r s. ok (s.1 r);
}

update_same : {A : Type 0} (f : ℕ → A) (r : ℕ) (v : A) → update f r v r ≡ v
update_same f r v = rw ((==_iff r r).1 refl) refl

update_other : {A : Type 0} (f : ℕ → A) (r q : ℕ) (v : A) → r ≢ q → update f r v q ≡ f q
update_other f r q v apart = elim (Bool-cases (r == q)) [
  | inl same ↦ absurd (apart ((==_iff r q).0 same))
  | inr other ↦ rw other refl
]

vmm-IsStore : IsStore vmm
vmm-IsStore = record {
  register_same = λ r v s s' h.
      let same = ok-injective (update s.0 r v, s.1) s' h in
      subst (λ (t : (ℕ → ℕ) × (ℕ → SegDesc)). vmm.get_register r t ≡ ok v) same
        (ap (λ x. ok x) (update_same (s.0) r v));
  register_other = λ r v s s' q h apart.
      let same = ok-injective (update s.0 r v, s.1) s' h in
      subst (λ (t : (ℕ → ℕ) × (ℕ → SegDesc)). vmm.get_register q t ≡ vmm.get_register q s) same
        (ap (λ x. ok x) (update_other (s.0) r q v apart));
  register_descriptor = λ r v s s' q h.
      let same = ok-injective (update s.0 r v, s.1) s' h in
      subst (λ (t : (ℕ → ℕ) × (ℕ → SegDesc)). vmm.get_descriptor q t ≡ vmm.get_descriptor q s) same
        refl;
  descriptor_same = λ r d s s' h.
      let same = ok-injective (s.0, update s.1 r d) s' h in
      subst (λ (t : (ℕ → ℕ) × (ℕ → SegDesc)). vmm.get_descriptor r t ≡ ok d) same
        (ap (λ x. ok x) (update_same (s.1) r d));
  descriptor_other = λ r d s s' q h apart.
      let same = ok-injective (s.0, update s.1 r d) s' h in
      subst (λ (t : (ℕ → ℕ) × (ℕ → SegDesc)). vmm.get_descriptor q t ≡ vmm.get_descriptor q s) same
        (ap (λ x. ok x) (update_other (s.1) r q d apart));
  descriptor_register = λ r d s s' q h.
      let same = ok-injective (s.0, update s.1 r d) s' h in
      subst (λ (t : (ℕ → ℕ) × (ℕ → SegDesc)). vmm.get_register q t ≡ vmm.get_register q s) same
        refl;
}

abbrev code : Segment
code = record {
  base = 0;
  limit = 0xf_ffff;
  selector = 8;
  kind = 11;
  present = 1;
  dpl = 0;
  db = 0;
  s = 1;
  l = 1;
  g = 1;
  avl = 0;
  unusable = 0;
  padding = 0;
}

code-Fits : Fits code
code-Fits = record {
  kind_fits = omega arith;
  s_fits = omega arith;
  dpl_fits = omega arith;
  present_fits = omega arith;
  avl_fits = omega arith;
  l_fits = omega arith;
  db_fits = omega arith;
  g_fits = omega arith;
  unusable_fits = omega arith;
  selector_fits = omega arith;
}

abbrev empty : (ℕ → ℕ) × (ℕ → SegDesc)
empty = (λ r. 0, λ r. record { base = 0; limit = 0; access = 0 })

abbrev table : Dtable
table = record { base = 0x500; limit = 23; padding = replicate 3 0 }

abbrev special : VcpuSregs
special = record {
  cs = code;
  ds = code;
  es = code;
  fs = code;
  gs = code;
  ss = code;
  tr = code;
  ldt = code;
  gdt = table;
  idt = table;
  cr0 = 1;
  cr2 = 2;
  cr3 = 3;
  cr4 = 4;
  cr8 = 8;
  efer = 5;
  apic_base = 9;
  interrupt_bitmap = replicate 4 0;
}

abbrev stored : Result ℕ ((ℕ → ℕ) × (ℕ → SegDesc)) → (ℕ → ℕ) × (ℕ → SegDesc)
stored (ok s) = s
stored (err e) = empty

get_sregs-set_sregs_example :
    get_sregs vmm (stored (set_sregs vmm special empty)) ≡ ok (kept_sregs special)
unfolding set_sregs set_segments set_segment set_dtable set_registers
get_sregs-set_sregs_example =
    get_sregs-set_sregs vmm special empty (stored (set_sregs vmm special empty)) vmm-IsStore
      (
        code-Fits,
        (
          code-Fits,
          (code-Fits, (code-Fits, (code-Fits, (code-Fits, (code-Fits, (code-Fits, tt)))))),
        ),
      )
      (omega arith) (omega arith) refl
