-- ===== src/Cpu/Bhyve/Registers.antt =====
-- Registers that src/bhyve/core.rs sets and reads back.
use ferrvm.Prelude.{
  arith, ℕ, ◌≡◌, ◌≢◌, refl, sym, ap, ◌∙◌, Bool, true, false, not, ◌&&◌, ◌==◌, List, [], ◌∷◌, All,
  ok, bind_ok,
}
use ferrvm.Cpu.{VcpuRegs}
use ferrvm.Cpu.Bhyve.{Vmm, SegDesc, set_registers, set_regs, get_regs, named_registers}

-- What the kernel documents of its calls: a set that succeeds is what the next get of the same register
-- finds, and leaves the other registers and the descriptors, and the same of descriptors.
pub record IsStore {S E : Type 0} (vmm : Vmm S E) : Type 0 where
  pub register_same :
      (r v : ℕ) (s s' : S) → vmm.set_register r v s ≡ ok s' → vmm.get_register r s' ≡ ok v
  pub register_other :
      (r v : ℕ) (s s' : S) (q : ℕ)
      → vmm.set_register r v s ≡ ok s'
      → r ≢ q
      → vmm.get_register q s' ≡ vmm.get_register q s
  pub register_descriptor :
      (r v : ℕ) (s s' : S) (q : ℕ)
      → vmm.set_register r v s ≡ ok s'
      → vmm.get_descriptor q s' ≡ vmm.get_descriptor q s
  pub descriptor_same :
      (r : ℕ) (d : SegDesc) (s s' : S)
      → vmm.set_descriptor r d s ≡ ok s'
      → vmm.get_descriptor r s' ≡ ok d
  pub descriptor_other :
      (r : ℕ) (d : SegDesc) (s s' : S) (q : ℕ)
      → vmm.set_descriptor r d s ≡ ok s'
      → r ≢ q
      → vmm.get_descriptor q s' ≡ vmm.get_descriptor q s
  pub descriptor_register :
      (r : ℕ) (d : SegDesc) (s s' : S) (q : ℕ)
      → vmm.set_descriptor r d s ≡ ok s'
      → vmm.get_register q s' ≡ vmm.get_register q s

-- The registers' numbers are different from `r`; from each other.
unfoldable pub fresh : {A : Type 0} → ℕ → List (ℕ × A) → Bool
fresh r [] = true
fresh r ((q, v) ∷ rest) = not (q == r) && fresh r rest

unfoldable pub distinct : {A : Type 0} → List (ℕ × A) → Bool
distinct [] = true
distinct ((r, v) ∷ rest) = fresh r rest && distinct rest

pub and_true : (a b : Bool) → (a && b) ≡ true → (a ≡ true) × (b ≡ true)
and_true true b h = (refl, h)
and_true false b h = absurd (cc)

module _ {S E : Type 0} (vmm : Vmm S E) (store : IsStore vmm) where
  set_registers_keeps :
      (list : List (ℕ × ℕ)) (s s' : S) (q : ℕ)
      → set_registers vmm list s ≡ ok s'
      → fresh q list ≡ true
      → vmm.get_register q s' ≡ vmm.get_register q s
  unfolding set_registers fresh
  set_registers_keeps [] s s' q h f =
      let same : s ≡ s' = cc in ap (λ x. vmm.get_register q x) (sym same)
  set_registers_keeps ((r, v) ∷ rest) s s' q h f =
      let step = bind_ok (vmm.set_register r v s) (set_registers vmm rest) s' h in
      let parts = and_true (not (r == q)) (fresh q rest) f in
      let other : r ≢ q = ground (arith, parts.0) in
      set_registers_keeps rest step.0 s' q step.2 parts.1
      ∙ store.register_other r v s step.0 q step.1 other

  pub set_registers_get :
      (list : List (ℕ × ℕ)) (s s' : S)
      → set_registers vmm list s ≡ ok s'
      → distinct list ≡ true
      → All (λ p. vmm.get_register p.0 s' ≡ ok p.1) list
  unfolding set_registers distinct
  set_registers_get [] s s' h d = tt
  set_registers_get ((r, v) ∷ rest) s s' h d =
      let step = bind_ok (vmm.set_register r v s) (set_registers vmm rest) s' h in
      let parts = and_true (fresh r rest) (distinct rest) d in
      (
        set_registers_keeps rest step.0 s' r step.2 parts.0
            ∙ store.register_same r v s step.0 step.1,
        set_registers_get rest step.0 s' step.2 parts.1,
      )

  -- The general registers that were set are the ones read back.
  pub get_regs-set_regs :
      (regs : VcpuRegs) (s s' : S) → set_regs vmm regs s ≡ ok s' → get_regs vmm s' ≡ ok regs
  unfolding get_regs named_registers distinct fresh
  get_regs-set_regs regs s s' h =
      let (
        a,
        (b, (c, (d, (e, (f, (g, (i, (j, (k, (l, (m, (n, (o, (p, (q, (r, (t, _))))))))))))))))),
      ) =
        set_registers_get (named_registers regs) s s' h refl in
      rw (a, b, c, d, e, f, g, i, j, k, l, m, n, o, p, q, r, t) refl
