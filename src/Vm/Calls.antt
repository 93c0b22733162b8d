-- ===== src/Vm/Calls.antt =====
-- Calls to the host's kernel, and the traits of src/traits.rs over them.
use ferrvm.Prelude.{ℕ, ◌≡◌, refl, Bool, List, Result, ok, err}

abbrev pub Sys : Type 0 → Type 0 → Type 0 → Type 0
Sys S E A = S → Result E A × S

abbrev pub returns : {S E A : Type 0} → A → S → Result E A × S
returns a s = (ok a, s)

abbrev pub fails : {S E A : Type 0} → E → S → Result E A × S
fails e s = (err e, s)

abbrev pub bind_out :
    {S E A B : Type 0} → (A → S → Result E B × S) → Result E A × S → Result E B × S
bind_out f (ok a, s) = f a s
bind_out f (err e, s) = (err e, s)

infixl 5 ◌>>=◌ ◌>>◌
abbrev pub ◌>>=◌ :
    {S E A B : Type 0} → (S → Result E A × S) → (A → S → Result E B × S) → S → Result E B × S
◌>>=◌ m f s = bind_out f (m s)

abbrev pub ◌>>◌ :
    {S E B : Type 0} → (S → Result E (Unit {0}) × S) → (S → Result E B × S) → S → Result E B × S
◌>>◌ m k s = bind_out (λ _. k) (m s)

abbrev pub relabel : {S E F A : Type 0} → (E → F) → Result E A × S → Result F A × S
relabel f (ok a, s) = (ok a, s)
relabel f (err e, s) = (err (f e), s)

-- `map_err`
abbrev pub map_err : {S E F A : Type 0} → (E → F) → (S → Result E A × S) → S → Result F A × S
map_err f m s = relabel f (m s)

-- `io::ErrorKind`, as far as the program tells errors apart.
pub data ErrorKind : Type 0 where
  interrupted would_block already_exists : ErrorKind
  other_kind : ℕ → ErrorKind

-- `trait Hypervisor`, `trait Vm` and `Vcpu::setup`, over the host's state `S`, errors `E`, a VM `M`
-- and a vCPU `V`. A sink is what it does to the host.
pub record Hypervisor (S E M V : Type 0) : Type 0 where
  pub create_vm : List ℕ → S → Result E M × S
  pub setup : M → S → Result E (Unit {0}) × S
  pub create_vcpu : M → ℕ → S → Result E V × S
  pub register_memory_region : M → ℕ → ℕ → ℕ → S → Result E (Unit {0}) × S
  pub register_irq : M → ℕ → S → Result E (Bool → S → S) × S
  pub msi_sink : M → S → Result E (ℕ → ℕ → S → S) × S
  pub setup_vcpu : V → S → Result E (Unit {0}) × S

-- A chain that succeeds: its first call did, and the rest from the state it left.
pub bind_out_ok :
    {S E A B : Type 0} (f : A → S → Result E B × S) (out : Result E A × S) (s' : S) (b : B)
    → bind_out f out ≡ (ok b, s')
    → (a : A) × (s₁ : S) × (out ≡ (ok a, s₁)) × (f a s₁ ≡ (ok b, s'))
bind_out_ok f (ok a, s₁) s' b h = (a, s₁, refl, h)
bind_out_ok f (err e, s₁) s' b h = absurd (cc)

pub relabel_ok :
    {S E F A : Type 0} (f : E → F) (out : Result E A × S) (s' : S) (a : A)
    → relabel f out ≡ (ok a, s')
    → out ≡ (ok a, s')
relabel_ok f (ok a', s₁) s' a h = cc
relabel_ok f (err e, s₁) s' a h = absurd (cc)

-- A call of which only success matters.
pub done_ok :
    {S E F A : Type 0} (f : E → F) (out : Result E A × S) (s' : S)
    → bind_out (λ _ s. (ok tt, s)) (relabel f out) ≡ (ok tt, s')
    → (a : A) × (out ≡ (ok a, s'))
done_ok f (ok a, s₁) s' h = (a, cc)
done_ok f (err e, s₁) s' h = absurd (cc)
