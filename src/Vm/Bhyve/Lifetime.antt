-- ===== src/Vm/Bhyve/Lifetime.antt =====
-- A VM from `create_vm` to its end in src/bhyve/core.rs, on a kernel that keeps VMs by their names.
use ferrvm.Prelude.{
  ℕ, ◌<◌, ◌≡◌, ◌≢◌, refl, sym, ap, ◌∙◌, inl, inr, Option, none, some, Option-cases, List, ok, err,
  length,
}
use native.Mathlib.Decide.{ℕ_discrete}
use ferrvm.Vm.Calls.{already_exists}
use ferrvm.Vm.Bhyve.{
  create_vm_req, destroy_vm_req, name_field, in_host, ioctl, recreate, destroy_vm, create_vm,
  drop_vm,
}
use ferrvm.Vm.Bhyve.Requests.{
  Kernel, Host, BhyveVm, VmCreateReq, VmDestroyReq, vmm_create_vm, vmm_destroy_vm, vm_max_namelen,
}
use ferrvm.Vm.Bhyve.Names.{c_string, IsText, name_field_lem}

-- What the VMM documents: `find` is the VM of a name, `fresh` a new one, and `held` the VM whose device a
-- descriptor has open. Creating a VM whose name is taken is refused with `AlreadyExists`, destroying one
-- whose device nobody has open removes it, and a VM that exists can be opened. A descriptor that is
-- closed holds nothing.
pub record IsVmm {K V : Type 0} (kernel : Kernel K) (find : K → List ℕ → Option V) (fresh : V)
    (held : K → ℕ → Option (List ℕ)) : Type 0 where
  pub create_new :
      (fd : ℕ) (r : VmCreateReq) (k : K)
      → find k (c_string (r.name)) ≡ none
      → (n : ℕ) × (k' : K) × (kernel.ioctl fd (vmm_create_vm r) k ≡ (ok n, k'))
        × (find k' (c_string (r.name)) ≡ some fresh)
        × ((other : List ℕ) → other ≢ c_string (r.name) → find k' other ≡ find k other)
        × ((user : ℕ) → held k' user ≡ held k user)
  pub create_taken :
      (fd : ℕ) (r : VmCreateReq) (k : K) (v : V)
      → find k (c_string (r.name)) ≡ some v
      → kernel.ioctl fd (vmm_create_vm r) k ≡ (err already_exists, k)
  pub destroys :
      (fd : ℕ) (r : VmDestroyReq) (k : K) (v : V)
      → find k (c_string (r.name)) ≡ some v
      → ((user : ℕ) → held k user ≢ some (c_string (r.name)))
      → (n : ℕ) × (k' : K) × (kernel.ioctl fd (vmm_destroy_vm r) k ≡ (ok n, k'))
        × (find k' (c_string (r.name)) ≡ none)
        × ((other : List ℕ) → other ≢ c_string (r.name) → find k' other ≡ find k other)
        × ((user : ℕ) → held k' user ≡ held k user)
  pub opens :
      (name : List ℕ) (k : K) (v : V)
      → find k name ≡ some v
      → (fd : ℕ) × (k' : K) × (kernel.open_vm name k ≡ (ok fd, k'))
        × ((other : List ℕ) → find k' other ≡ find k other)
        × (held k' fd ≡ some name)
        × ((user : ℕ) → user ≢ fd → held k' user ≡ held k user)
  pub close_keeps : (fd : ℕ) (k : K) (name : List ℕ) → find (kernel.close fd k) name ≡ find k name
  pub closes : (fd : ℕ) (k : K) → held (kernel.close fd k) fd ≡ none
  pub close_others : (fd user : ℕ) (k : K) → user ≢ fd → held (kernel.close fd k) user ≡ held k user

module _ {K V : Type 0} (kernel : Kernel K) (find : K → List ℕ → Option V) (fresh : V)
    (held : K → ℕ → Option (List ℕ)) (vmm : IsVmm kernel find fresh held) where
  abbrev at : Host K → List ℕ → Option V
  at h name = find (h.kernel_state) name

  -- No descriptor has the VM of this name open.
  abbrev Unused : List ℕ → Host K → Type 0
  Unused name h = (user : ℕ) → held (h.kernel_state) user ≢ some name

  -- A VM of the name, as new, and every other as before.
  abbrev Made : List ℕ → Host K → Host K → Type 0
  Made name h h' =
      (at h' name ≡ some fresh) × ((other : List ℕ) → other ≢ name → at h' other ≡ at h other)

  create_new_lem :
      (fd : ℕ) (name : List ℕ) (h : Host K)
      → c_string (name_field name) ≡ name
      → at h name ≡ none
      → (n : ℕ) × (h' : Host K) × (ioctl kernel fd (vmm_create_vm (create_vm_req name)) h
          ≡ (ok n, h'))
        × Made name h h'
        × ((user : ℕ) → held (h'.kernel_state) user ≡ held (h.kernel_state) user)
  create_new_lem fd name h read free =
      let (n, k', asked, made, others, users) =
        vmm.create_new fd (create_vm_req name) (h.kernel_state) (rw read free) in
      (
        n,
        record h { kernel_state = k' },
        rw asked refl,
        (rw read at made, rw read at others),
        users,
      )

  destroy_vm_lem :
      (fd : ℕ) (name : List ℕ) (h : Host K) (v : V)
      → c_string (name_field name) ≡ name
      → at h name ≡ some v
      → Unused name h
      → (h' : Host K) × (destroy_vm kernel fd name h ≡ (ok tt, h'))
        × (at h' name ≡ none)
        × ((other : List ℕ) → other ≢ name → at h' other ≡ at h other)
        × ((user : ℕ) → held (h'.kernel_state) user ≡ held (h.kernel_state) user)
  unfolding destroy_vm
  destroy_vm_lem fd name h v read there unused =
      let (n, k', asked, gone, others, users) =
        vmm.destroys fd (destroy_vm_req name) (h.kernel_state) v (rw read there) (rw read unused) in
      (record h { kernel_state = k' }, rw asked refl, rw read at gone, rw read at others, users)

  -- Whether the name was taken or not, a new VM of it is made.
  recreate_lem :
      (fd : ℕ) (name : List ℕ) (h : Host K)
      → c_string (name_field name) ≡ name
      → Unused name h
      → (h' : Host K) × (recreate kernel fd name
            (ioctl kernel fd (vmm_create_vm (create_vm_req name)) h)
          ≡ (ok tt, h'))
        × Made name h h'
        × ((user : ℕ) → held (h'.kernel_state) user ≡ held (h.kernel_state) user)
  unfolding recreate
  recreate_lem fd name h read unused = elim (Option-cases (at h name)) [
    | inl free ↦
        let (n, h', asked, made, users) = create_new_lem fd name h read free in
        (h', ap (recreate kernel fd name) asked, made, users)
    | inr (v, there) ↦
        let refused = vmm.create_taken fd (create_vm_req name) (h.kernel_state) v (rw read there) in
        let (h₁, destroyed, gone, kept, users) = destroy_vm_lem fd name h v read there unused in
        let (n, h', asked, (made, others), users') = create_new_lem fd name h₁ read gone in
        (
          h',
          ap (recreate kernel fd name) (ap (in_host (h.next_segid)) refused)
              ∙ rw (destroyed, asked) refl,
          (made, λ other apart. others other apart ∙ kept other apart),
          λ user. users' user ∙ users user,
        )
  ]

  -- The device of the VM that was made is closed before the VM is destroyed, so that nobody has it open.
  closed_unused :
      (name : List ℕ) (fd : ℕ) (k k' : K)
      → ((user : ℕ) → held k user ≢ some name)
      → ((user : ℕ) → user ≢ fd → held k' user ≡ held k user)
      → (user : ℕ) → held (kernel.close fd k') user ≢ some name
  closed_unused name fd k k' unused others user holds = elim (ℕ_discrete user fd) [
    | yes own ↦
        let bad : none ≡ some name =
          sym (ap (held (kernel.close fd k')) own ∙ vmm.closes fd k') ∙ holds in
        absurd (cc)
    | no apart ↦ unused user (sym (vmm.close_others fd user k' apart ∙ others user apart) ∙ holds)
  ]

  -- With a VMM as documented, for a name of at most 127 bytes whose VM nobody has open, `create_vm`
  -- succeeds and opens the VM, also where one of that name was left behind: that one is destroyed first,
  -- and the new one is fresh. No other VM changes, and when the new one is dropped its name is free
  -- again, nobody has it open, and the others are still as they were.
  pub create_vm-drop_vm :
      (fd : ℕ) (name : List ℕ) (h : Host K)
      → IsText name
      → length name < vm_max_namelen
      → Unused name h
      → (vm : BhyveVm) × (h' : Host K) × (create_vm kernel fd name h ≡ (ok vm, h'))
        × Made name h h'
        × (held (h'.kernel_state) vm.fd ≡ some name)
        × (at (drop_vm kernel vm h') name ≡ none)
        × ((other : List ℕ) → other ≢ name → at (drop_vm kernel vm h') other ≡ at h other)
        × Unused name (drop_vm kernel vm h')
  unfolding create_vm drop_vm
  create_vm-drop_vm fd name h text short unused =
      let read = (name_field_lem name text).2 short in
      let (h₁, made, (new, kept), users) = recreate_lem fd name h read unused in
      let (vm_fd, k₂, opened, same, holds, users') = vmm.opens name (h₁.kernel_state) fresh new in
      let vm : BhyveVm = record { fd = vm_fd; hypervisor = fd; name = name } in
      let h₂ : Host K = record { kernel_state = k₂; next_segid = 0 } in
      let closed : Host K = record h₂ { kernel_state = kernel.close vm_fd k₂ } in
      let still = vmm.close_keeps vm_fd k₂ name ∙ same name ∙ new in
      let free : Unused name closed =
        closed_unused name vm_fd (h.kernel_state) k₂ unused
          (λ user apart. users' user apart ∙ users user) in
      let (h₃, destroyed, gone, others, users'') =
        destroy_vm_lem fd name closed fresh read still free in
      (
        vm,
        h₂,
        rw (made, opened) refl,
        (same name ∙ new, λ other apart. same other ∙ kept other apart),
        holds,
        rw (drop_vm, destroyed) gone,
        λ other apart.
            rw (drop_vm, destroyed)
              (others other apart ∙ vmm.close_keeps vm_fd k₂ other ∙ same other ∙ kept other apart),
        rw (drop_vm, destroyed) (λ user holds. free user (sym (users'' user) ∙ holds)),
      )
