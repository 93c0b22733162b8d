-- ===== src/Start/Cpus/States.antt =====
-- Which CPUs run when src/main.rs has created them with src/bhyve/core.rs.
use ferrvm.Prelude.{
  arith, ℕ, zero, suc, ◌+◌, ◌-◌, ◌<◌, ◌≤◌, ◌≡◌, refl, ◌∙◌, inl, inr, ◌⊎◌, ◌==◌, ==_iff, ◌≢◌, false,
  Bool-cases, if◌then◌else◌, List, [], ◌∷◌, ok,
}
use ferrvm.Vm.Calls.{returns, ◌>>=◌, bind_out_ok}
use ferrvm.Vm.Bhyve.{call, probe, capabilities, create_vcpu, setup_vcpu, bhyve_hypervisor}
use ferrvm.Vm.Bhyve.Requests.{
  Kernel, Host, BhyveVm, BhyveVcpu, VmCapType, vm_activate_cpu, vm_reset_cpu, vm_set_run_state,
  vm_get_capability, vrk_reset, vrs_run, vrs_init,
}
use ferrvm.Start.Cpus.{create_cpu, create_aps, KeepsRunStates, start_state, call_ok}

not_same : (id c : ℕ) → id ≡ c → (id == c) ≡ false → ⊥
not_same id c same apart = ground arith

moved : (id left c : ℕ) → (c < id) ⊎ (id + suc left ≤ c) → (c < id + 1) ⊎ (id + 1 + left ≤ c)
moved id left c (inl low) = inl (omega arith)
moved id left c (inr high) = inr (omega arith)

waits : (c : ℕ) → 0 < c → start_state c ≡ vrs_init
waits c above = ground arith

module _ {K : Type 0} (kernel : Kernel K) (run_state : K → ℕ → ℕ)
    (laws : KeepsRunStates kernel run_state) where
  abbrev of : Host K → ℕ → ℕ
  of h c = run_state (h.kernel_state) c

  probe_keeps :
      (vcpu : BhyveVcpu) (caps : List VmCapType) (h h' : Host K) (c : ℕ)
      → probe kernel vcpu caps h ≡ (ok tt, h')
      → of h' c ≡ of h c
  unfolding probe
  probe_keeps vcpu [] h h' c e = let same : h ≡ h' = cc in rw same refl
  probe_keeps vcpu (cap ∷ caps) h h' c e =
      let (u, h₁, asked, rest) =
        bind_out_ok (λ (u : Unit {0}). probe kernel vcpu caps)
          (call kernel (vcpu.vm.fd) (vm_get_capability (vcpu.id) cap) h) h' tt e in
      let (n, told) = call_ok kernel (vcpu.vm.fd) (vm_get_capability (vcpu.id) cap) h h₁ asked in
      probe_keeps vcpu caps h₁ h' c rest
      ∙ laws.capability_keeps (vcpu.vm.fd) (vcpu.id) cap (h.kernel_state) (h₁.kernel_state) n c told

  setup_vcpu_state :
      (vcpu : BhyveVcpu) (h h' : Host K) (c : ℕ)
      → setup_vcpu kernel vcpu h ≡ (ok tt, h')
      → of h' c ≡ (if vcpu.id == c then start_state (vcpu.id) else of h c)
  unfolding setup_vcpu
  setup_vcpu_state vcpu h h' c e =
      let request = vm_set_run_state (record {
        vcpuid = vcpu.id;
        state = start_state (vcpu.id);
        sipi_vector = 0;
        pad = 0 ∷ 0 ∷ 0 ∷ [];
      }) in
      let (u, h₁, asked, rest) =
        bind_out_ok (λ (u : Unit {0}). call kernel (vcpu.vm.fd) request)
          (probe kernel vcpu capabilities h) h' tt e in
      let (n, told) = call_ok kernel (vcpu.vm.fd) request h₁ h' rest in
      laws.set_one (vcpu.vm.fd) _ (h₁.kernel_state) (h'.kernel_state) n c told
      ∙ rw (probe_keeps vcpu capabilities h h₁ c asked) refl

  create_vcpu_state :
      (vm : BhyveVm) (id : ℕ) (h h' : Host K) (vcpu : BhyveVcpu)
      → create_vcpu kernel vm id h ≡ (ok vcpu, h')
      → (vcpu.id ≡ id) × ((c : ℕ) → (id == c) ≡ false → of h' c ≡ of h c)
  unfolding create_vcpu
  create_vcpu_state vm id h h' vcpu e =
      let reset = vm_reset_cpu (record { vcpuid = id; kind = vrk_reset }) in
      let activate = vm_activate_cpu (record { vcpuid = id }) in
      let made : BhyveVcpu = record { vm = vm; id = id } in
      let (u, h₁, first, more) =
        bind_out_ok (λ (u : Unit {0}). call kernel (vm.fd) reset >>= λ (v : Unit {0}). returns made)
          (call kernel (vm.fd) activate h) h' vcpu e in
      let (v, h₂, second, end) =
        bind_out_ok (λ (v : Unit {0}). returns made) (call kernel (vm.fd) reset h₁) h' vcpu more in
      let (n, told₁) = call_ok kernel (vm.fd) activate h h₁ first in
      let (m, told₂) = call_ok kernel (vm.fd) reset h₁ h₂ second in
      let same : made ≡ vcpu = cc in
      let there : h₂ ≡ h' = cc in
      (
        rw (← same) refl,
        λ c apart. rw (← there) (
            laws.reset_others (vm.fd) _ (h₁.kernel_state) (h₂.kernel_state) m c told₂ apart
            ∙ laws.activate_keeps (vm.fd) _ (h.kernel_state) (h₁.kernel_state) n c told₁),
      )

  create_cpu_state :
      (fd : ℕ) (vm : BhyveVm) (id : ℕ) (h h' : Host K) (vcpu : BhyveVcpu)
      → create_cpu (bhyve_hypervisor kernel fd) vm id h ≡ (ok vcpu, h')
      → (c : ℕ) → of h' c ≡ (if id == c then start_state id else of h c)
  unfolding create_cpu
  create_cpu_state fd vm id h h' vcpu e c =
      let (made, h₁, first, more) =
        bind_out_ok
          (λ (made : BhyveVcpu). setup_vcpu kernel made >>= λ (u : Unit {0}). returns made)
          (create_vcpu kernel vm id h) h' vcpu e in
      let (u, h₂, second, end) =
        bind_out_ok (λ (u : Unit {0}). returns made) (setup_vcpu kernel made h₁) h' vcpu more in
      let there : h₂ ≡ h' = cc in
      let (named, others) = create_vcpu_state vm id h h₁ made first in
      let after = setup_vcpu_state made h₁ h₂ c second in
      elim (Bool-cases (id == c)) [
        | inl own ↦ rw (← there, after, named, own) refl
        | inr apart ↦ rw (← there, after, named, apart) (others c apart)
      ]

  create_aps_states :
      (fd : ℕ) (vm : BhyveVm) (left id : ℕ) (h h' : Host K) (vcpus : List BhyveVcpu)
      → create_aps (bhyve_hypervisor kernel fd) vm left id h ≡ (ok vcpus, h')
      → (c : ℕ)
      → ((id ≤ c) × (c < id + left) → of h' c ≡ start_state c)
        × ((c < id) ⊎ (id + left ≤ c) → of h' c ≡ of h c)
  unfolding create_aps
  create_aps_states fd vm zero id h h' vcpus e c =
      let same : h ≡ h' = cc in (λ bad. absurd (omega arith), λ _. rw same refl)
  create_aps_states fd vm (suc left) id h h' vcpus e c =
      let cpus = bhyve_hypervisor kernel fd in
      let (ap, h₁, made, more) =
        bind_out_ok
          (λ (ap : BhyveVcpu).
            create_aps cpus vm left (id + 1) >>= λ (rest : List BhyveVcpu). returns (ap ∷ rest))
          (create_cpu cpus vm id h) h' vcpus e in
      let (rest, h₂, others, end) =
        bind_out_ok (λ (rest : List BhyveVcpu). returns (ap ∷ rest))
          (create_aps cpus vm left (id + 1) h₁) h' vcpus more in
      let there : h₂ ≡ h' = cc in
      let first = create_cpu_state fd vm id h h₁ ap made c in
      let later = create_aps_states fd vm left (id + 1) h₁ h₂ rest others c in
      elim (Bool-cases (id == c)) [
        | inl own ↦
            let same : id ≡ c = (==_iff id c).0 own in
            let started : of h₁ c ≡ start_state c = first ∙ rw (own, same) refl in
            (
              λ _. rw (← there) (later.1 (inl (omega arith)) ∙ started),
              λ outside. absurd (omega arith),
            )
        | inr apart ↦
            let differ : id ≢ c = λ same. not_same id c same apart in
            let kept : of h₁ c ≡ of h c = first ∙ rw apart refl in
            (
              λ inside. rw (← there) (later.0 (omega arith)),
              λ outside. rw (← there) (later.1 (moved id left c outside) ∙ kept),
            )
      ]

  -- With a VMM that keeps run states as documented: when a first vCPU and then `num_cpus - 1` more were
  -- created, and what lies between left the first one's run state alone, the first CPU runs and every
  -- other one waits for its start-up message.
  pub cpus_start :
      (fd : ℕ) (vm : BhyveVm) (num_cpus : ℕ) (h h₁ h₂ h' : Host K) (vcpu : BhyveVcpu)
      (vcpus : List BhyveVcpu)
      → 0 < num_cpus
      → create_cpu (bhyve_hypervisor kernel fd) vm 0 h ≡ (ok vcpu, h₁)
      → of h₂ 0 ≡ of h₁ 0
      → create_aps (bhyve_hypervisor kernel fd) vm (num_cpus - 1) 1 h₂ ≡ (ok vcpus, h')
      → (of h' 0 ≡ vrs_run) × ((c : ℕ) → 0 < c → c < num_cpus → of h' c ≡ vrs_init)
  cpus_start fd vm num_cpus h h₁ h₂ h' vcpu vcpus pos first between rest =
      let aps = create_aps_states fd vm (num_cpus - 1) 1 h₂ h' vcpus rest in
      (
        (aps 0).1 (inl (omega arith)) ∙ between ∙ create_cpu_state fd vm 0 h h₁ vcpu first 0,
        λ c above below. (aps c).0 (omega arith) ∙ waits c above,
      )
