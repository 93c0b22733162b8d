-- ===== src/Start/Cpus.antt =====
-- The vCPUs that src/main.rs creates, and the run states in which src/bhyve/core.rs leaves them.
-- The first vCPU is created before the kernel is loaded, the others after the devices.
pub mod States
use ferrvm.Prelude.{
  arith, ℕ, zero, suc, ◌+◌, ◌<◌, ◌≤◌, ◌≡◌, ◌≢◌, refl, sym, ◌∙◌, ap, inl, inr, ◌⊎◌, ◌==◌, ==_iff,
  Bool, true, false, Bool-cases, if◌then◌else◌, List, [], ◌∷◌, Result, ok, err, length,
}
use ferrvm.Vm.Calls.{returns, bind_out, ◌>>=◌, ◌>>◌, ErrorKind, Hypervisor, bind_out_ok, done_ok}
use ferrvm.Vm.Bhyve
use ferrvm.Vm.Bhyve.{in_host, call, probe, bhyve_hypervisor}
use ferrvm.Vm.Bhyve.Requests.{
  Kernel, Request, Host, BhyveVm, BhyveVcpu, BhyveError, VmActivateCpu, VmVcpuReset, VmRunState,
  VmCapType, vm_activate_cpu, vm_reset_cpu, vm_set_run_state, vm_get_capability, ioctl_failed,
  vrs_run, vrs_init,
}

module _ {S E M V : Type 0} (hypervisor : Hypervisor S E M V) where
  -- `create_vcpu` and then `setup`.
  unfoldable pub create_cpu : M → ℕ → S → Result E V × S
  create_cpu vm id = do
    vcpu ← hypervisor.create_vcpu vm id
    hypervisor.setup_vcpu vcpu
    returns vcpu

  -- The loop `for id in 1..num_cpus`, with `left` CPUs to go.
  unfoldable pub create_aps : M → ℕ → ℕ → S → Result E (List V) × S
  create_aps vm zero id = returns []
  create_aps vm (suc left) id = do
    ap ← create_cpu vm id
    rest ← create_aps vm left (id + 1)
    returns (ap ∷ rest)

  -- The loop creates as many vCPUs as it has rounds.
  pub length-create_aps :
      (vm : M) (left id : ℕ) (s s' : S) (vcpus : List V)
      → create_aps vm left id s ≡ (ok vcpus, s')
      → length vcpus ≡ left
  unfolding create_aps
  length-create_aps vm zero id s s' vcpus h = let same : [] ≡ vcpus = cc in rw (← same) refl
  length-create_aps vm (suc left) id s s' vcpus h =
      let (ap, s₁, made, more) =
        bind_out_ok (λ ap. create_aps vm left (id + 1) >>= λ rest. returns (ap ∷ rest))
          (create_cpu vm id s) s' vcpus h in
      let (rest, s₂, others, end) =
        bind_out_ok (λ rest. returns (ap ∷ rest)) (create_aps vm left (id + 1) s₁) s' vcpus more in
      let same : ap ∷ rest ≡ vcpus = cc in
      rw (← same) (omega (arith, length-create_aps vm left (id + 1) s₁ s₂ rest others))

-- What the VMM documents of run states: a CPU's state is the one set last, resetting a CPU leaves the
-- others alone, and activating a CPU or asking for a capability leaves them all alone.
pub record KeepsRunStates {K : Type 0} (kernel : Kernel K) (run_state : K → ℕ → ℕ) : Type 0 where
  pub set_one :
      (fd : ℕ) (r : VmRunState) (k k' : K) (n c : ℕ)
      → kernel.ioctl fd (vm_set_run_state r) k ≡ (ok n, k')
      → run_state k' c ≡ (if r.vcpuid == c then r.state else run_state k c)
  pub reset_others :
      (fd : ℕ) (r : VmVcpuReset) (k k' : K) (n c : ℕ)
      → kernel.ioctl fd (vm_reset_cpu r) k ≡ (ok n, k')
      → (r.vcpuid == c) ≡ false
      → run_state k' c ≡ run_state k c
  pub activate_keeps :
      (fd : ℕ) (r : VmActivateCpu) (k k' : K) (n c : ℕ)
      → kernel.ioctl fd (vm_activate_cpu r) k ≡ (ok n, k')
      → run_state k' c ≡ run_state k c
  pub capability_keeps :
      (fd id : ℕ) (cap : VmCapType) (k k' : K) (n c : ℕ)
      → kernel.ioctl fd (vm_get_capability id cap) k ≡ (ok n, k')
      → run_state k' c ≡ run_state k c

abbrev pub start_state : ℕ → ℕ
start_state id = if id == 0 then vrs_run else vrs_init

in_host_ok :
    {K A : Type 0} (segid : ℕ) (out : Result ErrorKind A × K) (a : A) (h' : Host K)
    → in_host segid out ≡ (ok a, h')
    → out ≡ (ok a, h'.kernel_state)
in_host_ok segid (ok b, k) a h' e = cc
in_host_ok segid (err b, k) a h' e = absurd (cc)

module _ {K : Type 0} (kernel : Kernel K) where
  -- A call that succeeded reached the kernel.
  pub call_ok :
      (fd : ℕ) (request : Request) (h h' : Host K)
      → call kernel fd request h ≡ (ok tt, h')
      → (n : ℕ) × (kernel.ioctl fd request (h.kernel_state) ≡ (ok n, h'.kernel_state))
  call_ok fd request h h' e =
      let out = kernel.ioctl fd request (h.kernel_state) in
      let (n, asked) = done_ok (ioctl_failed request) (in_host (h.next_segid) out) h' e in
      (n, in_host_ok (h.next_segid) out n h' asked)
