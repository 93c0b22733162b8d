-- ===== src/Vm/Kvm/Setup.antt =====
-- What the kernel is asked while src/kvm/core.rs sets a vCPU up.
use ferrvm.Prelude.{
  arith, ℕ, ◌≤◌, ◌≡◌, ltb, if◌then◌else◌, Bool-cases, inl, inr, Result, ok, err, replicate,
}
use ferrvm.Vm.Calls.{ErrorKind, returns, fails, relabel, bind_out_ok, relabel_ok, done_ok}
use ferrvm.Vm.Kvm.{
  Kernel, KvmCpuid2, KvmVcpu, KvmError, set_cpuid2_request, max_cpuid_entries, get_supported_cpuid,
  set_cpuid2, setup_vcpu, too_many_entries, supported_cpuid_failed, ioctl_failed,
}

-- The structure that the supported entries are asked into.
abbrev pub cpuid_buffer : KvmCpuid2
cpuid_buffer = record { nent = 256; entries = replicate max_cpuid_entries 0 }

-- The answer, checked.
abbrev checked : {S : Type 0} → KvmCpuid2 → S → Result KvmError KvmCpuid2 × S
checked cpuid =
    if ltb max_cpuid_entries cpuid.nent
    then fails (too_many_entries (cpuid.nent))
    else returns cpuid

checked_ok :
    {S : Type 0} (cpuid r : KvmCpuid2) (s₁ s' : S)
    → checked cpuid s₁ ≡ (ok r, s')
    → (cpuid.nent ≤ max_cpuid_entries) × (cpuid ≡ r) × (s₁ ≡ s')
checked_ok {S} cpuid r s₁ s' h = elim (Bool-cases (ltb max_cpuid_entries cpuid.nent)) [
  | inl big ↦
      let bad : ◌≡◌ {A = Result KvmError KvmCpuid2 × S} (err (too_many_entries (cpuid.nent)), s₁)
          (ok r, s') =
        rw big at h in
      absurd (cc)
  | inr small ↦
      let good : ◌≡◌ {A = Result KvmError KvmCpuid2 × S} (ok cpuid, s₁) (ok r, s') =
        rw small at h in
      (ground arith, cc, cc)
]

get_supported_cpuid_ok :
    {S : Type 0} (kernel : Kernel S) (kvm : ℕ) (s s' : S) (cpuid : KvmCpuid2)
    → get_supported_cpuid kernel kvm s ≡ (ok cpuid, s')
    → (kernel.ioctl_supported_cpuid kvm cpuid_buffer s ≡ (ok cpuid, s'))
      × (cpuid.nent ≤ max_cpuid_entries)
unfolding get_supported_cpuid
get_supported_cpuid_ok {S} kernel kvm s s' cpuid h =
    let answer : Result ErrorKind KvmCpuid2 × S = kernel.ioctl_supported_cpuid kvm cpuid_buffer s in
    let (got, s₁, asked, passed) =
      bind_out_ok checked (relabel supported_cpuid_failed answer) s' cpuid h in
    let (small, same, there) = checked_ok got cpuid s₁ s' passed in
    let found = relabel_ok supported_cpuid_failed answer s₁ got asked in
    (rw (← same, ← there) found, rw (← same) small)

-- A vCPU that was set up has the entries that the kernel supports, at most 256 of them, and no other.
pub setup_vcpu_cpuid :
    {S : Type 0} (kernel : Kernel S) (vcpu : KvmVcpu) (s s' : S)
    → setup_vcpu kernel vcpu s ≡ (ok tt, s')
    → (cpuid : KvmCpuid2) × (s₁ : S) × (n : ℕ) × (kernel.ioctl_supported_cpuid
          (vcpu.kvm)
          cpuid_buffer
          s
        ≡ (ok cpuid, s₁))
      × (cpuid.nent ≤ max_cpuid_entries)
      × (kernel.ioctl (vcpu.fd) (set_cpuid2_request cpuid) s₁ ≡ (ok n, s'))
unfolding setup_vcpu set_cpuid2
setup_vcpu_cpuid kernel vcpu s s' h =
    let (cpuid, s₁, got, set) =
      bind_out_ok (set_cpuid2 kernel vcpu) (get_supported_cpuid kernel (vcpu.kvm) s) s' tt h in
    let (asked, small) = get_supported_cpuid_ok kernel (vcpu.kvm) s s₁ cpuid got in
    let (n, told) =
      done_ok (ioctl_failed (set_cpuid2_request cpuid))
        (kernel.ioctl (vcpu.fd) (set_cpuid2_request cpuid) s₁) s' set in
    (cpuid, s₁, n, asked, small, told)
