-- ===== src/Exits/Step/Kicks.antt =====
-- The loop of src/vcpu.rs over the steps of src/kvm/core.rs and src/bhyve/core.rs.
use ferrvm.Prelude.{
  ℕ, suc, ◌+◌, ◌≡◌, refl, ap, ◌∙◌, Bool, true, false, List, some, ok, err, u64, inl, inr, ◌⊎◌,
}
use ferrvm.Bus.{BusRange, BusDevice}
use ferrvm.Vm.Calls.{ErrorKind, interrupted}
use ferrvm.Vm.Kvm
use ferrvm.Vm.Kvm.{KvmVcpu, run_request}
use ferrvm.Exits.{ExitStats, total}
use ferrvm.Exits.Counted.{handle_exit-Counted}
use ferrvm.Exits.Run.{Stepped, go_on, halt, run_loop}
use ferrvm.Exits.Step.{
  StepError, run_failed, kvm_failure, goes_on, Pages, kvm_handled, kvm_exited, kvm_step_run, Runner,
  Entering, bhyve_exited, bhyve_step_run,
}

goes_on_cases : (continue : Bool) → (goes_on continue ≡ go_on) ⊎ (goes_on continue ≡ halt)
goes_on_cases true = inl refl
goes_on_cases false = inr refl

module _ {S H D : Type 0} (kernel : Kvm.Kernel S) (pages : Pages S) (device : BusDevice H D)
    (pio_bus mmio_bus : List (BusRange × H)) where
  -- With KVM, an entry into the guest that the kernel made ends in going on or in halting and counts one
  -- exit, modulo 2^64; one that it refused counts none, changes no device and ends by the error's kind.
  pub kvm_step_run_counts :
      (vcpu : KvmVcpu) (stats : ExitStats) (s : S) (d : D)
      → ((n : ℕ) (s' : S)
          → kernel.ioctl (vcpu.fd) run_request s ≡ (ok n, s')
          → (how : Stepped StepError) × (stats' : ExitStats) × (w : S × D) × (kvm_step_run kernel
                pages device pio_bus mmio_bus vcpu stats
                (s, d)
              ≡ (how, stats', w))
            × ((how ≡ go_on) ⊎ (how ≡ halt))
            × (total stats' ≡ u64 (total stats + 1)))
        × ((kind : ErrorKind) (s' : S)
            → kernel.ioctl (vcpu.fd) run_request s ≡ (err kind, s')
            → kvm_step_run kernel pages device pio_bus mmio_bus vcpu stats (s, d)
              ≡ (kvm_failure kind, stats, (s', d)))
  unfolding kvm_step_run
  kvm_step_run_counts vcpu stats s d = (
    λ n s' entered.
        let (continue, page, stats', d', handled, counted) =
          handle_exit-Counted device pio_bus mmio_bus (pages.load (vcpu.kvm_run) s') stats d in
        (
          goes_on continue,
          stats',
          (pages.store (vcpu.kvm_run) page s', d'),
          ap (kvm_exited kernel pages device pio_bus mmio_bus vcpu stats d) entered
              ∙ ap (kvm_handled kernel pages device pio_bus mmio_bus vcpu stats s' d) handled,
          goes_on_cases continue,
          counted,
        ),
    λ kind s' refused. ap (kvm_exited kernel pages device pio_bus mmio_bus vcpu stats d) refused,
  )

  module _ (requested : S × D → Bool) (request : S × D → S × D) where
    -- With KVM, a vCPU that the kernel lets out with `EINTR` after a shutdown was asked for ends well,
    -- with the counts that it had.
    pub kvm_kick :
        (vcpu : KvmVcpu) (fuel : ℕ) (stats : ExitStats) (s s' : S) (d : D)
        → requested (s, d) ≡ false
        → kernel.ioctl (vcpu.fd) run_request s ≡ (err interrupted, s')
        → requested (s', d) ≡ true
        → run_loop requested request
            (kvm_step_run kernel pages device pio_bus mmio_bus vcpu)
            (suc (suc fuel))
            stats
            (s, d)
          ≡ some (ok tt, stats, (s', d))
    unfolding run_loop
    kvm_kick vcpu fuel stats s s' d running kicked asked =
        let stepped = (kvm_step_run_counts vcpu stats s d).1 interrupted s' kicked in
        rw (running, stepped, asked) refl

module _ {K H D : Type 0} (runner : Runner K) (device : BusDevice H D)
    (pio_bus mmio_bus : List (BusRange × H)) (requested : Entering K × D → Bool)
    (request : Entering K × D → Entering K × D) where
  -- With bhyve, when no shutdown is asked for at the start of a round, any refusal of the kernel ends the
  -- vCPU with an error, also an `EINTR` or an `EAGAIN`.
  pub bhyve_kick :
      (vm_fd id fuel : ℕ) (kind : ErrorKind) (stats : ExitStats) (e : Entering K) (k : K) (d : D)
      → requested (e, d) ≡ false
      → runner.vm_run vm_fd id (e.next_entry) (e.host) ≡ (err kind, k)
      → run_loop requested request
          (bhyve_step_run runner device pio_bus mmio_bus vm_fd id)
          (suc fuel)
          stats
          (e, d)
        ≡ some (err (run_failed kind), stats, (record e { host = k }, d))
  unfolding run_loop bhyve_step_run
  bhyve_kick vm_fd id fuel kind stats e k d running refused =
      let stepped =
        ap (bhyve_exited runner device pio_bus mmio_bus stats (e.next_entry) d) refused in
      rw (running, stepped) refl
