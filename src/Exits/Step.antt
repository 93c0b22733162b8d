-- ===== src/Exits/Step.antt =====
-- `step_run` of src/kvm/core.rs and src/bhyve/core.rs: one entry into the guest and what its exit does.
-- The world is the host with the kernel, and the device states. `KVM_RUN` leaves the exit in the page
-- that the vCPU maps; `VM_RUN` is given the last exit's answer and fills a structure.
pub mod Kicks
use ferrvm.Prelude.{
  arith, ℕ, zero, suc, ◌+◌, ◌≡◌, ◌≢◌, refl, Bool, true, false, List, Option, some, if◌then◌else◌,
  Result, ok, err, u64, inl, inr, ◌⊎◌,
}
use ferrvm.Bus.{BusRange, BusDevice}
use ferrvm.Vm.Calls.{ErrorKind, interrupted, would_block, already_exists, other_kind}
use ferrvm.Vm.Kvm
use ferrvm.Vm.Kvm.{KvmVcpu, run_request}
use ferrvm.Exits.{ExitStats, total}
use ferrvm.Exits.Kvm.{KvmRun}
use ferrvm.Exits.Kvm as KvmExits
use ferrvm.Exits.Bhyve.{VmExit, NextEntry}
use ferrvm.Exits.Bhyve as BhyveExits
use ferrvm.Exits.Counted.{Counted, handle_exit-Counted}
use ferrvm.Exits.Run.{Stepped, go_on, halt, failed, run_loop}
use ferrvm.Exits.Run

-- Why a vCPU fails: the kernel's call, an exit that cannot be read, or a panic.
pub data StepError : Type 0 where
  run_failed : ErrorKind → StepError
  bad_exit panicked : StepError

-- `run` returns the kernel's own error, which the loop tells apart by its kind.
abbrev pub kvm_failure : ErrorKind → Stepped StepError
kvm_failure interrupted = Run.interrupted
kvm_failure would_block = Run.would_block
kvm_failure already_exists = failed (run_failed already_exists)
kvm_failure (other_kind k) = failed (run_failed (other_kind k))

abbrev pub goes_on : Bool → Stepped StepError
goes_on continue = if continue then go_on else halt

-- The page of a vCPU in the host, by its address.
pub record Pages (S : Type 0) : Type 0 where
  pub load : ℕ → S → KvmRun
  pub store : ℕ → KvmRun → S → S

module _ {S H D : Type 0} (kernel : Kvm.Kernel S) (pages : Pages S) (device : BusDevice H D)
    (pio_bus mmio_bus : List (BusRange × H)) where
  abbrev pub kvm_handled :
      KvmVcpu
      → ExitStats
      → S
      → D
      → Result (Unit {0}) (Bool × KvmRun × ExitStats × D)
      → Stepped StepError × ExitStats × (S × D)
  kvm_handled vcpu stats s d (ok (continue, page, stats', d')) =
      (goes_on continue, stats', (pages.store vcpu.kvm_run page s, d'))
  kvm_handled vcpu stats s d (err _) = (failed bad_exit, stats, (s, d))

  abbrev pub kvm_exited :
      KvmVcpu → ExitStats → D → Result ErrorKind ℕ × S → Stepped StepError × ExitStats × (S × D)
  kvm_exited vcpu stats d (err kind, s) = (kvm_failure kind, stats, (s, d))
  kvm_exited vcpu stats d (ok _, s) =
      kvm_handled vcpu stats s d
        (KvmExits.handle_exit device pio_bus mmio_bus (pages.load vcpu.kvm_run s) stats d)

  unfoldable pub kvm_step_run :
      KvmVcpu → ExitStats → S × D → Stepped StepError × ExitStats × (S × D)
  kvm_step_run vcpu stats (s, d) = kvm_exited vcpu stats d (kernel.ioctl vcpu.fd run_request s)

-- `VM_RUN` with the CPU, the last exit's answer, and the exit that it fills in.
pub record Runner (K : Type 0) : Type 0 where
  pub vm_run : ℕ → ℕ → NextEntry → K → Result ErrorKind VmExit × K

-- A bhyve host with the vCPU's `next_cmd` and `next_entry_u`.
pub record Entering (K : Type 0) : Type 0 where
  pub host : K
  pub next_entry : NextEntry

module _ {K H D : Type 0} (runner : Runner K) (device : BusDevice H D)
    (pio_bus mmio_bus : List (BusRange × H)) where
  abbrev pub bhyve_handled :
      ExitStats
      → Entering K
      → D
      → Result (Unit {0}) (Bool × NextEntry × ExitStats × D)
      → Stepped StepError × ExitStats × (Entering K × D)
  bhyve_handled stats e d (ok (continue, next, stats', d')) =
      (goes_on continue, stats', (record e { next_entry = next }, d'))
  bhyve_handled stats e d (err _) = (failed panicked, stats, (e, d))

  -- `run` makes a text of the kernel's error, and `step_run` an error of kind `Other` of the text.
  abbrev pub bhyve_exited :
      ExitStats
      → NextEntry
      → D
      → Result ErrorKind VmExit × K
      → Stepped StepError × ExitStats × (Entering K × D)
  bhyve_exited stats next d (err kind, k) =
      (failed (run_failed kind), stats, (record { host = k; next_entry = next }, d))
  bhyve_exited stats next d (ok vm_exit, k) =
      bhyve_handled stats (record { host = k; next_entry = next }) d
        (BhyveExits.handle_exit device pio_bus mmio_bus vm_exit stats d)

  unfoldable pub bhyve_step_run :
      ℕ → ℕ → ExitStats → Entering K × D → Stepped StepError × ExitStats × (Entering K × D)
  bhyve_step_run vm_fd id stats (e, d) =
      bhyve_exited stats (e.next_entry) d (runner.vm_run vm_fd id (e.next_entry) (e.host))
