-- ===== src/Exits/Tests.antt =====
-- The theorems on exits at a device that counts writes, and at a vCPU that runs three times.
use ferrvm.Prelude.{
  arith, ℕ, zero, suc, ◌+◌, ◌<◌, ◌≡◌, ◌↔◌, Bool, true, false, List, [], ◌∷◌, some, Result, ok, err,
  ◌⊎◌, u64, to_le, from_le,
}
use ferrvm.Bus.{BusRange, BusDevice}
use ferrvm.Vm.Calls.{ErrorKind, interrupted}
use ferrvm.Vm.Kvm as KvmVm
use ferrvm.Vm.Kvm.{KvmVcpu, run_request}
use ferrvm.Exits.{ExitStats, new, total, count_hlt}
use ferrvm.Exits.Step.{StepError, kvm_failure, Pages, kvm_step_run}
use ferrvm.Exits.Step.Kicks.{kvm_step_run_counts}
use ferrvm.Exits.Kvm
use ferrvm.Exits.Bhyve
use ferrvm.Exits.Agree.{handle_mmio_exit_agrees}
use ferrvm.Exits.Run.{Stepped, go_on, halt, Runs, run_loop, run_loop_iff}

abbrev ports : List (BusRange × ℕ)
ports = (record { base = 0xd000_0000; len = 0x1000 }, 1) ∷ []

abbrev counter : BusDevice ℕ ℕ
counter = record {
  read = λ dev offset buffer s. (5 ∷ 6 ∷ [], s);
  write = λ dev offset bytes s. s + dev;
}

abbrev no_run : Kvm.KvmRun
no_run = record {
  exit_reason = 6;
  io_variant = record { direction = 0; size = 0; port = 0; count = 0 };
  io_data = [];
  mmio_variant = record { phys_addr = 0; bytes = []; len = 0; is_write = 0 };
}

handle_mmio_exit_agrees_example :
    let request : Bhyve.VmMmio = record {
      bytes = 2;
      read_flag = 1;
      gpa = 0xd000_0010;
      value = 9;
    } in
    let page : Kvm.KvmRun = record no_run {
      mmio_variant = record { phys_addr = 0xd000_0010; bytes = to_le 8 9; len = 2; is_write = 0 };
    } in
    let (page', stats', s') = Kvm.handle_mmio_exit counter ports page new 0 in
    Bhyve.handle_mmio_exit counter ports request new 0
    ≡ ok (record request { value = from_le (page'.mmio_variant.bytes) }, stats', s')
handle_mmio_exit_agrees_example =
    handle_mmio_exit_agrees counter ports no_run 0xd000_0010 9 2 true new 0 (omega arith)

-- The world is whether a shutdown is requested and how often the vCPU still goes on.
abbrev asked : Bool × ℕ → Bool
asked w = w.0

abbrev ask : Bool × ℕ → Bool × ℕ
ask w = (true, w.1)

abbrev countdown : ExitStats → Bool × ℕ → Stepped ℕ × ExitStats × (Bool × ℕ)
countdown stats (b, zero) = (halt, stats, (b, zero))
countdown stats (b, suc n) = (go_on, count_hlt stats, (b, n))

run_loop_iff_example :
    (run_loop asked ask countdown 4 new (false, 2)
      ≡ some (ok tt, record new { hlt_exits = 2 }, (false, 0)))
    ↔ ((n : ℕ) × (n < 4)
        × Runs asked ask countdown new
            (false, 2)
            n
            (ok tt)
            (record new { hlt_exits = 2 })
            (false, 0))
run_loop_iff_example =
    run_loop_iff asked ask countdown 4 new (record new { hlt_exits = 2 }) (false, 2) (false, 0)
      (ok tt)

abbrev entered : ℕ → Result ErrorKind ℕ × ℕ
entered zero = (err interrupted, 9)
entered (suc s) = (ok 0, s)

-- A host of which the page is all that matters, on which the guest ran twice and is then kicked.
abbrev kernel : KvmVm.Kernel ℕ
kernel = record {
  open_kvm = λ s. (ok 3, s);
  ioctl = λ fd request s. entered s;
  ioctl_supported_cpuid = λ kvm buffer s. (ok buffer, s);
  mmap = λ fd size s. (ok 4096, s);
}

abbrev pages : Pages ℕ
pages = record { load = λ address s. no_run; store = λ address page s. s }

abbrev vcpu : KvmVcpu
vcpu = record { fd = 5; kvm_run = 4096; mmap_size = 4096; kvm = 3 }

kvm_step_run_counts_example :
    ((n s' : ℕ)
      → kernel.ioctl 5 run_request 2 ≡ (ok n, s')
      → (how : Stepped StepError) × (stats' : ExitStats) × (w : ℕ × ℕ) × (kvm_step_run kernel pages
            counter ports ports vcpu new
            (2, 0)
          ≡ (how, stats', w))
        × ((how ≡ go_on) ⊎ (how ≡ halt))
        × (total stats' ≡ u64 (total new + 1)))
    × ((kind : ErrorKind) (s' : ℕ)
        → kernel.ioctl 5 run_request 2 ≡ (err kind, s')
        → kvm_step_run kernel pages counter ports ports vcpu new (2, 0)
          ≡ (kvm_failure kind, new, (s', 0)))
kvm_step_run_counts_example = kvm_step_run_counts kernel pages counter ports ports vcpu new 2 0
