-- ===== src/Start/Tests.antt =====
-- The theorems on start-up at a machine of one CPU and 2 MiB, and at the ends of three threads.
use ferrvm.Prelude.{
  arith, ℕ, ◌<◌, ◌≡◌, refl, true, false, none, some, take, drop, ◌++◌, List, [], ◌∷◌, Result, ok,
  err, update,
}
use ferrvm.Prelude.Words.{to_le, from_le}
use ferrvm.Memory.{GuestMemory, write_at, checked_hva, allocate}
use ferrvm.Boot.Errors.{BootError}
use ferrvm.Bus.{lookup, register, new, get_key_value, insert, cmp}
use ferrvm.Cpu.{VcpuRegs, VcpuSregs}
use ferrvm.Boot.Image.{
  detect_kernel_image_format, get_setup_sects, is_elf64, is_bzimage, same_bytes, load_initrd,
  setup_cmdline,
}
use ferrvm.Boot.Params.{
  setup_boot_params, choose_header, read_setup_header, table_bytes, e820_map, params_bytes,
}
use ferrvm.Boot.Params.Header.{header_bytes}
use ferrvm.Boot.Paging.{
  general_registers, protected_mode_sregs, setup_protected_mode, setup_general_registers,
}
use ferrvm.Boot.Load.{load_kernel, load_image, load_payload, setup_mode}
use ferrvm.Boot.Samples.{image, small, no_regs, no_sregs, cpu, outcome_memory}
use ferrvm.Vm.Calls.{Hypervisor, returns, ErrorKind}
use ferrvm.Vm.Bhyve.{create_vcpu, setup_vcpu, probe}
use ferrvm.Vm.Bhyve.Requests.{Kernel, Request, Host, BhyveVm, vm_set_run_state}
use ferrvm.Start.Cpus.States.{cpus_start}
use ferrvm.Exits.{ExitStats}
use ferrvm.Exits
use ferrvm.Start.{Config, chosen_cmdline, default_cmdline, remove_all, strip_prefix}
use ferrvm.Start.Buses.{pci_mmio, wired, window_functions, wire_pio, wire_mmio, wire_pci, window}
use ferrvm.Start.Cpus.{create_cpu, create_aps, KeepsRunStates}
use ferrvm.Start.Join.{Joined, returned, panicked, failed, finish, wrapped, finish_lem}
use ferrvm.Start.Machine.{
  Parts, Machine, start, start_vm, start_cpu, start_devices, start_aps, and_then, dump_state,
}
use ferrvm.Start.Machine.Started.{IsStarted, start_lem}

abbrev threads : List (Joined ℕ)
threads = returned (ok (record Exits.new { io_exits = 3 })) ∷ returned (err 7) ∷ panicked ∷ []

finish_lem_example : finish threads ≡ (err (failed 7), wrapped (record Exits.new { io_exits = 3 }))
finish_lem_example = finish_lem threads

-- A hypervisor that refuses nothing; a VM and a vCPU are numbers.
abbrev Registers : Type 0
Registers = VcpuRegs × VcpuSregs

abbrev willing : Hypervisor Registers ℕ ℕ ℕ
willing = record {
  create_vm = λ name. returns 0;
  setup = λ vm. returns tt;
  create_vcpu = λ vm id. returns id;
  register_memory_region = λ vm gpa size hpa. returns tt;
  register_irq = λ vm irq. returns (λ level s. s);
  msi_sink = λ vm. returns (λ address value s. s);
  setup_vcpu = λ vcpu. returns tt;
}

abbrev parts : Parts Registers ℕ ℕ ℕ ℕ
parts = record {
  enter_raw = returns tt;
  install_kick = returns tt;
  native = returns willing;
  mmap = λ size. some 4096;
  files = record { exists = λ path. true; contents = λ path. some image };
  cpu = λ vcpu. cpu;
  opens = λ path. true;
  timer_on_pin2 = true;
  cpu_sig = 0;
  cpu_feat = 0;
}

abbrev one_cpu : Config ℕ
one_cpu = record {
  kernel = 0;
  initramfs = none;
  mem = 2;
  cpus = 1;
  cmdline = some (0x61 ∷ 0x20 ∷ 0x62 ∷ []);
  disk = some 1;
  debug = false;
}

-- With several CPUs the default loses the seven bytes from place 52 on.
cmdline_smp :
    chosen_cmdline (record one_cpu { cpus = 2; cmdline = none })
    ≡ take 52 default_cmdline ++ drop 59 default_cmdline
unfolding chosen_cmdline remove_all strip_prefix default_cmdline
cmdline_smp = refl

abbrev booted : Result (BootError ℕ) (Registers × GuestMemory)
booted = load_kernel cpu (parts.files) (no_regs, no_sregs) small 0 (0x61 ∷ 0x20 ∷ 0x62 ∷ []) none

abbrev machine : Machine Registers ℕ ℕ
machine = record {
  vm = 0;
  ram = 0x20_0000;
  guest_mem = outcome_memory booted;
  pio_bus = wired;
  mmio_bus = (window 0x20_0000, pci_mmio) ∷ [];
  pci_root = wire_pci true;
  window = window_functions true;
  msi_sink = λ address value s. s;
  rng_sink = λ level s. s;
  blk_sink = some (λ level s. s);
  serial_sink = λ level s. s;
  vcpus = 0 ∷ [];
}

abbrev registers : Registers
registers = (general_registers 0x10_0000 no_regs, protected_mode_sregs no_sregs)

start_lem_example :
    IsStarted parts one_cpu machine
    × ((addr : ℕ) → addr < 0x20_0000 → lookup addr (machine.mmio_bus) ≡ none)
unfolding start start_vm start_cpu start_devices start_aps create_cpu create_aps and_then dump_state
    allocate chosen_cmdline wire_pio wire_mmio register new get_key_value insert cmp load_kernel
    load_image load_payload setup_mode detect_kernel_image_format is_elf64 is_bzimage same_bytes
    get_setup_sects load_initrd setup_cmdline setup_general_registers setup_protected_mode
    setup_boot_params choose_header read_setup_header params_bytes header_bytes table_bytes e820_map
    write_at checked_hva to_le from_le
start_lem_example = start_lem parts one_cpu [] (no_regs, no_sregs) registers machine refl

abbrev after : Request → (ℕ → ℕ) → ℕ → ℕ
after (vm_set_run_state r) k = update k (r.vcpuid) (r.state)
after request k = k

-- A kernel whose state is the run state of each CPU.
abbrev states_kernel : Kernel (ℕ → ℕ)
states_kernel = record {
  open_control = λ k. (ok 3, k);
  open_vm = λ name k. (ok 4, k);
  close = λ fd k. k;
  ioctl = λ fd request k. (ok 0, after request k);
  mmap_fixed = λ addr len fd offset k. (ok addr, k);
}

state_of :
    (k k' : ℕ → ℕ) (n m c : ℕ)
    → ◌≡◌ {A = Result ErrorKind ℕ × (ℕ → ℕ)} (ok n, k) (ok m, k')
    → k' c ≡ k c
state_of k k' n m c h = let same : k ≡ k' = cc in rw same refl

states_kernel-KeepsRunStates : KeepsRunStates states_kernel (λ (k : ℕ → ℕ). k)
states_kernel-KeepsRunStates = record {
  set_one = λ fd r k k' n c h. state_of (update k (r.vcpuid) (r.state)) k' 0 n c h;
  reset_others = λ fd r k k' n c h apart. state_of k k' 0 n c h;
  activate_keeps = λ fd r k k' n c h. state_of k k' 0 n c h;
  capability_keeps = λ fd id cap k k' n c h. state_of k k' 0 n c h;
}

abbrev bhyve_vm : BhyveVm
bhyve_vm = record { fd = 4; hypervisor = 3; name = [] }

abbrev halted : Host (ℕ → ℕ)
halted = record { kernel_state = λ c. 0; next_segid = 0 }

abbrev first_runs : Host (ℕ → ℕ)
first_runs = record halted { kernel_state = update (λ c. 0) 0 2 }

abbrev others_wait : Host (ℕ → ℕ)
others_wait = record halted { kernel_state = update (update (λ c. 0) 0 2) 1 1 }

cpus_start_example :
    (others_wait.kernel_state 0 ≡ 2) × ((c : ℕ) → 0 < c → c < 2 → others_wait.kernel_state c ≡ 1)
unfolding create_cpu create_aps create_vcpu setup_vcpu probe
cpus_start_example =
    cpus_start states_kernel (λ (k : ℕ → ℕ). k) states_kernel-KeepsRunStates 3 bhyve_vm 2 halted
      first_runs first_runs others_wait (record { vm = bhyve_vm; id = 0 })
      (record { vm = bhyve_vm; id = 1 } ∷ []) (omega arith) refl refl refl
