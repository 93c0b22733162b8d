-- ===== src/Start/Machine.antt =====
-- `main` of src/main.rs up to the threads of the vCPUs: what it sets up, in its order.
-- `S` is the host's state, `E` the hypervisor's errors, `M` a VM, `V` a vCPU and `P` a path. What comes
-- from elsewhere is in `Parts`. Messages are left out; the name of the VM is an argument.
pub mod Chain
pub mod Ram
pub mod Started
use ferrvm.Prelude.{
  ℕ, ◌-◌, Bool, true, false, Option, none, some, List, [], ◌∷◌, if◌then◌else◌, Result, ok, err,
}
use ferrvm.Memory.{GuestMemory, MemoryError, allocate, align_up}
use ferrvm.Bus.{BusRange, BusError}
use ferrvm.Pci.{PciRootBus}
use ferrvm.Cpu.{Vcpu}
use ferrvm.Boot.Errors.{BootError}
use ferrvm.Boot.Image.{Files}
use ferrvm.Boot.Load.{load_kernel}
use ferrvm.Mptable.{MptableError, write_mptable}
use ferrvm.Vm.Calls.{returns, fails, bind_out, map_err, relabel, Hypervisor}
use ferrvm.Start.{Config, bad_cpus, smp, ram_size, chosen_cmdline, gsi_com1}
use ferrvm.Start.Buses.{
  PortDevice, WindowDevice, PciFunction, wire_pio, wire_mmio, wire_pci, window_functions,
}
use ferrvm.Start.Cpus.{create_cpu, create_aps}

pub data StartError (E : Type 0) : Type 0 where
  bad_cpu_count : ℕ → StartError E
  host : E → StartError E
  memory_too_large : StartError E
  memory : MemoryError → StartError E
  no_kernel no_room no_disk : StartError E
  boot : BootError E → StartError E
  bus : BusError → StartError E
  mptable : MptableError → StartError E

-- `enter_raw` is `RawMode::enter`, `install_kick` the signal's handler, `native` is
-- `NativeHypervisor::new`, `opens` whether the disk's file opens; the last three are for the MP table.
pub record Parts (S E M V P : Type 0) : Type 0 where
  pub enter_raw : S → Result E (Unit {0}) × S
  pub install_kick : S → Result E (Unit {0}) × S
  pub native : S → Result E (Hypervisor S E M V) × S
  pub mmap : ℕ → Option ℕ
  pub files : Files P
  pub cpu : V → Vcpu S E
  pub opens : P → Bool
  pub timer_on_pin2 : Bool
  pub cpu_sig : ℕ
  pub cpu_feat : ℕ

-- Interrupt sinks are what they do to the host.
pub record Machine (S M V : Type 0) : Type 0 where
  pub vm : M
  pub ram : ℕ
  pub guest_mem : GuestMemory
  pub pio_bus : List (BusRange × PortDevice)
  pub mmio_bus : List (BusRange × WindowDevice)
  pub pci_root : PciRootBus PciFunction
  pub window : List PciFunction
  pub msi_sink : ℕ → ℕ → S → S
  pub rng_sink : Bool → S → S
  pub blk_sink : Option (Bool → S → S)
  pub serial_sink : Bool → S → S
  pub vcpus : List V

-- The VM with its memory.
pub record Vacant (S E M V : Type 0) : Type 0 where
  pub hypervisor : Hypervisor S E M V
  pub vm : M
  pub ram : ℕ
  pub guest_mem : GuestMemory

-- The two buses and the sinks.
pub record Wired (S : Type 0) : Type 0 where
  pub pio_bus : List (BusRange × PortDevice)
  pub mmio_bus : List (BusRange × WindowDevice)
  pub msi_sink : ℕ → ℕ → S → S
  pub rng_sink : Bool → S → S
  pub blk_sink : Option (Bool → S → S)
  pub serial_sink : Bool → S → S

-- The chain of src/main.rs, whose links stay shut.
unfoldable pub and_then :
    {S E A B : Type 0} → (A → S → Result E B × S) → Result E A × S → Result E B × S
and_then f out = bind_out f out

infixl 5 ◌>>=◌ ◌>>◌
abbrev pub ◌>>=◌ :
    {S E A B : Type 0} → (S → Result E A × S) → (A → S → Result E B × S) → S → Result E B × S
◌>>=◌ m f s = and_then f (m s)

abbrev pub ◌>>◌ :
    {S E B : Type 0} → (S → Result E (Unit {0}) × S) → (S → Result E B × S) → S → Result E B × S
◌>>◌ m k s = and_then (λ _. k) (m s)

-- A result that does not touch the host, as an error of the start.
abbrev pub lifted : {S E F A : Type 0} → (E → F) → Result E A → S → Result F A × S
lifted f r s = relabel f (r, s)

abbrev pub present : {S E A : Type 0} → E → Option A → S → Result E A × S
present e none = fails e
present e (some a) = returns a

-- `guest_mem.host_addr()`
abbrev pub host_addr : (ℕ → Option ℕ) → ℕ → ℕ
host_addr mmap ram = elim (mmap (align_up ram)) [ none ↦ 0 | some ptr ↦ ptr ]

module _ {S E M V P : Type 0} (parts : Parts S E M V P) (config : Config P) where
  unfoldable pub start_vm : List ℕ → S → Result (StartError E) (Vacant S E M V) × S
  start_vm vm_name = if bad_cpus config.cpus then fails (bad_cpu_count (config.cpus)) else (do
    map_err host (parts.enter_raw)
    map_err host (parts.install_kick)
    hypervisor ← map_err host (parts.native)
    vm ← map_err host (hypervisor.create_vm vm_name)
    map_err host (hypervisor.setup vm)
    ram ← present memory_too_large (ram_size config.mem)
    guest_mem ← lifted memory (allocate (parts.mmap) ram)
    map_err host (hypervisor.register_memory_region vm 0 ram (host_addr parts.mmap ram))
    returns (record { hypervisor = hypervisor; vm = vm; ram = ram; guest_mem = guest_mem }))

  -- What `load_kernel` leaves: the host with the registers set, and guest memory.
  abbrev pub loaded :
      S → Result (BootError E) (S × GuestMemory) → Result (StartError E) GuestMemory × S
  loaded s (ok (s', mem)) = (ok mem, s')
  loaded s (err e) = (err (boot e), s)

  -- The registers that are read for the dump; their values are only printed.
  unfoldable pub dump_state : V → S → Result (StartError E) (Unit {0}) × S
  dump_state vcpu = do
    _ ← λ s. lifted host ((parts.cpu vcpu).get_regs s) s
    _ ← λ s. lifted host ((parts.cpu vcpu).get_sregs s) s
    returns tt

  -- The first vCPU and the kernel.
  unfoldable pub start_cpu : Vacant S E M V → S → Result (StartError E) (V × GuestMemory) × S
  start_cpu v = do
    vcpu ← map_err host (create_cpu (v.hypervisor) (v.vm) 0)
    if parts.files.exists config.kernel then returns tt else fails no_kernel
    mem ← λ s. loaded s (
        load_kernel (parts.cpu vcpu) (parts.files) s (v.guest_mem) (config.kernel)
          (chosen_cmdline config) (config.initramfs))
    dump_state vcpu
    returns (vcpu, mem)

  -- With a disk: its file is opened and its interrupt registered.
  abbrev pub wire_disk :
      Vacant S E M V → Option P → S → Result (StartError E) (Option (Bool → S → S)) × S
  wire_disk v none = returns none
  wire_disk v (some path) =
      if parts.opens path
      then (do sink ← map_err host (v.hypervisor.register_irq (v.vm) 14); returns (some sink))
      else fails no_disk

  -- The registrations on the port bus stand together at the start; in the source those of the COM ports
  -- follow the devices.
  unfoldable pub start_devices : Vacant S E M V → S → Result (StartError E) (Wired S) × S
  start_devices v = do
    pio ← lifted bus wire_pio
    mmio_result ← present no_room (wire_mmio (v.ram))
    mmio ← lifted bus mmio_result
    msi ← map_err host (v.hypervisor.msi_sink (v.vm))
    rng ← map_err host (v.hypervisor.register_irq (v.vm) 12)
    blk ← wire_disk v (config.disk)
    serial ← map_err host (v.hypervisor.register_irq (v.vm) gsi_com1)
    returns (record {
      pio_bus = pio;
      mmio_bus = mmio;
      msi_sink = msi;
      rng_sink = rng;
      blk_sink = blk;
      serial_sink = serial;
    })

  abbrev pub has_disk : Option P → Bool
  has_disk none = false
  has_disk (some path) = true

  -- The MP table, when there are several CPUs; `num_cpus as u8` is the number itself.
  abbrev pub mp_table : GuestMemory → S → Result (StartError E) GuestMemory × S
  mp_table mem =
      if smp config.cpus
      then lifted mptable
          (write_mptable (parts.timer_on_pin2) (parts.cpu_sig) (parts.cpu_feat) mem (config.cpus))
      else returns mem

  unfoldable pub start_aps :
      Vacant S E M V → V → GuestMemory → Wired S → S → Result (StartError E) (Machine S M V) × S
  start_aps v vcpu mem w = do
    aps ← map_err host (create_aps (v.hypervisor) (v.vm) (config.cpus - 1) 1)
    guest_mem ← mp_table mem
    returns (record {
      vm = v.vm;
      ram = v.ram;
      guest_mem = guest_mem;
      pio_bus = w.pio_bus;
      mmio_bus = w.mmio_bus;
      pci_root = wire_pci (has_disk config.disk);
      window = window_functions (has_disk config.disk);
      msi_sink = w.msi_sink;
      rng_sink = w.rng_sink;
      blk_sink = w.blk_sink;
      serial_sink = w.serial_sink;
      vcpus = vcpu ∷ aps;
    })

  unfoldable pub start : List ℕ → S → Result (StartError E) (Machine S M V) × S
  start vm_name = do
    v ← start_vm vm_name
    (vcpu, mem) ← start_cpu v
    w ← start_devices v
    start_aps v vcpu mem w
