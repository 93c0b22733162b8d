-- ===== src/Vm/Kvm.antt =====
-- Setting up a VM in src/kvm/core.rs, over the kernel's calls.
-- `Request` is an ioctl with its argument; src/kvm/ioctl.rs turns a negative return into the error. The
-- two calls that fill a structure are apart. A file is its descriptor; the texts of errors are the
-- request and the kind. `KvmCpuid2` has its count and the entries, which are never looked at.
pub mod Numbers
pub mod Setup
use ferrvm.Prelude.{
  ℕ, ◌==◌, ltb, if◌then◌else◌, Bool, true, false, Option, none, some, List, Result, ok, err, length,
  replicate,
}
use ferrvm.Vm.Calls.{Sys, returns, fails, bind_out, ◌>>=◌, ◌>>◌, map_err, ErrorKind, Hypervisor}
use ferrvm.Vm.Sinks.{KvmIrqLevel, KvmMsi, kvm_irq_level, kvm_msi}

pub record KvmUserspaceMemoryRegion : Type 0 where
  pub slot : ℕ
  pub flags : ℕ
  pub guest_phys_addr : ℕ
  pub memory_size : ℕ
  pub userspace_addr : ℕ

pub record KvmPitConfig : Type 0 where
  pub flags : ℕ
  pub pad : List ℕ

pub record KvmCpuid2 : Type 0 where
  pub nent : ℕ
  pub entries : List ℕ

pub data Request : Type 0 where
  get_api_version create_vm_request get_vcpu_mmap_size create_irqchip_request run_request : Request
  create_vcpu_request set_tss_addr : ℕ → Request
  set_user_memory_region_request : KvmUserspaceMemoryRegion → Request
  create_pit2_request : KvmPitConfig → Request
  irq_line : KvmIrqLevel → Request
  signal_msi : KvmMsi → Request
  set_cpuid2_request : KvmCpuid2 → Request

pub record Kernel (S : Type 0) : Type 0 where
  pub open_kvm : S → Result ErrorKind ℕ × S
  pub ioctl : ℕ → Request → S → Result ErrorKind ℕ × S
  pub ioctl_supported_cpuid : ℕ → KvmCpuid2 → S → Result ErrorKind KvmCpuid2 × S
  pub mmap : ℕ → ℕ → S → Result ErrorKind ℕ × S

pub data KvmError : Type 0 where
  unable_to_open : ErrorKind → KvmError
  unsupported_version : ℕ → KvmError
  ioctl_failed : Request → ErrorKind → KvmError
  supported_cpuid_failed : ErrorKind → KvmError
  too_many_entries : ℕ → KvmError
  mmap_failed : ErrorKind → KvmError
  mmap_null : KvmError

abbrev pub kvm_api_version : ℕ
kvm_api_version = 12

abbrev pub kvm_tss_address : ℕ
kvm_tss_address = 0xfffb_d000

abbrev pub kvm_pit_speaker_dummy : ℕ
kvm_pit_speaker_dummy = 1

-- The length of `entries` in the structure that is passed to the kernel.
abbrev pub max_cpuid_entries : ℕ
max_cpuid_entries = 256

pub record KvmVm : Type 0 where
  pub fd : ℕ
  pub kvm : ℕ
  pub mmap_size : ℕ

pub record KvmVcpu : Type 0 where
  pub fd : ℕ
  pub kvm_run : ℕ
  pub mmap_size : ℕ
  pub kvm : ℕ

module _ {S : Type 0} (kernel : Kernel S) where
  abbrev pub call : ℕ → Request → S → Result KvmError ℕ × S
  call fd request = map_err (ioctl_failed request) (kernel.ioctl fd request)

  -- A call of which only success matters.
  abbrev pub call_unit : ℕ → Request → S → Result KvmError (Unit {0}) × S
  call_unit fd request = call fd request >>= λ _. returns tt

  pub kvm_new : S → Result KvmError ℕ × S
  kvm_new = do
    fd ← map_err unable_to_open (kernel.open_kvm)
    api_version ← call fd get_api_version
    if api_version == kvm_api_version then returns fd else fails (unsupported_version api_version)

  unfoldable pub create_vm : ℕ → S → Result KvmError KvmVm × S
  create_vm kvm = do
    vm_fd ← call kvm create_vm_request
    mmap_size ← call kvm get_vcpu_mmap_size
    returns (record { fd = vm_fd; kvm = kvm; mmap_size = mmap_size })

  unfoldable pub create_irqchip : KvmVm → S → Result KvmError (Unit {0}) × S
  create_irqchip vm = call_unit vm.fd create_irqchip_request

  unfoldable pub create_pit2 : KvmVm → S → Result KvmError (Unit {0}) × S
  create_pit2 vm =
      call_unit vm.fd
        (create_pit2_request (record { flags = kvm_pit_speaker_dummy; pad = replicate 15 0 }))

  unfoldable pub set_tss_address : KvmVm → ℕ → S → Result KvmError (Unit {0}) × S
  set_tss_address vm addr = call_unit vm.fd (set_tss_addr addr)

  unfoldable pub setup : KvmVm → S → Result KvmError (Unit {0}) × S
  setup vm = do create_irqchip vm; create_pit2 vm; set_tss_address vm kvm_tss_address

  unfoldable pub set_user_memory_region : KvmVm → ℕ → ℕ → ℕ → ℕ → S → Result KvmError (Unit {0}) × S
  set_user_memory_region vm slot guest_phys_addr size userspace_addr = call_unit vm.fd (
      set_user_memory_region_request (record {
        slot = slot;
        flags = 0;
        guest_phys_addr = guest_phys_addr;
        memory_size = size;
        userspace_addr = userspace_addr;
      }))

  unfoldable pub create_vcpu : KvmVm → ℕ → S → Result KvmError KvmVcpu × S
  create_vcpu vm vcpu_id = do
    fd ← call vm.fd (create_vcpu_request vcpu_id)
    ptr ← map_err mmap_failed (kernel.mmap fd (vm.mmap_size))
    if ptr == 0
        then fails mmap_null
        else returns (record { fd = fd; kvm_run = ptr; mmap_size = vm.mmap_size; kvm = vm.kvm })

  -- `returned_entries > cpuid.entries.len()`
  unfoldable pub get_supported_cpuid : ℕ → S → Result KvmError KvmCpuid2 × S
  get_supported_cpuid kvm = do
    cpuid ← map_err supported_cpuid_failed (
        kernel.ioctl_supported_cpuid kvm
          (record { nent = 256; entries = replicate max_cpuid_entries 0 }))
    if ltb max_cpuid_entries cpuid.nent
        then fails (too_many_entries (cpuid.nent))
        else returns cpuid

  unfoldable pub set_cpuid2 : KvmVcpu → KvmCpuid2 → S → Result KvmError (Unit {0}) × S
  set_cpuid2 vcpu cpuid = call_unit vcpu.fd (set_cpuid2_request cpuid)

  unfoldable pub setup_vcpu : KvmVcpu → S → Result KvmError (Unit {0}) × S
  setup_vcpu vcpu = do cpuid_entries ← get_supported_cpuid (vcpu.kvm); set_cpuid2 vcpu cpuid_entries

  -- `KvmIrqSink::set_level` and `KvmMsiSink::signal`, which drop the kernel's answer.
  unfoldable pub set_level : ℕ → ℕ → Bool → S → S
  set_level vm_fd gsi asserted s = (kernel.ioctl vm_fd (irq_line (kvm_irq_level gsi asserted)) s).1

  unfoldable pub signal : ℕ → ℕ → ℕ → S → S
  signal vm_fd address value s = (kernel.ioctl vm_fd (signal_msi (kvm_msi address value)) s).1

  -- `impl Hypervisor for Kvm`, `impl Vm for KvmVm` and `Vcpu::setup`
  abbrev pub kvm_hypervisor : ℕ → Hypervisor S KvmError KvmVm KvmVcpu
  kvm_hypervisor kvm = record {
    create_vm = λ name. create_vm kvm;
    setup = setup;
    create_vcpu = create_vcpu;
    register_memory_region = λ vm gpa size hpa. set_user_memory_region vm 0 gpa size hpa;
    register_irq = λ vm irq. returns (set_level vm.fd irq);
    msi_sink = λ vm. returns (signal vm.fd);
    setup_vcpu = setup_vcpu;
  }
