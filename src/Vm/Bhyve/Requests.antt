-- ===== src/Vm/Bhyve/Requests.antt =====
-- The structures and requests of src/bhyve/api.rs that src/bhyve/core.rs uses to set up a VM.
use ferrvm.Prelude.{ℕ, List, Result}
use ferrvm.Vm.Calls.{ErrorKind}
use ferrvm.Vm.Sinks.{VmIsaIrq, VmLapicMsi}

abbrev pub vm_max_namelen : ℕ
vm_max_namelen = 128

abbrev pub vm_max_seg_namelen : ℕ
vm_max_seg_namelen = 128

abbrev pub vmm_current_interface_version : ℕ
vmm_current_interface_version = 18

abbrev pub vrs_init : ℕ
vrs_init = 1

abbrev pub vrs_run : ℕ
vrs_run = 2

abbrev pub vrk_reset : ℕ
vrk_reset = 0

pub record VmCreateReq : Type 0 where
  pub name : List ℕ
  pub flags : ℕ

pub record VmDestroyReq : Type 0 where
  pub name : List ℕ

pub record VmActivateCpu : Type 0 where
  pub vcpuid : ℕ

pub record VmVcpuReset : Type 0 where
  pub vcpuid : ℕ
  pub kind : ℕ

pub record VmRunState : Type 0 where
  pub vcpuid : ℕ
  pub state : ℕ
  pub sipi_vector : ℕ
  pub pad : List ℕ

pub record VmMemseg : Type 0 where
  pub segid : ℕ
  pub len : ℕ
  pub name : List ℕ

pub record VmMemmap : Type 0 where
  pub gpa : ℕ
  pub segid : ℕ
  pub segoff : ℕ
  pub len : ℕ
  pub prot : ℕ
  pub flags : ℕ

pub data VmCapType : Type 0 where
  halt_exit mtrap_exit pause_exit enable_invpcid bpt_exit : VmCapType

pub data Request : Type 0 where
  vmm_interface_version vmm_vm_supported : Request
  vmm_create_vm : VmCreateReq → Request
  vmm_destroy_vm : VmDestroyReq → Request
  vm_activate_cpu : VmActivateCpu → Request
  vm_reset_cpu : VmVcpuReset → Request
  vm_set_run_state : VmRunState → Request
  vm_alloc_memseg : VmMemseg → Request
  vm_mmap_memseg : VmMemmap → Request
  vm_isa_assert_irq vm_isa_deassert_irq : VmIsaIrq → Request
  vm_lapic_msi_request : VmLapicMsi → Request
  vm_get_capability : ℕ → VmCapType → Request

-- `open_control` opens `VMM_CTL_DEV` and `open_vm` the device of the name below /dev/vmm.
-- `mmap_fixed` takes the host address, the length, the file and the offset.
pub record Kernel (K : Type 0) : Type 0 where
  pub open_control : K → Result ErrorKind ℕ × K
  pub open_vm : List ℕ → K → Result ErrorKind ℕ × K
  pub close : ℕ → K → K
  pub ioctl : ℕ → Request → K → Result ErrorKind ℕ × K
  pub mmap_fixed : ℕ → ℕ → ℕ → ℕ → K → Result ErrorKind ℕ × K

pub data BhyveError : Type 0 where
  unable_to_open : ErrorKind → BhyveError
  unsupported_version : ℕ → BhyveError
  not_supported : BhyveError
  ioctl_failed create_failed_after_destruction : Request → ErrorKind → BhyveError
  failed_to_open : List ℕ → ErrorKind → BhyveError
  mmap_failed : ErrorKind → BhyveError

-- The host: its kernel, and the counter `next_segid` of the one VM.
pub record Host (K : Type 0) : Type 0 where
  pub kernel_state : K
  pub next_segid : ℕ

pub record BhyveVm : Type 0 where
  pub fd : ℕ
  pub hypervisor : ℕ
  pub name : List ℕ

pub record BhyveVcpu : Type 0 where
  pub vm : BhyveVm
  pub id : ℕ
