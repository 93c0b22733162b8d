-- ===== src/Vm/Bhyve.antt =====
-- Setting up a VM in src/bhyve/core.rs, over the kernel's calls.
-- `Request` is an ioctl with its argument; src/bhyve/ioctl.rs turns a negative return into the error. The
-- calls that fill a structure are apart, and so are opening and closing a device and `mmap`. Texts are
-- lists of bytes, and those of errors are the request and the kind.
pub mod Requests
pub mod Names
pub mod Lifetime
use ferrvm.Prelude.{
  ℕ, ◌-◌, ◌+◌, ◌≡◌, ◌%◌, ◌^◌, ◌==◌, if◌then◌else◌, Bool, true, false, List, [], ◌∷◌, ◌++◌, Result,
  ok, err, length, replicate, take, min,
}
use ferrvm.Vm.Calls.{
  Sys, returns, fails, bind_out, ◌>>=◌, ◌>>◌, map_err, ErrorKind, already_exists, Hypervisor,
}
use ferrvm.Vm.Bhyve.Requests.{
  vm_max_namelen, vm_max_seg_namelen, vmm_current_interface_version, vrs_init, vrs_run, vrk_reset,
  VmCreateReq, VmDestroyReq, VmActivateCpu, VmVcpuReset, VmRunState, VmMemseg, VmMemmap, VmCapType,
  Request, Kernel, BhyveError, Host, BhyveVm, BhyveVcpu, halt_exit, mtrap_exit, pause_exit,
  enable_invpcid, bpt_exit, vmm_interface_version, vmm_vm_supported, vmm_create_vm, vmm_destroy_vm,
  vm_activate_cpu, vm_reset_cpu, vm_set_run_state, vm_alloc_memseg, vm_mmap_memseg,
  vm_isa_assert_irq, vm_isa_deassert_irq, vm_lapic_msi_request, vm_get_capability, unable_to_open,
  unsupported_version, not_supported, ioctl_failed, create_failed_after_destruction, failed_to_open,
  mmap_failed,
}
use ferrvm.Vm.Sinks.{VmIsaIrq, VmLapicMsi, vm_isa_irq, vm_lapic_msi}

-- `req.name` of `create_vm_req` and `destroy_vm_req`: the name cut to leave room for a NUL.
pub name_field : List ℕ → List ℕ
name_field name =
    let len = min (length name) (vm_max_namelen - 1) in
    take len name ++ replicate (vm_max_namelen - len) 0

abbrev pub create_vm_req : List ℕ → VmCreateReq
create_vm_req name = record { name = name_field name; flags = 0 }

abbrev pub destroy_vm_req : List ℕ → VmDestroyReq
destroy_vm_req name = record { name = name_field name }

-- A call in the kernel's part of the host.
abbrev pub in_host : {K A : Type 0} → ℕ → Result ErrorKind A × K → Result ErrorKind A × Host K
in_host segid (r, k) = (r, record { kernel_state = k; next_segid = segid })

abbrev pub capabilities : List VmCapType
capabilities = halt_exit ∷ mtrap_exit ∷ pause_exit ∷ enable_invpcid ∷ bpt_exit ∷ []

module _ {K : Type 0} (kernel : Kernel K) where
  abbrev pub ioctl : ℕ → Request → Host K → Result ErrorKind ℕ × Host K
  ioctl fd request h = in_host (h.next_segid) (kernel.ioctl fd request (h.kernel_state))

  -- A call of which only success matters.
  abbrev pub call : ℕ → Request → Host K → Result BhyveError (Unit {0}) × Host K
  call fd request = map_err (ioctl_failed request) (ioctl fd request) >>= λ _. returns tt

  abbrev pub supported : Result ErrorKind ℕ × Host K → Result BhyveError (Unit {0}) × Host K
  supported (ok _, h) = (ok tt, h)
  supported (err _, h) = (err not_supported, h)

  pub bhyve_new : Host K → Result BhyveError ℕ × Host K
  bhyve_new = do
    fd ← map_err unable_to_open (λ h. in_host (h.next_segid) (kernel.open_control (h.kernel_state)))
    api_version ← map_err (ioctl_failed vmm_interface_version) (ioctl fd vmm_interface_version)
    if api_version == vmm_current_interface_version
        then (do (λ h. supported (ioctl fd vmm_vm_supported h)); returns fd)
        else fails (unsupported_version api_version)

  unfoldable pub destroy_vm : ℕ → List ℕ → Host K → Result BhyveError (Unit {0}) × Host K
  destroy_vm fd name = call fd (vmm_destroy_vm (destroy_vm_req name))

  -- The answer to the first `VMM_CREATE_VM`: a VM of that name is destroyed and made again.
  unfoldable pub recreate :
      ℕ → List ℕ → Result ErrorKind ℕ × Host K → Result BhyveError (Unit {0}) × Host K
  recreate fd name (ok _, h) = (ok tt, h)
  recreate fd name (err already_exists, h) =
      (do
        destroy_vm fd name
        let request = vmm_create_vm (create_vm_req name)
        _ ← map_err (create_failed_after_destruction request) (ioctl fd request)
        returns tt)
        h
  recreate fd name (err kind, h) = (err (ioctl_failed (vmm_create_vm (create_vm_req name)) kind), h)

  -- `next_segid` of the new VM is 0.
  unfoldable pub create_vm : ℕ → List ℕ → Host K → Result BhyveError BhyveVm × Host K
  create_vm fd name = do
    λ h. recreate fd name (ioctl fd (vmm_create_vm (create_vm_req name)) h)
    vm_fd ←
        map_err (failed_to_open name)
          (λ h. in_host (h.next_segid) (kernel.open_vm name (h.kernel_state)))
    λ h. (ok (record { fd = vm_fd; hypervisor = fd; name = name }), record h { next_segid = 0 })

  -- `Drop for BhyveVm`
  unfoldable pub drop_vm : BhyveVm → Host K → Host K
  drop_vm vm h =
      (destroy_vm vm.hypervisor (vm.name)
        (record h { kernel_state = kernel.close (vm.fd) (h.kernel_state) })).1

  abbrev pub setup : BhyveVm → Host K → Result BhyveError (Unit {0}) × Host K
  setup vm = returns tt

  unfoldable pub create_vcpu : BhyveVm → ℕ → Host K → Result BhyveError BhyveVcpu × Host K
  create_vcpu vm id = do
    call vm.fd (vm_activate_cpu (record { vcpuid = id }))
    call vm.fd (vm_reset_cpu (record { vcpuid = id; kind = vrk_reset }))
    returns (record { vm = vm; id = id })

  -- `fetch_add` on the 32-bit counter, then the segment, its place and its mapping.
  -- `PROT_READ | PROT_WRITE | PROT_EXEC` is 7.
  unfoldable pub register_memory_region :
      BhyveVm → ℕ → ℕ → ℕ → Host K → Result BhyveError (Unit {0}) × Host K
  register_memory_region vm gpa size hpa h =
      let segid = h.next_segid in
      (do
        call vm.fd (
            vm_alloc_memseg
              (record { segid = segid; len = size; name = replicate vm_max_seg_namelen 0 }))
        call vm.fd (
            vm_mmap_memseg
              (record { gpa = gpa; segid = segid; segoff = 0; len = size; prot = 7; flags = 0 }))
        _ ←
            map_err mmap_failed (λ g.
              in_host (g.next_segid) (kernel.mmap_fixed hpa size (vm.fd) gpa (g.kernel_state)))
        returns tt)
        (record h { next_segid = (segid + 1) % 2 ^ 32 })

  -- The loop over the capabilities, whose values are only printed.
  unfoldable pub probe : BhyveVcpu → List VmCapType → Host K → Result BhyveError (Unit {0}) × Host K
  probe vcpu [] = returns tt
  probe vcpu (cap ∷ rest) = do call vcpu.vm.fd (vm_get_capability (vcpu.id) cap); probe vcpu rest

  unfoldable pub setup_vcpu : BhyveVcpu → Host K → Result BhyveError (Unit {0}) × Host K
  setup_vcpu vcpu = do
    probe vcpu capabilities
    call vcpu.vm.fd (
        vm_set_run_state (record {
          vcpuid = vcpu.id;
          state = if vcpu.id == 0 then vrs_run else vrs_init;
          sipi_vector = 0;
          pad = replicate 3 0;
        }))

  -- `BhyveIrqSink::set_level` and `BhyveMsiSink::signal`, which drop the kernel's answer.
  unfoldable pub set_level : ℕ → ℕ → Bool → Host K → Host K
  set_level vm_fd gsi asserted h =
      (ioctl vm_fd
        (if asserted
          then vm_isa_assert_irq (vm_isa_irq gsi)
          else vm_isa_deassert_irq (vm_isa_irq gsi))
        h).1

  unfoldable pub signal : ℕ → ℕ → ℕ → Host K → Host K
  signal vm_fd address value h =
      (ioctl vm_fd (vm_lapic_msi_request (vm_lapic_msi address value)) h).1

  -- `impl Hypervisor for Bhyve`, `impl Vm for BhyveVm` and `Vcpu::setup`
  abbrev pub bhyve_hypervisor : ℕ → Hypervisor (Host K) BhyveError BhyveVm BhyveVcpu
  bhyve_hypervisor fd = record {
    create_vm = create_vm fd;
    setup = setup;
    create_vcpu = create_vcpu;
    register_memory_region = register_memory_region;
    register_irq = λ vm irq. returns (set_level vm.fd irq);
    msi_sink = λ vm. returns (signal vm.fd);
    setup_vcpu = setup_vcpu;
  }
