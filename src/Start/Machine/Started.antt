-- ===== src/Start/Machine/Started.antt =====
-- What holds of the machine when `main` of src/main.rs gets as far as running the vCPUs.
use ferrvm.Prelude.{
  arith, ℕ, ◌-◌, ◌*◌, ◌<◌, ◌≤◌, ◌^◌, ◌≡◌, ◌≢◌, refl, sym, ap, ◌∙◌, false, Bool-cases, inl, inr, ◌⊎◌,
  Option, none, some, List, [], ◌∷◌, Result, ok, err, length, ok-injective,
}
use ferrvm.Memory.{GuestMemory, allocate}
use ferrvm.Boot.Errors.{BootError}
use ferrvm.Boot.Sized.Loaded.{load_kernel-size}
use ferrvm.Mptable.Written.{write_mptable-size}
use ferrvm.Bus.{BusRange, BusError, lookup}
use ferrvm.Vm.Calls.{Hypervisor, returns, relabel, relabel_ok}
use ferrvm.Start.{Config, bad_cpus, smp, ram_size, chosen_cmdline, pci_mmio_window_end}
use ferrvm.Start.Buses.{
  PortDevice, WindowDevice, pci_mmio, wire_pio, wire_mmio, wired, window, wire_pio_lem,
  wire_mmio_lem,
}
use ferrvm.Start.Cpus.{create_aps, length-create_aps}
use ferrvm.Start.Machine.Chain.{OnOk, on_ok, on_returns, on_bind, present_ok, lifted_ok}
use ferrvm.Start.Machine.Ram.{IsAllocated, ram_size_ok, align_up_whole, allocate_ok}
use ferrvm.Start.Machine.{
  StartError, host, Parts, Machine, Vacant, Wired, start_vm, start_devices, start_aps, start,
  start_cpu, mp_table, mptable, memory, memory_too_large, host_addr, loaded, present, lifted,
}

cpus_fit : (cpus : ℕ) → bad_cpus cpus ≡ false → (0 < cpus) × (cpus < 256)
cpus_fit cpus h = (ground arith, ground arith)

lt_or_le : (a b : ℕ) → (a < b) ⊎ (b ≤ a)
lt_or_le a b = ground arith

none-some : {A : Type 0} (a : A) → ◌≡◌ {A = Option A} none (some a) → ⊥
none-some a h = cc

registered :
    {E A : Type 0} (result : Result E A) (a b : A)
    → ◌≡◌ {A = Option (Result E A)} (some result) (some (ok b))
    → result ≡ ok a
    → a ≡ b
registered result a b h good = cc

-- What the two registrations give, when there was room for the window.
Wires : ℕ → List (BusRange × PortDevice) → List (BusRange × WindowDevice) → Type 0
Wires ram pio mmio =
    (ram < pci_mmio_window_end) × (pio ≡ wired) × (mmio ≡ (window ram, pci_mmio) ∷ [])

Wires_lem :
    (ram : ℕ) (pio : List (BusRange × PortDevice))
    (result : Result BusError (List (BusRange × WindowDevice)))
    (mmio : List (BusRange × WindowDevice))
    → wire_pio ≡ ok pio
    → wire_mmio ram ≡ some result
    → result ≡ ok mmio
    → Wires ram pio mmio
unfolding Wires
Wires_lem ram pio result mmio ports room good = elim (lt_or_le ram pci_mmio_window_end) [
  | inl low ↦
      let made = ((wire_mmio_lem ram).0 low).0 in
      (
        low,
        sym (ok-injective wired pio (sym wire_pio_lem.0 ∙ ports)),
        registered result mmio ((window ram, pci_mmio) ∷ []) (sym room ∙ made) good,
      )
  | inr high ↦ absurd (none-some result (sym ((wire_mmio_lem ram).1 high) ∙ room))
]

module _ {S E M V P : Type 0} (parts : Parts S E M V P) (config : Config P) where
  -- The hypervisor accepted the mapping of this many bytes as the VM's memory from address 0 on.
  pub record IsGiven (ram : ℕ) (vm : M) : Type 0 where
    pub hypervisor : Hypervisor S E M V
    pub ptr : ℕ
    pub before : S
    pub after : S
    pub asking : S
    pub asked : S
    pub is_native : parts.native before ≡ (ok hypervisor, after)
    pub mapped : parts.mmap ram ≡ some ptr
    pub some_address : ptr ≢ 0
    pub accepted : hypervisor.register_memory_region vm 0 ram ptr asking ≡ (ok tt, asked)

  -- The number of CPUs and the size of memory are those of the configuration.
  abbrev IsVacant : Vacant S E M V → Type 0
  IsVacant v =
      (0 < config.cpus)
      × (config.cpus < 256)
      × (v.ram ≡ config.mem * 2 ^ 20)
      × (v.guest_mem.size ≡ v.ram)
      × IsGiven v.ram v.vm

  given_lem :
      (hypervisor : Hypervisor S E M V) (vm : M) (ram : ℕ) (mem : GuestMemory)
      (s s' s₃ s₄ s₁ s₂ : S)
      → present {E = StartError E} memory_too_large (ram_size config.mem) s₃ ≡ (ok ram, s₄)
      → relabel host (parts.native s) ≡ (ok hypervisor, s')
      → lifted {F = StartError E} memory (allocate parts.mmap ram) s₄ ≡ (ok mem, s₁)
      → relabel host (hypervisor.register_memory_region vm 0 ram (host_addr parts.mmap ram) s₁)
        ≡ (ok tt, s₂)
      → (mem.size ≡ ram) × IsGiven ram vm
  unfolding IsAllocated
  given_lem hypervisor vm ram mem s s' s₃ s₄ s₁ s₂ sized native allocated accepted =
      let whole =
        align_up_whole (config.mem) ram
          (present_ok memory_too_large (ram_size config.mem) ram s₃ s₄ sized) in
      let (size, mapped, set) =
        allocate_ok (parts.mmap) ram mem whole
          (lifted_ok memory (allocate parts.mmap ram) mem s₄ s₁ allocated) in
      (
        size,
        record {
          hypervisor = hypervisor;
          ptr = host_addr parts.mmap ram;
          before = s;
          after = s';
          asking = s₁;
          asked = s₂;
          is_native = relabel_ok host (parts.native s) s' hypervisor native;
          mapped = mapped;
          some_address = set;
          accepted = relabel_ok host _ s₂ tt accepted;
        },
      )

  start_vm_lem : (name : List ℕ) (s : S) → OnOk IsVacant (start_vm parts config name s)
  unfolding start_vm
  start_vm_lem name s = elim (Bool-cases (bad_cpus config.cpus)) [
    | inl bad ↦ rw (start_vm, bad) (unfold OnOk in tt)
    | inr fine ↦
        rw (start_vm, fine)
          (on_bind IsVacant _ _ λ _ _ _. on_bind IsVacant _ _ λ _ s₀ _.
            on_bind IsVacant _ _ λ hypervisor s₁ native. on_bind IsVacant _ _ λ vm _ _.
              on_bind IsVacant _ _ λ _ s₂ _. on_bind IsVacant _ _ λ ram s₃ sized.
                on_bind IsVacant _ _ λ mem s₄ allocated. on_bind IsVacant _ _ λ _ s₅ accepted.
                  on_returns (StartError E) IsVacant _ _ (
                    (cpus_fit (config.cpus) fine).0,
                    (cpus_fit (config.cpus) fine).1,
                    ram_size_ok (config.mem) ram
                        (present_ok _ (ram_size config.mem) ram s₂ s₃ sized),
                    (given_lem hypervisor vm ram mem s₀ s₁ s₂ s₃ s₄ s₅ sized native allocated
                        accepted).0,
                    (given_lem hypervisor vm ram mem s₀ s₁ s₂ s₃ s₄ s₅ sized native allocated
                        accepted).1,
                  ))
  ]

  loaded_ok :
      (s s' : S) (out : Result (BootError E) (S × GuestMemory)) (mem : GuestMemory)
      → loaded parts config s out ≡ (ok mem, s')
      → out ≡ ok (s', mem)
  loaded_ok s s' (ok (s₁, made)) mem h = cc
  loaded_ok s s' (err e) mem h = absurd (cc)

  -- Loading the kernel keeps the size of memory.
  abbrev IsLoaded : ℕ → V × GuestMemory → Type 0
  IsLoaded ram booted = (booted.1).size ≡ ram

  start_cpu_lem :
      (v : Vacant S E M V) (s : S) → OnOk (IsLoaded (v.guest_mem.size)) (start_cpu parts config v s)
  unfolding start_cpu
  start_cpu_lem v s = on_bind (IsLoaded _) _ _ λ vcpu _ _. on_bind (IsLoaded _) _ _ λ _ s₁ _.
      on_bind (IsLoaded _) _ _ λ mem s₂ loads. on_bind (IsLoaded _) _ _ λ _ _ _.
        on_returns (StartError E) (IsLoaded _) (vcpu, mem) _
          (load_kernel-size (parts.cpu vcpu) (v.guest_mem.size) (parts.files) s₁ s₂ (v.guest_mem)
            mem (config.kernel) (chosen_cmdline config) (config.initramfs)
            (loaded_ok s₁ s₂ _ mem loads) refl)

  returned :
      (mem mem' : GuestMemory) (s s' : S)
      → returns {S = S} {E = StartError E} mem s ≡ (ok mem', s')
      → mem ≡ mem'
  returned mem mem' s s' h = cc

  mp_table_size :
      (mem mem' : GuestMemory) (s s' : S)
      → mp_table parts config mem s ≡ (ok mem', s')
      → mem'.size ≡ mem.size
  mp_table_size mem mem' s s' h = elim (Bool-cases (smp config.cpus)) [
    | inl several ↦
        write_mptable-size (parts.timer_on_pin2) (parts.cpu_sig) (parts.cpu_feat) (config.cpus) mem
          mem' (lifted_ok {F = StartError E} mptable _ mem' s s' (rw several at h))
    | inr single ↦ ap (λ m. m.size) (sym (returned mem mem' s s' (rw single at h)))
  ]

  abbrev IsWired : ℕ → Wired S → Type 0
  IsWired ram w = Wires ram w.pio_bus w.mmio_bus

  start_devices_lem :
      (v : Vacant S E M V) (s : S) → OnOk (IsWired v.ram) (start_devices parts config v s)
  unfolding start_devices
  start_devices_lem v s = on_bind (IsWired v.ram) _ _ λ pio s₁ ports.
      on_bind (IsWired v.ram) _ _ λ result s₂ room. on_bind (IsWired v.ram) _ _ λ mmio s₃ good.
        on_bind (IsWired v.ram) _ _ λ _ _ _. on_bind (IsWired v.ram) _ _ λ _ _ _.
          on_bind (IsWired v.ram) _ _ λ _ _ _. on_bind (IsWired v.ram) _ _ λ _ _ _.
            on_returns (StartError E) (IsWired v.ram) _ _ (
              Wires_lem (v.ram) pio result mmio (lifted_ok _ wire_pio pio s s₁ ports)
                (present_ok _ (wire_mmio (v.ram)) result s₁ s₂ room)
                (lifted_ok _ result mmio s₂ s₃ good))

  -- The machine that the threads of the vCPUs get.
  pub record IsStarted (m : Machine S M V) : Type 0 where
    pub some_cpu : 0 < config.cpus
    pub few_cpus : config.cpus < 256
    pub all_cpus : length m.vcpus ≡ config.cpus
    pub all_ram : m.ram ≡ config.mem * 2 ^ 20
    pub guest_ram : m.guest_mem.size ≡ config.mem * 2 ^ 20
    pub given_ram : IsGiven (config.mem * 2 ^ 20) m.vm
    pub room : m.ram < pci_mmio_window_end
    pub ports : m.pio_bus ≡ wired
    pub window_above : m.mmio_bus ≡ (window m.ram, pci_mmio) ∷ []

  start_aps_lem :
      (v : Vacant S E M V) (vcpu : V) (mem : GuestMemory) (w : Wired S) (s : S)
      → IsVacant v
      → mem.size ≡ v.guest_mem.size
      → IsWired v.ram w
      → OnOk IsStarted (start_aps parts config v vcpu mem w s)
  unfolding start_aps Wires
  start_aps_lem v vcpu mem w s ready same wires = on_bind IsStarted _ _ λ aps s₁ made.
      on_bind IsStarted _ _ λ mem' s₂ written. on_returns (StartError E) IsStarted _ _ (record {
        some_cpu = ready.0;
        few_cpus = ready.1;
        all_cpus = omega (
          arith,
          length-create_aps (v.hypervisor) (v.vm) (config.cpus - 1) 1 s s₁ aps (
              relabel_ok host (create_aps (v.hypervisor) (v.vm) (config.cpus - 1) 1 s) s₁ aps made),
        );
        all_ram = ready.2;
        guest_ram = mp_table_size mem mem' s₁ s₂ written ∙ same ∙ ready.3 ∙ ready.2;
        given_ram = rw (ready.2) at (ready.4);
        room = wires.0;
        ports = wires.1;
        window_above = wires.2;
      })

  -- When start-up gets as far as running the vCPUs, there are as many of them as were asked for, between
  -- 1 and 255, guest memory has exactly the size asked for, the hypervisor accepted the mapping of just
  -- that many bytes, where `mmap` put them, as the VM's memory from address 0 on, both buses are wired, and
  -- no address below the end of RAM leads to a device.
  pub start_lem :
      (name : List ℕ) (s s' : S) (m : Machine S M V)
      → start parts config name s ≡ (ok m, s')
      → IsStarted m × ((addr : ℕ) → addr < m.ram → lookup addr m.mmio_bus ≡ none)
  unfolding start
  start_lem name s s' m h =
      let chain : OnOk IsStarted (start parts config name s) = on_bind IsStarted _ _ λ v s₁ vacant.
        on_bind IsStarted _ _ λ booted s₂ boots. on_bind IsStarted _ _ λ w s₃ devices.
          start_aps_lem v booted.0 booted.1 w s₃
            (on_ok IsVacant (start_vm parts config name s) v s₁ (start_vm_lem name s) vacant)
            (on_ok (IsLoaded (v.guest_mem.size)) (start_cpu parts config v s₁) booted s₂
              (start_cpu_lem v s₁) boots)
            (on_ok (IsWired v.ram) (start_devices parts config v s₂) w s₃ (start_devices_lem v s₂)
              devices) in
      let started = on_ok IsStarted (start parts config name s) m s' chain h in
      let outside = ((wire_mmio_lem (m.ram)).0 (started.room)).2 in
      (started, λ addr below. rw (started.window_above) (outside addr ∙ ground arith))
