-- ===== src/Boot/Load/BzImage.antt =====
-- A bzImage after `load_kernel` of src/boot.rs.
use ferrvm.Prelude.{
  arith, ℕ, ◌+◌, ◌*◌, ◌≤◌, ◌≡◌, refl, sym, ap, ◌∙◌, inl, inr, ◌⊎◌, Option, some, List, [], ◌∷◌,
  ◌++◌, ok, bind_ok, ok_bind, length, drop, to_le,
}
use ferrvm.Memory.{GuestMemory, read_at, write_at}
use ferrvm.Memory.Access.{write_at-read_at, write_at-read_at_disjoint}
use ferrvm.Cpu.{Vcpu, VcpuRegs, VcpuSregs, Segment}
use ferrvm.Cpu.Bhyve.Modes.{protected, flat, cpu_mode, paging_mode}
use ferrvm.Boot.Paging.Modes.{loader_modes}
use ferrvm.Boot.Errors.{in_memory, in_memory_ok}
use ferrvm.Boot.Image.{
  bz_image, detect_kernel_image_format, get_setup_sects, Files, read_file, load_initrd,
  setup_cmdline, himem_start, cmdline_addr,
}
use ferrvm.Boot.Image.Placed.{load_initrd_keeps, setup_cmdline_ok}
use ferrvm.Boot.Params.{setup_boot_params}
use ferrvm.Boot.Params.ZeroPage.{setup_boot_params_fields, setup_boot_params_keeps}
use ferrvm.Boot.Paging.{
  general_registers, protected_mode_sregs, make_flat32_segment, setup_protected_mode,
  setup_general_registers,
}
use ferrvm.Boot.Paging.Registers.{setup_general_registers_ok, setup_protected_mode_ok}
use ferrvm.Boot.Load.{load_payload, load_image, setup_mode, load_kernel}

load_payload_ok :
    {E : Type 0} (mem mem' : GuestMemory) (kernel : List ℕ) (setup_sects entry : ℕ)
    → load_payload {E = E} mem kernel setup_sects ≡ ok (entry, mem')
    → (entry ≡ himem_start)
      × (write_at mem himem_start (drop ((setup_sects + 1) * 512) kernel) ≡ ok mem')
unfolding load_payload
load_payload_ok {E = E} mem mem' kernel setup_sects entry h =
    let payload = drop ((setup_sects + 1) * 512) kernel in
    let put =
      bind_ok {B = ℕ × GuestMemory} (in_memory {E = E} (write_at mem himem_start payload))
        (λ m. ok (himem_start, m)) (entry, mem') (ground arith) in
    let same : put.0 ≡ mem' = ground arith in
    (ground arith, in_memory_ok {E = E} _ put.0 put.1 ∙ ap (λ m. ok m) same)

module _ {P C E : Type 0} (vcpu : Vcpu C E) (files : Files P) (c c' : C) (mem mem' : GuestMemory)
    (kernel_path : P) (cmdline : List ℕ) (initrd_path : Option P) (kernel : List ℕ)
    (setup_sects : ℕ) where
  -- The states between the steps of `load_kernel`.
  record Steps : Type 0 where
    entry : ℕ
    initrd_at : ℕ × ℕ
    loaded : GuestMemory
    with_initrd : GuestMemory
    with_params : GuestMemory
    c₁ : C
    payload_step : load_payload {E = E} mem kernel setup_sects ≡ ok (entry, loaded)
    initrd_step : load_initrd {E = E} files loaded initrd_path ≡ ok (initrd_at, with_initrd)
    params_step :
        setup_boot_params {E = E} with_initrd bz_image kernel cmdline (initrd_at.0) (initrd_at.1)
        ≡ ok with_params
    cmdline_step : setup_cmdline {E = E} with_params cmdline ≡ ok mem'
    registers_step : setup_general_registers vcpu entry c ≡ ok c₁
    mode_step : setup_protected_mode vcpu c₁ ≡ ok c'

  load_kernel-Steps :
      load_kernel vcpu files c mem kernel_path cmdline initrd_path ≡ ok (c', mem')
      → files.contents kernel_path ≡ some kernel
      → detect_kernel_image_format {E = E} kernel ≡ ok bz_image
      → get_setup_sects {E = E} kernel ≡ ok setup_sects
      → Steps
  unfolding load_kernel load_image setup_mode
  load_kernel-Steps h file format sects =
      let found : read_file {E = E} files kernel_path ≡ ok kernel = rw (read_file, file) in
      let after_read = sym (ok_bind (read_file {E = E} files kernel_path) _ kernel found) ∙ h in
      let after_detect =
        sym (ok_bind (detect_kernel_image_format {E = E} kernel) _ bz_image format) ∙ after_read in
      let image =
        bind_ok {B = C × GuestMemory} (load_image {E = E} bz_image mem kernel) _ (c', mem')
          after_detect in
      let initrd =
        bind_ok {B = C × GuestMemory} (load_initrd {E = E} files (image.0.1) initrd_path) _
          (c', mem') image.2 in
      let params =
        bind_ok {B = C × GuestMemory}
          (setup_boot_params {E = E} (initrd.0.1) bz_image kernel cmdline (initrd.0.0.0)
            (initrd.0.0.1))
          _ (c', mem') initrd.2 in
      let text =
        bind_ok {B = C × GuestMemory} (setup_cmdline {E = E} params.0 cmdline) _ (c', mem')
          params.2 in
      let cpu₁ =
        bind_ok {B = C × GuestMemory} (setup_general_registers vcpu (image.0.0) c) _ (c', mem')
          text.2 in
      let cpu₂ =
        bind_ok {B = C × GuestMemory} (setup_protected_mode vcpu cpu₁.0) _ (c', mem') cpu₁.2 in
      let last : text.0 ≡ mem' = ground arith in
      record {
        entry = image.0.0;
        initrd_at = initrd.0.0;
        loaded = image.0.1;
        with_initrd = initrd.0.1;
        with_params = params.0;
        c₁ = cpu₁.0;
        payload_step = sym (ok_bind (get_setup_sects {E = E} kernel) _ setup_sects sects) ∙ image.1;
        initrd_step = initrd.1;
        params_step = params.1;
        cmdline_step = text.1 ∙ ap (λ m. ok m) last;
        registers_step = cpu₁.1;
        mode_step = cpu₂.1 ∙ ap (λ x. ok x) (ground arith);
      }

-- What the boot protocol asks of the general registers; the stack is the loader's.
pub record IsEntry (regs : VcpuRegs) : Type 0 where
  pub entry : regs.rip ≡ 0x10_0000
  pub zero_page : regs.rsi ≡ 0x7000
  pub stack : (regs.rsp ≡ 0x8ff0) × (regs.rbp ≡ 0x8ff0)
  pub flags : regs.rflags ≡ 2

general_registers-IsEntry : (regs : VcpuRegs) → IsEntry (general_registers 0x10_0000 regs)
unfolding general_registers
general_registers-IsEntry regs = record {
  entry = refl;
  zero_page = refl;
  stack = (refl, refl);
  flags = refl;
}

-- A segment over the whole address space: code is kind 0b1011, data 0b0011.
abbrev pub IsFlat : ℕ → Segment → Type 0
IsFlat kind seg =
    (seg.base ≡ 0)
    × (seg.limit ≡ 0xffff_ffff)
    × (seg.kind ≡ kind)
    × (seg.g ≡ 1)
    × (seg.db ≡ 1)
    × (seg.l ≡ 0)

-- What the boot protocol asks of the special registers.
pub record IsFlatProtected (sregs : VcpuSregs) : Type 0 where
  pub mode : cpu_mode sregs ≡ protected
  pub paging : paging_mode sregs ≡ flat
  pub code : IsFlat 0b1011 sregs.cs
  pub data_segment : IsFlat 0b0011 sregs.ds
  pub extra_segment : IsFlat 0b0011 sregs.es
  pub stack_segment : IsFlat 0b0011 sregs.ss

protected_mode_sregs-IsFlatProtected :
    (sregs : VcpuSregs) → IsFlatProtected (protected_mode_sregs sregs)
unfolding protected_mode_sregs make_flat32_segment
protected_mode_sregs-IsFlatProtected sregs =
    let modes = loader_modes sregs in
    record {
      mode = modes.2;
      paging = modes.3;
      code = (refl, refl, refl, refl, refl, refl);
      data_segment = (refl, refl, refl, refl, refl, refl);
      extra_segment = (refl, refl, refl, refl, refl, refl);
      stack_segment = (refl, refl, refl, refl, refl, refl);
    }

-- A bzImage whose payload ends below the RAM disk, when `load_kernel` succeeds: guest memory holds the
-- payload at 1 MiB and the command line with its zero at the address that the zero page names, and
-- the CPU has been given general registers with the entry point 1 MiB in RIP, the zero page's address in
-- RSI, the stack and the flags, and then special registers that are protected mode without paging, with
-- a flat 32-bit code segment and flat 32-bit data segments.
pub load_kernel_bz_image :
    {P C E : Type 0} (vcpu : Vcpu C E) (files : Files P) (c c' : C) (mem mem' : GuestMemory)
    (kernel_path : P) (cmdline : List ℕ) (initrd_path : Option P) (kernel : List ℕ)
    (setup_sects : ℕ)
    → load_kernel vcpu files c mem kernel_path cmdline initrd_path ≡ ok (c', mem')
    → files.contents kernel_path ≡ some kernel
    → detect_kernel_image_format {E = E} kernel ≡ ok bz_image
    → get_setup_sects {E = E} kernel ≡ ok setup_sects
    → 0x10_0000 + length (drop ((setup_sects + 1) * 512) kernel) ≤ 0x800_0000
    → (read_at mem' 0x10_0000 (length (drop ((setup_sects + 1) * 512) kernel))
        ≡ ok (drop ((setup_sects + 1) * 512) kernel))
      × (read_at mem' 0x2_0000 (length (cmdline ++ 0 ∷ [])) ≡ ok (cmdline ++ 0 ∷ []))
      × (read_at mem' (0x7000 + 0x228) 4 ≡ ok (to_le 4 0x2_0000))
      × ((regs : VcpuRegs) × (c₁ : C) × (sregs : VcpuSregs) × (vcpu.set_regs regs c ≡ ok c₁)
          × (vcpu.set_sregs sregs c₁ ≡ ok c')
          × IsEntry regs
          × IsFlatProtected sregs)
load_kernel_bz_image vcpu files c c' mem mem' kernel_path cmdline initrd_path kernel setup_sects h
      file format sects below =
    let payload = drop ((setup_sects + 1) * 512) kernel in
    let text = cmdline ++ 0 ∷ [] in
    let steps =
      load_kernel-Steps vcpu files c c' mem mem' kernel_path cmdline initrd_path kernel setup_sects
        h file format sects in
    let placed =
      load_payload_ok mem (steps.loaded) kernel setup_sects (steps.entry) (steps.payload_step) in
    let written = setup_cmdline_ok (steps.with_params) mem' cmdline (steps.cmdline_step) in
    let page =
      setup_boot_params_fields (steps.with_initrd) (steps.with_params) kernel cmdline _ _
        (steps.params_step) in
    let after_text =
      λ (other len : ℕ)
          (apart : (other + len ≤ cmdline_addr) ⊎ (cmdline_addr + length text ≤ other)).
        write_at-read_at_disjoint (steps.with_params) mem' cmdline_addr text other len written.1
          apart in
    let registers =
      setup_general_registers_ok vcpu c (steps.c₁) (steps.entry) (steps.registers_step) in
    let mode = setup_protected_mode_ok vcpu (steps.c₁) c' (steps.mode_step) in
    (
      after_text 0x10_0000 (length payload) (inr (omega (arith, written.0)))
          ∙ setup_boot_params_keeps (steps.with_initrd) (steps.with_params) kernel cmdline _ _
              0x10_0000 (length payload) (steps.params_step) (omega arith)
          ∙ load_initrd_keeps files (steps.loaded) (steps.with_initrd) initrd_path (steps.initrd_at)
              0x10_0000 (length payload) (steps.initrd_step) below
          ∙ write_at-read_at mem (steps.loaded) 0x10_0000 payload placed.1,
      write_at-read_at (steps.with_params) mem' 0x2_0000 text written.1,
      after_text (0x7000 + 0x228) 4 (inl (omega arith)) ∙ page.6,
      (
        general_registers 0x10_0000 (registers.0),
        steps.c₁,
        protected_mode_sregs (mode.0),
        rw placed.0 at registers.2,
        mode.2,
        general_registers-IsEntry (registers.0),
        protected_mode_sregs-IsFlatProtected (mode.0),
      ),
    )
