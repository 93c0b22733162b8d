-- ===== src/Vm/Kvm/Numbers.antt =====
-- src/kvm/ioctl.rs: request numbers, and the ones of src/kvm/api.rs.
-- The size of a structure is that of its C layout, `size_of`.
use ferrvm.Prelude.{arith, ℕ, ◌+◌, ◌*◌, ◌/◌, ◌%◌, ◌^◌, ◌<◌, ◌≡◌, refl, bit_or, ◌<<<◌, u32}
use ferrvm.Prelude.Bits.{bit_or_fields, bit_or_low, bit_or_gap}

abbrev pub ioc_none : ℕ
ioc_none = 0

abbrev pub ioc_write : ℕ
ioc_write = 1

abbrev pub ioc_read : ℕ
ioc_read = 2

-- `_IOC_TYPESHIFT`, `_IOC_SIZESHIFT` and `_IOC_DIRSHIFT`; the number's own shift is 0.
abbrev pub type_shift : ℕ
type_shift = 8

abbrev pub size_shift : ℕ
size_shift = 16

abbrev pub dir_shift : ℕ
dir_shift = 30

unfoldable pub ioc : ℕ → ℕ → ℕ → ℕ → ℕ
ioc dir type_code nr size =
    bit_or
      (bit_or (bit_or (u32 (dir <<< dir_shift)) (u32 (type_code <<< type_shift))) (u32 (nr <<< 0)))
      (u32 (size <<< size_shift))

abbrev pub io : ℕ → ℕ → ℕ
io type_code nr = ioc ioc_none type_code nr 0

abbrev pub ior : ℕ → ℕ → ℕ → ℕ
ior size type_code nr = ioc ioc_read type_code nr size

abbrev pub iow : ℕ → ℕ → ℕ → ℕ
iow size type_code nr = ioc ioc_write type_code nr size

abbrev pub iowr : ℕ → ℕ → ℕ → ℕ
iowr size type_code nr = ioc (bit_or ioc_read ioc_write) type_code nr size

ioc_sum :
    (dir type_code nr size : ℕ)
    → dir < 4
    → type_code < 2 ^ 8
    → nr < 2 ^ 8
    → size < 2 ^ 14
    → ioc dir type_code nr size ≡ dir * 2 ^ 30 + type_code * 2 ^ 8 + nr + size * 2 ^ 16
unfolding ioc
ioc_sum dir type_code nr size h₁ h₂ h₃ h₄ =
    let d : u32 (dir <<< 30) ≡ dir * 2 ^ 30 = omega arith in
    let t : u32 (type_code <<< 8) ≡ type_code * 2 ^ 8 = omega arith in
    let n : u32 (nr <<< 0) ≡ nr = omega arith in
    let z : u32 (size <<< 16) ≡ size * 2 ^ 16 = omega arith in
    let with_type = bit_or_fields 30 dir (type_code * 2 ^ 8) (omega arith) in
    let with_nr = bit_or_low 8 (dir * 2 ^ 30 + type_code * 2 ^ 8) nr (omega arith) (omega arith) in
    let with_size =
      bit_or_gap 16 14 (dir * 2 ^ 30 + type_code * 2 ^ 8 + nr) size (omega arith) (omega arith) in
    rw (d, t, n, z, with_type, with_nr, with_size) refl

-- A request number has the direction, the size, the device type and the number in its fields, where the
-- kernel looks for them, so that no two requests that differ in one share a number.
pub ioc_fields :
    (dir type_code nr size : ℕ)
    → dir < 4
    → type_code < 2 ^ 8
    → nr < 2 ^ 8
    → size < 2 ^ 14
    → (ioc dir type_code nr size / 2 ^ 30 ≡ dir)
      × (ioc dir type_code nr size / 2 ^ 16 % 2 ^ 14 ≡ size)
      × (ioc dir type_code nr size / 2 ^ 8 % 2 ^ 8 ≡ type_code)
      × (ioc dir type_code nr size % 2 ^ 8 ≡ nr)
unfolding ioc
ioc_fields dir type_code nr size h₁ h₂ h₃ h₄ =
    let sum = ioc_sum dir type_code nr size h₁ h₂ h₃ h₄ in
    (omega arith, omega arith, omega arith, omega arith)

-- The requests of src/kvm/api.rs, by their sizes in bytes.
abbrev pub kvmio : ℕ
kvmio = 0xae

abbrev pub kvm_get_supported_cpuid : ℕ
kvm_get_supported_cpuid = iowr 8 kvmio 0x05

abbrev pub kvm_set_user_memory_region : ℕ
kvm_set_user_memory_region = iow 32 kvmio 0x46

abbrev pub kvm_create_pit2 : ℕ
kvm_create_pit2 = iow 64 kvmio 0x77

abbrev pub kvm_irq_line : ℕ
kvm_irq_line = iow 8 kvmio 0x61

abbrev pub kvm_signal_msi : ℕ
kvm_signal_msi = iow 32 kvmio 0xa5

abbrev pub kvm_get_regs : ℕ
kvm_get_regs = ior 144 kvmio 0x81

abbrev pub kvm_set_regs : ℕ
kvm_set_regs = iow 144 kvmio 0x82

abbrev pub kvm_get_sregs : ℕ
kvm_get_sregs = ior 312 kvmio 0x83

abbrev pub kvm_set_sregs : ℕ
kvm_set_sregs = iow 312 kvmio 0x84

abbrev pub kvm_set_cpuid2 : ℕ
kvm_set_cpuid2 = iow 8 kvmio 0x90

abbrev pub kvm_run_number : ℕ
kvm_run_number = io kvmio 0x80
