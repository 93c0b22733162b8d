-- ===== src/Boot/Paging/Modes.antt =====
-- The processor's modes after the loader of src/boot.rs, as src/bhyve/core.rs tells them apart.
use ferrvm.Prelude.{arith, ℕ, ◌-◌, ◌*◌, ◌/◌, ◌%◌, ◌^◌, ◌≡◌, refl, ap, ◌∙◌, bit_and, bit_or}
use ferrvm.Prelude.Bits.{bit_and_field, bit_or_bit, bit_and_bit}
use ferrvm.Cpu.{VcpuSregs}
use ferrvm.Cpu.Bhyve.Modes.{cpu_mode, paging_mode, sixty_four_bit, sixty_four, protected, flat}
use ferrvm.Boot.Paging.{long_mode_sregs, protected_mode_sregs, generate_segment, clear_bits}

one_bit : (k a b : ℕ) → a / 2 ^ k % 2 ≡ b → bit_and a ((2 ^ 1 - 1) * 2 ^ k) ≡ b * 2 ^ k
one_bit k a b h = bit_and_field k 1 a ∙ ap (λ (x : ℕ). x * 2 ^ k) h

-- Bit `k` is set in `a | mask` when it is set in `mask`.
set_bit : (k a mask : ℕ) → mask / 2 ^ k % 2 ≡ 1 → bit_or a mask / 2 ^ k % 2 ≡ 1
set_bit k a mask h = omega (arith, bit_or_bit k a mask)

-- Bit `k` is clear in `value & !mask`.
clear_bit :
    (k value mask : ℕ) → (2 ^ 64 - 1 - mask) / 2 ^ k % 2 ≡ 0 → clear_bits value mask / 2 ^ k % 2 ≡ 0
clear_bit k value mask h = omega (arith, bit_and_bit k value (2 ^ 64 - 1 - mask))

-- Bit `k` is kept in `value & !mask` when it is not in `mask`.
keep_bit :
    (k value mask : ℕ)
    → (2 ^ 64 - 1 - mask) / 2 ^ k % 2 ≡ 1
    → value / 2 ^ k % 2 ≡ 1
    → clear_bits value mask / 2 ^ k % 2 ≡ 1
keep_bit k value mask h was = omega (arith, bit_and_bit k value (2 ^ 64 - 1 - mask))

-- Whatever the registers were, the ones of an ELF kernel are 64-bit mode with four-level paging, and the
-- ones of a bzImage protected mode without paging.
pub loader_modes :
    (sregs : VcpuSregs)
    → (cpu_mode (long_mode_sregs sregs) ≡ sixty_four_bit)
      × (paging_mode (long_mode_sregs sregs) ≡ sixty_four)
      × (cpu_mode (protected_mode_sregs sregs) ≡ protected)
      × (paging_mode (protected_mode_sregs sregs) ≡ flat)
unfolding long_mode_sregs protected_mode_sregs generate_segment cpu_mode paging_mode
loader_modes sregs =
    let lma = one_bit 10 (bit_or sregs.efer 0x500) 1 (set_bit 10 sregs.efer 0x500 refl) in
    let lme = one_bit 8 (bit_or sregs.efer 0x500) 1 (set_bit 8 sregs.efer 0x500 refl) in
    let pg =
      one_bit 31 (bit_or (bit_or sregs.cr0 1) 0x8000_0000) 1
        (set_bit 31 (bit_or sregs.cr0 1) 0x8000_0000 refl) in
    let pae = one_bit 5 (bit_or sregs.cr4 0x20) 1 (set_bit 5 sregs.cr4 0x20 refl) in
    let no_lma = one_bit 10 (clear_bits sregs.efer 0xd00) 0 (clear_bit 10 sregs.efer 0xd00 refl) in
    let cr0 = bit_or sregs.cr0 1 in
    let pe =
      one_bit 0 (clear_bits cr0 0x8000_0000) 1
        (keep_bit 0 cr0 0x8000_0000 refl (set_bit 0 sregs.cr0 1 refl)) in
    let no_pg = one_bit 31 (clear_bits cr0 0x8000_0000) 0 (clear_bit 31 cr0 0x8000_0000 refl) in
    (
      rw (cpu_mode, lma) refl,
      rw (paging_mode, pg, pae, lme) refl,
      rw (cpu_mode, no_lma, pe) refl,
      rw (paging_mode, no_pg) refl,
    )
