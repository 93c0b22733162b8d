-- ===== src/Boot/Sized.antt =====
-- Results that leave the size of guest memory as it was, for the steps of src/boot.rs.
pub mod Loaded
use ferrvm.Prelude.{
  ℕ, zero, suc, ◌+◌, ◌*◌, ◌≡◌, refl, ◌∙◌, Bool, true, false, Option, none, some, List, [], ◌∷◌,
  if◌then◌else◌, Result, ok, err, ◌>>=◌, bind_ok, ltb, leb, ◌==◌, length, u64, max, ◌++◌, ◌^◌,
}
use ferrvm.Memory.{GuestMemory, MemoryError, write_at}
use ferrvm.Memory.Access.{size-write_at}
use ferrvm.Cpu.{Vcpu}
use ferrvm.Boot.Errors.{
  BootError, in_memory, no_payload, cmdline_too_long, initrd_too_large, bad_magic, not_elf64,
  too_small,
}
use ferrvm.Boot.Image.{
  KernelImageFormat, bz_image, elf64, Files, read_file, write_initrd, load_initrd, setup_cmdline,
  get_setup_sects, detect_kernel_image_format, himem_start, initramfs_addr, same_bytes,
}
use ferrvm.Boot.Elf.{
  Elf64Header, Elf64Phdr, elf64_header, elf64_phdr, is_load, read_exact, copy_file_data, zero_bss,
  load_segment, load_segments, load_checked, load_elf_kernel,
}
use ferrvm.Boot.Params.{setup_boot_params}
use ferrvm.Boot.Paging.{
  write_words, write_pd, write_page_tables, setup_long_mode, setup_general_registers,
}
use ferrvm.Boot.Load.{load_payload, load_image, setup_mode, load_kernel}

-- What holds of a result that is not an error.
pub OnGood : {E A : Type 0} → (A → Type 0) → Result E A → Type 0
OnGood P (ok a) = P a
OnGood P (err e) = Unit

pub on_good : {E A : Type 0} (P : A → Type 0) (r : Result E A) (a : A) → OnGood P r → r ≡ ok a → P a
unfolding OnGood
on_good P (ok b) a h e = let same : b ≡ a = cc in rw (← same) h
on_good P (err b) a h e = absurd (cc)

pub good : {A : Type 0} (E : Type 0) (P : A → Type 0) (a : A) → P a → OnGood {E = E} P (ok a)
unfolding OnGood
good E P a h = h

pub failed : {E A : Type 0} (P : A → Type 0) (e : E) → OnGood P (err e)
unfolding OnGood
failed P e = tt

pub good_bind :
    {E A B : Type 0} (P : A → Type 0) (Q : B → Type 0) (f : A → Result E B) (r : Result E A)
    → OnGood P r
    → ((a : A) → P a → OnGood Q (f a))
    → OnGood Q (r >>= f)
unfolding OnGood
good_bind P Q f (ok a) h step = step a h
good_bind P Q f (err e) h step = tt

good_unless :
    {E A : Type 0} (P : A → Type 0) (r : Result E A) → ((a : A) → r ≡ ok a → P a) → OnGood P r
unfolding OnGood
good_unless P (ok a) h = h a refl
good_unless P (err e) h = tt

-- A first step that does not touch memory.
pub good_after :
    {E A B : Type 0} (Q : B → Type 0) (f : A → Result E B) (r : Result E A)
    → ((a : A) → OnGood Q (f a))
    → OnGood Q (r >>= f)
unfolding OnGood
good_after Q f (ok a) step = step a
good_after Q f (err e) step = tt

pub good_if :
    {E A : Type 0} (P : A → Type 0) (c : Bool) (r s : Result E A)
    → OnGood P r
    → OnGood P s
    → OnGood P (if c then r else s)
good_if P true r s h k = h
good_if P false r s h k = k

pub good_in_memory :
    {A : Type 0} (E : Type 0) (P : A → Type 0) (r : Result MemoryError A)
    → OnGood P r
    → OnGood P (in_memory {E = E} r)
unfolding OnGood
good_in_memory E P (ok a) h = h
good_in_memory E P (err e) h = tt

-- Memory of this size, alone or behind something else.
abbrev pub Sized : ℕ → GuestMemory → Type 0
Sized n mem = mem.size ≡ n

abbrev pub SizedBehind : {A : Type 0} → ℕ → A × GuestMemory → Type 0
SizedBehind n out = (out.1).size ≡ n

pub write_at-Sized :
    (n : ℕ) (mem : GuestMemory) (gpa : ℕ) (source : List ℕ)
    → Sized n mem
    → OnGood (Sized n) (write_at mem gpa source)
write_at-Sized n mem gpa source h =
    good_unless (Sized n) (write_at mem gpa source)
      (λ mem' e. size-write_at mem mem' gpa source e ∙ h)
