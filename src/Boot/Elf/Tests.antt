-- ===== src/Boot/Elf/Tests.antt =====
-- The theorems on the ELF loader at a segment of two bytes and a file of one program header.
use ferrvm.Prelude.{
  arith, ℕ, ◌≡◌, refl, List, [], ◌∷◌, ◌++◌, All, IsByte, Bool, true, ◌&&◌, ltb, Bool-cases, inl,
  inr, replicate,
}
use ferrvm.Prelude.Words.{from_le}
use ferrvm.Memory.{GuestMemory, read_at, write_at, checked_hva}
use ferrvm.Boot.Image.{same_bytes}
use ferrvm.Boot.Elf.{
  Elf64Phdr, is_load, read_exact, load_segment, copy_file_data, zero_bss, load_elf_kernel,
  load_checked, load_segments, elf64_header, elf64_phdr,
}
use ferrvm.Boot.Elf.Below.{load_elf_kernel-below}
use ferrvm.Boot.Samples.{small, outcome_memory}

-- A program header of a segment of two bytes at offset 1, four bytes long in memory, at address 0.
abbrev two_bytes : Elf64Phdr
two_bytes = record {
  p_type = 1;
  p_flags = 5;
  p_offset = 1;
  p_vaddr = 0;
  p_paddr = 0;
  p_filesz = 2;
  p_memsz = 4;
  p_align = 4096;
}

-- An ELF file with one program header, of a segment without bytes in the file.
abbrev elf_file : List ℕ
elf_file =
    (0x7f ∷ 0x45 ∷ 0x4c ∷ 0x46 ∷ 2 ∷ [])
    ++ replicate 19 0
    ++ (0 ∷ 0 ∷ 0x10 ∷ 0 ∷ 0 ∷ 0 ∷ 0 ∷ 0 ∷ [])
    ++ (64 ∷ 0 ∷ 0 ∷ 0 ∷ 0 ∷ 0 ∷ 0 ∷ 0 ∷ [])
    ++ replicate 14 0
    ++ (56 ∷ 0 ∷ 1 ∷ 0 ∷ [])
    ++ replicate 6 0
    ++ (1 ∷ 0 ∷ 0 ∷ 0 ∷ [])
    ++ replicate 36 0
    ++ (4 ∷ 0 ∷ 0 ∷ 0 ∷ 0 ∷ 0 ∷ 0 ∷ 0 ∷ [])
    ++ replicate 8 0

abbrev elf_memory : GuestMemory
elf_memory = outcome_memory (load_elf_kernel elf_file 0x10_0000 small)

abbrev all_bytes : List ℕ → Bool
all_bytes [] = true
all_bytes (b ∷ bytes) = ltb b 256 && all_bytes bytes

all_bytes-true : (bytes : List ℕ) → all_bytes bytes ≡ true → All IsByte bytes
all_bytes-true [] h = tt
all_bytes-true (b ∷ bytes) h = elim (Bool-cases (ltb b 256)) [
  | inl byte ↦ (ground arith, all_bytes-true bytes (rw byte at h))
  | inr large ↦ absurd (ground arith)
]

load_elf_kernel-below_example : read_at elf_memory 0x500 8 ≡ read_at small 0x500 8
unfolding load_elf_kernel load_checked load_segments load_segment copy_file_data zero_bss read_exact
    is_load write_at checked_hva elf64_header elf64_phdr from_le same_bytes
load_elf_kernel-below_example =
    load_elf_kernel-below {E = ℕ} elf_file 0x10_0000 small elf_memory 0x10_0000 0x500 8
      (all_bytes-true elf_file refl) (omega arith) refl (omega arith)
