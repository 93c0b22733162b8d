-- ===== src/Boot/Elf/Below.antt =====
-- What the ELF loader of src/boot.rs leaves alone: guest memory below the address it loads to.
use ferrvm.Prelude.{
  arith, ℕ, zero, suc, ◌+◌, ◌*◌, ◌^◌, ◌<◌, ◌≤◌, ◌≡◌, sym, ap, ◌∙◌, inl, inr, false, List, ltb, ok,
  length, length-take, length-drop, take, drop, max, u64, bind_ok, Bool-cases, All, All-drop,
  All-take, IsByte, from_le-lt,
}
use ferrvm.Memory.{GuestMemory, read_at}
use ferrvm.Memory.Access.{write_at-read_at_disjoint}
use ferrvm.Memory.Ranges.{write_at-InBounds}
use ferrvm.Boot.Elf.{
  Elf64Header, Elf64Phdr, is_load, read_exact, copy_file_data, zero_bss, load_segment,
  load_segments, load_elf_kernel, load_checked, elf64_header, elf64_phdr,
}
use ferrvm.Boot.Elf.Segments.{
  read_exact_ok, copy_file_data_ok, copy_file_data_none, zero_bss_ok, zero_bss_none,
  load_segment_steps,
}

-- The physical address of a program header of bytes is a 64-bit number.
p_paddr-lt :
    (bytes : List ℕ) → All IsByte bytes → length bytes ≡ 56 → (elf64_phdr bytes).p_paddr < 2 ^ 64
unfolding elf64_phdr
p_paddr-lt bytes h len =
    let size : length (take 8 (drop 24 bytes)) ≡ 8 =
      omega (arith, length-take 8 (drop 24 bytes), length-drop 24 bytes) in
    rw size at
      (from_le-lt (take 8 (drop 24 bytes)) (All-take IsByte 8 _ (All-drop IsByte 24 bytes h)))

module _ {E : Type 0} (file : List ℕ) (himem_start other len : ℕ)
    (below : other + len ≤ himem_start) (high : himem_start < 2 ^ 64) where
  -- The address behind the copied bytes does not wrap, and what is below `himem_start` stays.
  copy_file_data_keeps :
      (phdr : Elf64Phdr) (mem mem' : GuestMemory)
      → copy_file_data {E = E} file himem_start phdr mem ≡ ok mem'
      → phdr.p_paddr < 2 ^ 64
      → (read_at mem' other len ≡ read_at mem other len)
        × (u64 (max phdr.p_paddr himem_start + phdr.p_filesz)
            ≡ max phdr.p_paddr himem_start + phdr.p_filesz)
  copy_file_data_keeps phdr mem mem' h fits = elim (Bool-cases (ltb 0 phdr.p_filesz)) [
    | inl some_bytes ↦
        let copied = copy_file_data_ok file himem_start phdr mem mem' h (ground arith) in
        let inside = write_at-InBounds mem mem' (max phdr.p_paddr himem_start) _ copied.0 in
        (
          write_at-read_at_disjoint mem mem' (max phdr.p_paddr himem_start) _ other len copied.0
              (inl (omega arith)),
          omega (arith, inside.0, copied.1),
        )
    | inr nothing ↦
        let empty : phdr.p_filesz ≡ 0 = ground arith in
        (
          ap (λ m. read_at m other len)
              (sym (copy_file_data_none file himem_start phdr mem mem' h empty)),
          omega arith,
        )
  ]

  zero_bss_keeps :
      (phdr : Elf64Phdr) (mem mem' : GuestMemory)
      → zero_bss {E = E} file himem_start phdr mem ≡ ok mem'
      → u64 (max phdr.p_paddr himem_start + phdr.p_filesz)
        ≡ max phdr.p_paddr himem_start + phdr.p_filesz
      → read_at mem' other len ≡ read_at mem other len
  zero_bss_keeps phdr mem mem' h start = elim (Bool-cases (ltb phdr.p_filesz phdr.p_memsz)) [
    | inl longer ↦
        write_at-read_at_disjoint mem mem' (max phdr.p_paddr himem_start + phdr.p_filesz) _ other
          len (rw start at (zero_bss_ok file himem_start phdr mem mem' h (ground arith)))
          (inl (omega arith))
    | inr full ↦
        ap (λ m. read_at m other len)
          (sym (zero_bss_none file himem_start phdr mem mem' h (ground arith)))
  ]

  load_segment_skips :
      (phdr : Elf64Phdr) (mem mem' : GuestMemory)
      → load_segment {E = E} file himem_start phdr mem ≡ ok mem'
      → is_load phdr ≡ false
      → mem ≡ mem'
  unfolding load_segment
  load_segment_skips phdr mem mem' h skipped = ground arith

  load_segment_keeps :
      (phdr : Elf64Phdr) (mem mem' : GuestMemory)
      → load_segment {E = E} file himem_start phdr mem ≡ ok mem'
      → phdr.p_paddr < 2 ^ 64
      → read_at mem' other len ≡ read_at mem other len
  load_segment_keeps phdr mem mem' h fits = elim (Bool-cases (is_load phdr)) [
    | inl loads ↦
        let steps = load_segment_steps file himem_start phdr mem mem' h loads in
        let copied = copy_file_data_keeps phdr mem steps.0 steps.1 fits in
        zero_bss_keeps phdr steps.0 mem' steps.2 copied.1 ∙ copied.0
    | inr skipped ↦ ap (λ m. read_at m other len) (sym (load_segment_skips phdr mem mem' h skipped))
  ]

  load_segments_keeps :
      (ehdr : Elf64Header) (left i : ℕ) (mem mem' : GuestMemory)
      → All IsByte file
      → load_segments {E = E} file himem_start ehdr left i mem ≡ ok mem'
      → read_at mem' other len ≡ read_at mem other len
  unfolding load_segments
  load_segments_keeps ehdr zero i mem mem' bytes h = ap (λ m. read_at m other len) (ground arith)
  load_segments_keeps ehdr (suc left) i mem mem' bytes h =
      let found =
        bind_ok (read_exact file (u64 (ehdr.e_phoff + i * ehdr.e_phentsize)) 56) _ mem' h in
      let step =
        bind_ok (load_segment file himem_start (elf64_phdr found.0) mem)
          (load_segments file himem_start ehdr left (i + 1)) mem' found.2 in
      let header = read_exact_ok {E = E} file _ 56 found.0 found.1 in
      let header_bytes : All IsByte found.0 =
        rw (header.0) (All-take IsByte 56 _ (All-drop IsByte _ file bytes)) in
      load_segments_keeps ehdr left (i + 1) step.0 mem' bytes step.2
      ∙ load_segment_keeps (elf64_phdr found.0) mem step.0 step.1
          (p_paddr-lt found.0 header_bytes header.1)

-- A kernel that loads leaves guest memory below `himem_start` as it was, whatever its headers say.
pub load_elf_kernel-below :
    {E : Type 0} (file : List ℕ) (himem_start : ℕ) (mem mem' : GuestMemory) (entry other len : ℕ)
    → All IsByte file
    → himem_start < 2 ^ 64
    → load_elf_kernel {E = E} file himem_start mem ≡ ok (entry, mem')
    → other + len ≤ himem_start
    → read_at mem' other len ≡ read_at mem other len
unfolding load_elf_kernel load_checked
load_elf_kernel-below {E = E} file himem_start mem mem' entry other len bytes high h below =
    let found = bind_ok (read_exact file 0 64) _ (entry, mem') h in
    let ehdr = elf64_header found.0 in
    let loaded =
      bind_ok {B = ℕ × GuestMemory}
        (load_segments {E = E} file himem_start ehdr (ehdr.e_phnum) 0 mem)
        (λ m. ok (ehdr.e_entry, m)) (entry, mem') (ground arith) in
    let same : loaded.0 ≡ mem' = ground arith in
    load_segments_keeps file himem_start other len below high ehdr (ehdr.e_phnum) 0 mem mem' bytes
      (loaded.1 ∙ ap (λ m. ok m) same)
