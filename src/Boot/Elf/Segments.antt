-- ===== src/Boot/Elf/Segments.antt =====
-- What the ELF loader of src/boot.rs puts where in guest memory.
use ferrvm.Prelude.{
  arith, ℕ, ◌+◌, ◌-◌, ◌<◌, ◌≤◌, ◌≡◌, ◌∙◌, inl, true, List, ok, ◌>>=◌, length, length-take,
  length-replicate, length-drop, take, drop, replicate, max, u64, bind_ok,
}
use ferrvm.Memory.{GuestMemory, read_at, write_at}
use ferrvm.Memory.Access.{write_at-read_at, write_at-read_at_disjoint}
use ferrvm.Memory.Ranges.{write_at-InBounds}
use ferrvm.Boot.Errors.{in_memory, in_memory_ok}
use ferrvm.Boot.Elf.{Elf64Phdr, is_load, read_exact, copy_file_data, zero_bss, load_segment}

pub read_exact_ok :
    {E : Type 0} (file : List ℕ) (offset len : ℕ) (bytes : List ℕ)
    → read_exact {E = E} file offset len ≡ ok bytes
    → (bytes ≡ take len (drop offset file)) × (length bytes ≡ len)
unfolding read_exact
read_exact_ok file offset len bytes h =
    let same : bytes ≡ take len (drop offset file) = ground arith in
    let inside : offset + len ≤ length file = ground arith in
    (same, rw same (omega (arith, length-take len (drop offset file), length-drop offset file)))

module _ {E : Type 0} (file : List ℕ) (himem_start : ℕ) (phdr : Elf64Phdr)
    (mem mem' : GuestMemory) where
  pub copy_file_data_ok :
      copy_file_data {E = E} file himem_start phdr mem ≡ ok mem'
      → 0 < phdr.p_filesz
      → (write_at mem (max phdr.p_paddr himem_start) (take phdr.p_filesz (drop phdr.p_offset file))
          ≡ ok mem')
        × (length (take phdr.p_filesz (drop phdr.p_offset file)) ≡ phdr.p_filesz)
  unfolding copy_file_data
  copy_file_data_ok h some_bytes =
      let todo : (read_exact {E = E} file phdr.p_offset phdr.p_filesz >>= λ segment.
      in_memory (write_at mem (max phdr.p_paddr himem_start) segment))
          ≡ ok mem' =
        ground arith in
      let found = bind_ok _ _ mem' todo in
      let bytes = read_exact_ok file phdr.p_offset phdr.p_filesz found.0 found.1 in
      (rw bytes.0 at (in_memory_ok _ mem' found.2), rw bytes.0 at bytes.1)

  pub copy_file_data_none :
      copy_file_data {E = E} file himem_start phdr mem ≡ ok mem' → phdr.p_filesz ≡ 0 → mem ≡ mem'
  unfolding copy_file_data
  copy_file_data_none h none_there = ground arith

  pub zero_bss_ok :
      zero_bss {E = E} file himem_start phdr mem ≡ ok mem'
      → phdr.p_filesz < phdr.p_memsz
      → write_at mem
          (u64 (max phdr.p_paddr himem_start + phdr.p_filesz))
          (replicate (phdr.p_memsz - phdr.p_filesz) 0)
        ≡ ok mem'
  unfolding zero_bss
  zero_bss_ok h longer = in_memory_ok {E = E} _ mem' (ground arith)

  pub zero_bss_none :
      zero_bss {E = E} file himem_start phdr mem ≡ ok mem'
      → phdr.p_memsz ≤ phdr.p_filesz
      → mem ≡ mem'
  unfolding zero_bss
  zero_bss_none h full = ground arith

  -- A segment that is loaded: its two steps, after the check of its end.
  pub load_segment_steps :
      load_segment {E = E} file himem_start phdr mem ≡ ok mem'
      → is_load phdr ≡ true
      → (mid : GuestMemory) × (copy_file_data {E = E} file himem_start phdr mem ≡ ok mid)
        × (zero_bss {E = E} file himem_start phdr mid ≡ ok mem')
  unfolding load_segment
  load_segment_steps h loads =
      let todo : (copy_file_data {E = E} file himem_start phdr mem
            >>= zero_bss file himem_start phdr)
          ≡ ok mem' =
        ground arith in
      bind_ok _ _ mem' todo

-- A loadable segment with bytes in the file: guest memory holds them at the segment's physical
-- address or at `himem_start`, whichever is larger, and zeros behind them to the segment's length.
pub load_segment_lem :
    {E : Type 0} (file : List ℕ) (himem_start : ℕ) (phdr : Elf64Phdr) (mem mem' : GuestMemory)
    → load_segment {E = E} file himem_start phdr mem ≡ ok mem'
    → is_load phdr ≡ true
    → 0 < phdr.p_filesz
    → phdr.p_filesz < phdr.p_memsz
    → (read_at mem' (max phdr.p_paddr himem_start) phdr.p_filesz
        ≡ ok (take phdr.p_filesz (drop phdr.p_offset file)))
      × (read_at mem' (max phdr.p_paddr himem_start + phdr.p_filesz) (phdr.p_memsz - phdr.p_filesz)
          ≡ ok (replicate (phdr.p_memsz - phdr.p_filesz) 0))
load_segment_lem file himem_start phdr mem mem' h loads some_bytes longer =
    let steps = load_segment_steps file himem_start phdr mem mem' h loads in
    let load = max phdr.p_paddr himem_start in
    let gap = phdr.p_memsz - phdr.p_filesz in
    let copied = copy_file_data_ok file himem_start phdr mem steps.0 steps.1 some_bytes in
    let inside = write_at-InBounds mem steps.0 load _ copied.0 in
    let start : u64 (load + phdr.p_filesz) ≡ load + phdr.p_filesz =
      omega (arith, inside.0, copied.1) in
    let zeroed = rw start at (zero_bss_ok file himem_start phdr steps.0 mem' steps.2 longer) in
    (
      write_at-read_at_disjoint steps.0 mem' (load + phdr.p_filesz) (replicate gap 0) load
            phdr.p_filesz zeroed (inl (omega arith))
          ∙ rw (copied.1) at (write_at-read_at mem steps.0 load _ copied.0),
      rw (length-replicate {A = ℕ} gap 0) at
          (write_at-read_at steps.0 mem' (load + phdr.p_filesz) (replicate gap 0) zeroed),
    )
