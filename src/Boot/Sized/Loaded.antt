-- ===== src/Boot/Sized/Loaded.antt =====
-- Loading a kernel, src/boot.rs, only writes to guest memory: its size stays what it was.
use ferrvm.Prelude.{
  ℕ, zero, suc, ◌+◌, ◌*◌, ◌≡◌, Option, none, some, List, [], ◌∷◌, ok, err, bind_ok, ltb, leb, ◌==◌,
  length, u64, max, ◌++◌, ◌^◌,
}
use ferrvm.Memory.{GuestMemory, MemoryError}
use ferrvm.Cpu.{Vcpu}
use ferrvm.Boot.Errors.{
  BootError, no_payload, cmdline_too_long, initrd_too_large, bad_magic, not_elf64, too_small,
}
use ferrvm.Boot.Image.{
  KernelImageFormat, bz_image, elf64, Files, read_file, write_initrd, load_initrd, setup_cmdline,
  get_setup_sects, detect_kernel_image_format, himem_start, initramfs_addr, same_bytes,
}
use ferrvm.Boot.Elf.{
  Elf64Header, Elf64Phdr, elf64_header, elf64_phdr, is_load, read_exact, copy_file_data, zero_bss,
  load_segment, load_segments, load_checked, load_elf_kernel,
}
use ferrvm.Boot.Params.{setup_boot_params}
use ferrvm.Boot.Paging.{
  write_words, write_pd, write_page_tables, setup_long_mode, setup_general_registers,
}
use ferrvm.Boot.Sized.{
  OnGood, on_good, good, failed, good_bind, good_after, good_if, good_in_memory, Sized, SizedBehind,
  write_at-Sized,
}
use ferrvm.Boot.Load.{load_payload, load_image, setup_mode, load_kernel}

module _ (E : Type 0) (n : ℕ) where
  copy_file_data-Sized :
      (file : List ℕ) (phdr : Elf64Phdr) (mem : GuestMemory)
      → Sized n mem
      → OnGood (Sized n) (copy_file_data {E = E} file himem_start phdr mem)
  unfolding copy_file_data
  copy_file_data-Sized file phdr mem h =
      good_if (Sized n) (ltb 0 phdr.p_filesz) _ _
        (good_after (Sized n) _ (read_exact file (phdr.p_offset) (phdr.p_filesz))
          λ segment. good_in_memory E (Sized n) _ (write_at-Sized n mem _ segment h))
        (good (BootError E) (Sized n) mem h)

  zero_bss-Sized :
      (file : List ℕ) (phdr : Elf64Phdr) (mem : GuestMemory)
      → Sized n mem
      → OnGood (Sized n) (zero_bss {E = E} file himem_start phdr mem)
  unfolding zero_bss
  zero_bss-Sized file phdr mem h =
      good_if (Sized n) (ltb phdr.p_filesz phdr.p_memsz) _ _
        (good_in_memory E (Sized n) _ (write_at-Sized n mem _ _ h))
        (good (BootError E) (Sized n) mem h)

  load_segment-Sized :
      (file : List ℕ) (phdr : Elf64Phdr) (mem : GuestMemory)
      → Sized n mem
      → OnGood (Sized n) (load_segment {E = E} file himem_start phdr mem)
  unfolding load_segment
  load_segment-Sized file phdr mem h =
      good_if (Sized n) (is_load phdr) _ _
        (good_if (Sized n) (ltb mem.size (u64 (max phdr.p_paddr himem_start + phdr.p_memsz)))
          (err too_small) _ (failed (Sized n) too_small)
          (good_bind (Sized n) (Sized n) (zero_bss file himem_start phdr)
            (copy_file_data file himem_start phdr mem) (copy_file_data-Sized file phdr mem h)
            (zero_bss-Sized file phdr)))
        (good (BootError E) (Sized n) mem h)

  load_segments-Sized :
      (file : List ℕ) (ehdr : Elf64Header) (left i : ℕ) (mem : GuestMemory)
      → Sized n mem
      → OnGood (Sized n) (load_segments {E = E} file himem_start ehdr left i mem)
  unfolding load_segments
  load_segments-Sized file ehdr zero i mem h = good (BootError E) (Sized n) mem h
  load_segments-Sized file ehdr (suc left) i mem h =
      good_after (Sized n) _ (read_exact file (u64 (ehdr.e_phoff + i * ehdr.e_phentsize)) 56)
        λ bytes.
          good_bind (Sized n) (Sized n) (load_segments file himem_start ehdr left (i + 1))
            (load_segment file himem_start (elf64_phdr bytes) mem)
            (load_segment-Sized file (elf64_phdr bytes) mem h)
            (load_segments-Sized file ehdr left (i + 1))

  load_image-Sized :
      (format : KernelImageFormat) (mem : GuestMemory) (kernel : List ℕ)
      → Sized n mem
      → OnGood (SizedBehind n) (load_image {E = E} format mem kernel)
  unfolding load_image load_payload load_elf_kernel load_checked
  load_image-Sized bz_image mem kernel h =
      good_after (SizedBehind n) _ (get_setup_sects kernel) λ setup_sects.
        good_if (SizedBehind n) (leb (length kernel) ((setup_sects + 1) * 512)) (err no_payload) _
          (failed (SizedBehind n) no_payload)
          (good_bind (Sized n) (SizedBehind n) _ _
            (good_in_memory E (Sized n) _ (write_at-Sized n mem _ _ h))
            λ mem' h'. good (BootError E) (SizedBehind n) (himem_start, mem') h')
  load_image-Sized elf64 mem kernel h =
      good_after (SizedBehind n) _ (read_exact kernel 0 64) λ bytes.
        good_if (SizedBehind n)
          (same_bytes ((elf64_header bytes).e_ident_magic) (0x7f ∷ 0x45 ∷ 0x4c ∷ 0x46 ∷ [])) _
          (err bad_magic)
          (good_if (SizedBehind n) ((elf64_header bytes).e_ident_class == 2) _ (err not_elf64)
            (good_bind (Sized n) (SizedBehind n) (λ mem'. ok ((elf64_header bytes).e_entry, mem')) _
              (load_segments-Sized kernel (elf64_header bytes) ((elf64_header bytes).e_phnum) 0 mem
                h)
              λ mem' h'. good (BootError E) (SizedBehind n) ((elf64_header bytes).e_entry, mem') h')
            (failed (SizedBehind n) not_elf64))
          (failed (SizedBehind n) bad_magic)

  load_initrd-Sized :
      {P : Type 0} (files : Files P) (mem : GuestMemory) (path : Option P)
      → Sized n mem
      → OnGood (SizedBehind n) (load_initrd {E = E} files mem path)
  unfolding load_initrd write_initrd
  load_initrd-Sized files mem none h = good (BootError E) (SizedBehind n) ((0, 0), mem) h
  load_initrd-Sized files mem (some path) h =
      good_if (SizedBehind n) (files.exists path) _ _
        (good_after (SizedBehind n) (write_initrd mem) (read_file files path) λ content.
          good_if (SizedBehind n) (ltb (length content) (2 ^ 32)) _ (err initrd_too_large)
            (good_bind (Sized n) (SizedBehind n)
              (λ mem'. ok ((initramfs_addr, length content), mem')) _
              (good_in_memory E (Sized n) _ (write_at-Sized n mem _ content h))
              λ mem' h'.
                good (BootError E) (SizedBehind n) ((initramfs_addr, length content), mem') h')
            (failed (SizedBehind n) initrd_too_large))
        (good (BootError E) (SizedBehind n) ((0, 0), mem) h)

  setup_boot_params-Sized :
      (mem : GuestMemory) (format : KernelImageFormat) (kernel cmdline : List ℕ)
      (initrd_addr initrd_size : ℕ)
      → Sized n mem
      → OnGood
          (Sized n)
          (setup_boot_params {E = E} mem format kernel cmdline initrd_addr initrd_size)
  unfolding setup_boot_params
  setup_boot_params-Sized mem format kernel cmdline initrd_addr initrd_size h =
      good_after (Sized n) _ _ λ hdr. good_in_memory E (Sized n) _ (write_at-Sized n mem _ _ h)

  setup_cmdline-Sized :
      (mem : GuestMemory) (cmdline : List ℕ)
      → Sized n mem
      → OnGood (Sized n) (setup_cmdline {E = E} mem cmdline)
  unfolding setup_cmdline
  setup_cmdline-Sized mem cmdline h =
      good_if (Sized n) (ltb 2048 (length (cmdline ++ 0 ∷ []))) (err cmdline_too_long) _
        (failed (Sized n) cmdline_too_long)
        (good_in_memory E (Sized n) _ (write_at-Sized n mem _ _ h))

write_words-Sized :
    (n offset : ℕ) (entries : List ℕ) (mem : GuestMemory)
    → Sized n mem
    → OnGood (Sized n) (write_words offset entries mem)
unfolding write_words
write_words-Sized n offset [] mem h = good MemoryError (Sized n) mem h
write_words-Sized n offset (entry ∷ entries) mem h =
    good_bind (Sized n) (Sized n) _ _ (write_at-Sized n mem _ _ h)
      λ mem' h'. write_words-Sized n (offset + 8) entries mem' h'

write_pd-Sized :
    (n left i : ℕ) (mem : GuestMemory) → Sized n mem → OnGood (Sized n) (write_pd left i mem)
unfolding write_pd
write_pd-Sized n zero i mem h = good MemoryError (Sized n) mem h
write_pd-Sized n (suc left) i mem h =
    good_bind (Sized n) (Sized n) _ _ (write_at-Sized n mem _ _ h)
      λ mem' h'. write_pd-Sized n left (i + 1) mem' h'

write_page_tables-Sized :
    (n : ℕ) (mem : GuestMemory) → Sized n mem → OnGood (Sized n) (write_page_tables mem)
unfolding write_page_tables
write_page_tables-Sized n mem h =
    good_bind (Sized n) (Sized n) _ _ (write_at-Sized n mem _ _ h) λ mem' h'.
      good_bind (Sized n) (Sized n) _ _ (write_at-Sized n mem' _ _ h')
        λ mem'' h''. write_pd-Sized n 512 0 mem'' h''

module _ {C E : Type 0} (vcpu : Vcpu C E) (n : ℕ) where
  setup_mode-Sized :
      (format : KernelImageFormat) (c : C) (mem : GuestMemory)
      → Sized n mem
      → OnGood (SizedBehind n) (setup_mode vcpu format c mem)
  unfolding setup_mode setup_long_mode
  setup_mode-Sized bz_image c mem h =
      good_after (SizedBehind n) _ _ λ c'. good (BootError E) (SizedBehind n) (c', mem) h
  setup_mode-Sized elf64 c mem h = good_after (SizedBehind n) _ _ λ sregs.
      good_bind (Sized n) (SizedBehind n) _ _
        (good_in_memory E (Sized n) _ (write_words-Sized n _ _ mem h))
        λ mem' h'.
          good_bind (Sized n) (SizedBehind n) _ _
            (good_in_memory E (Sized n) _ (write_page_tables-Sized n mem' h'))
            λ mem'' h''.
              good_after (SizedBehind n) _ _
                λ c'. good (BootError E) (SizedBehind n) (c', mem'') h''

  pub load_kernel-size :
      {P : Type 0} (files : Files P) (c c' : C) (mem mem' : GuestMemory) (kernel_path : P)
      (cmdline : List ℕ) (initrd_path : Option P)
      → load_kernel vcpu files c mem kernel_path cmdline initrd_path ≡ ok (c', mem')
      → mem.size ≡ n
      → mem'.size ≡ n
  unfolding load_kernel
  load_kernel-size files c c' mem mem' kernel_path cmdline initrd_path e h =
      let out : C × GuestMemory = (c', mem') in
      let (kernel, _, e₁) = bind_ok (read_file {E = E} files kernel_path) _ out e in
      let (format, _, e₂) = bind_ok (detect_kernel_image_format {E = E} kernel) _ out e₁ in
      let (image, loads, e₃) = bind_ok (load_image {E = E} format mem kernel) _ out e₂ in
      let h₃ = on_good (SizedBehind n) _ image (load_image-Sized E n format mem kernel h) loads in
      let (disk, reads, e₄) = bind_ok (load_initrd {E = E} files image.1 initrd_path) _ out e₃ in
      let h₄ =
        on_good (SizedBehind n) _ disk (load_initrd-Sized E n files image.1 initrd_path h₃) reads in
      let (page, fills, e₅) =
        bind_ok (setup_boot_params {E = E} disk.1 format kernel cmdline (disk.0.0) (disk.0.1)) _ out
          e₄ in
      let h₅ =
        on_good (Sized n) _ page
          (setup_boot_params-Sized E n disk.1 format kernel cmdline (disk.0.0) (disk.0.1) h₄)
          fills in
      let (line, puts, e₆) = bind_ok (setup_cmdline {E = E} page cmdline) _ out e₅ in
      let h₆ = on_good (Sized n) _ line (setup_cmdline-Sized E n page cmdline h₅) puts in
      let (c₇, _, e₇) = bind_ok (setup_general_registers vcpu image.0 c) _ out e₆ in
      on_good (SizedBehind n) _ out (setup_mode-Sized format c₇ line h₆) e₇
