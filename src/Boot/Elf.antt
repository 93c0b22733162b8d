-- ===== src/Boot/Elf.antt =====
-- The ELF loader of src/boot.rs, with the structures of src/elf.rs.
-- The open file is the list of its bytes: a seek and a `read_exact` give the bytes at that offset, or
-- an error where the file ends before. Sums that the source leaves unchecked wrap at 64 bits.
pub mod Segments
pub mod Below
mod Tests
use ferrvm.Prelude.{
  ℕ, zero, suc, ◌+◌, ◌-◌, ◌*◌, ◌^◌, ◌%◌, Bool, true, false, List, [], ◌∷◌, ltb, leb, ◌==◌,
  if◌then◌else◌, Result, ok, err, ◌>>=◌, length, take, drop, replicate, max, u64, from_le,
}
use ferrvm.Memory.{GuestMemory, write_at}
use ferrvm.Boot.Errors.{BootError, in_memory, short_file, too_small, not_elf64, bad_magic}
use ferrvm.Boot.Image.{same_bytes}

pub record Elf64Header : Type 0 where
  pub e_ident_magic : List ℕ
  pub e_ident_class : ℕ
  pub e_ident_data : ℕ
  pub e_ident_version : ℕ
  pub e_ident_osabi : ℕ
  pub e_ident_abiversion : ℕ
  pub e_ident_pad : List ℕ
  pub e_type : ℕ
  pub e_machine : ℕ
  pub e_version : ℕ
  pub e_entry : ℕ
  pub e_phoff : ℕ
  pub e_shoff : ℕ
  pub e_flags : ℕ
  pub e_ehsize : ℕ
  pub e_phentsize : ℕ
  pub e_phnum : ℕ
  pub e_shentsize : ℕ
  pub e_shnum : ℕ
  pub e_shstrndx : ℕ

pub record Elf64Phdr : Type 0 where
  pub p_type : ℕ
  pub p_flags : ℕ
  pub p_offset : ℕ
  pub p_vaddr : ℕ
  pub p_paddr : ℕ
  pub p_filesz : ℕ
  pub p_memsz : ℕ
  pub p_align : ℕ

unfoldable pub is_load : Elf64Phdr → Bool
is_load phdr = phdr.p_type == 1

-- `seek` to `offset` and `read_exact` of `len` bytes.
unfoldable pub read_exact : {E : Type 0} → List ℕ → ℕ → ℕ → Result (BootError E) (List ℕ)
read_exact file offset len =
    if leb (offset + len) (length file) then ok (take len (drop offset file)) else err short_file

-- A field of a structure laid out as in C.
abbrev pub field : ℕ → ℕ → List ℕ → ℕ
field offset width bytes = from_le (take width (drop offset bytes))

unfoldable pub elf64_header : List ℕ → Elf64Header
elf64_header bytes = record {
  e_ident_magic = take 4 bytes;
  e_ident_class = field 4 1 bytes;
  e_ident_data = field 5 1 bytes;
  e_ident_version = field 6 1 bytes;
  e_ident_osabi = field 7 1 bytes;
  e_ident_abiversion = field 8 1 bytes;
  e_ident_pad = take 7 (drop 9 bytes);
  e_type = field 16 2 bytes;
  e_machine = field 18 2 bytes;
  e_version = field 20 4 bytes;
  e_entry = field 24 8 bytes;
  e_phoff = field 32 8 bytes;
  e_shoff = field 40 8 bytes;
  e_flags = field 48 4 bytes;
  e_ehsize = field 52 2 bytes;
  e_phentsize = field 54 2 bytes;
  e_phnum = field 56 2 bytes;
  e_shentsize = field 58 2 bytes;
  e_shnum = field 60 2 bytes;
  e_shstrndx = field 62 2 bytes;
}

unfoldable pub elf64_phdr : List ℕ → Elf64Phdr
elf64_phdr bytes = record {
  p_type = field 0 4 bytes;
  p_flags = field 4 4 bytes;
  p_offset = field 8 8 bytes;
  p_vaddr = field 16 8 bytes;
  p_paddr = field 24 8 bytes;
  p_filesz = field 32 8 bytes;
  p_memsz = field 40 8 bytes;
  p_align = field 48 8 bytes;
}

module _ {E : Type 0} (file : List ℕ) (himem_start : ℕ) where
  -- The file's bytes of a segment, when it has any.
  unfoldable pub copy_file_data : Elf64Phdr → GuestMemory → Result (BootError E) GuestMemory
  copy_file_data phdr mem =
      if ltb 0 (phdr.p_filesz)
      then (do
        segment ← read_exact file (phdr.p_offset) (phdr.p_filesz)
        in_memory (write_at mem (max phdr.p_paddr himem_start) segment))
      else ok mem

  -- The zeros behind them, when the segment is longer in memory.
  unfoldable pub zero_bss : Elf64Phdr → GuestMemory → Result (BootError E) GuestMemory
  zero_bss phdr mem =
      if ltb phdr.p_filesz phdr.p_memsz
      then in_memory (
          write_at mem (u64 (max phdr.p_paddr himem_start + phdr.p_filesz))
            (replicate (phdr.p_memsz - phdr.p_filesz) 0))
      else ok mem

  -- One program header: nothing when it is not to be loaded.
  unfoldable pub load_segment : Elf64Phdr → GuestMemory → Result (BootError E) GuestMemory
  load_segment phdr mem =
      if is_load phdr
      then (if ltb mem.size (u64 (max phdr.p_paddr himem_start + phdr.p_memsz))
          then err too_small
          else (do mem' ← copy_file_data phdr mem; zero_bss phdr mem'))
      else ok mem

  -- The loop over the program headers, `left` of them from `i` on.
  unfoldable pub load_segments :
      Elf64Header → ℕ → ℕ → GuestMemory → Result (BootError E) GuestMemory
  load_segments ehdr zero i mem = ok mem
  load_segments ehdr (suc left) i mem = do
    bytes ← read_exact file (u64 (ehdr.e_phoff + i * ehdr.e_phentsize)) 56
    mem' ← load_segment (elf64_phdr bytes) mem
    load_segments ehdr left (i + 1) mem'

  -- The segments of the headers, after the checks of the file's own header: the entry point and memory.
  unfoldable pub load_checked : Elf64Header → GuestMemory → Result (BootError E) (ℕ × GuestMemory)
  load_checked ehdr mem =
      if same_bytes (ehdr.e_ident_magic) (0x7f ∷ 0x45 ∷ 0x4c ∷ 0x46 ∷ [])
      then (if ehdr.e_ident_class == 2
          then (do mem' ← load_segments ehdr (ehdr.e_phnum) 0 mem; ok (ehdr.e_entry, mem'))
          else err not_elf64)
      else err bad_magic

  unfoldable pub load_elf_kernel : GuestMemory → Result (BootError E) (ℕ × GuestMemory)
  load_elf_kernel mem = do bytes ← read_exact file 0 64; load_checked (elf64_header bytes) mem
