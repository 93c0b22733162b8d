-- ===== src/Boot/Image.antt =====
-- The format of a kernel image, the initial RAM disk and the command line of src/boot.rs.
pub mod Placed
pub mod Formats
use ferrvm.Prelude.{
  ℕ, ◌+◌, ◌-◌, ◌*◌, ◌^◌, Bool, true, false, ◌&&◌, Option, none, some, List, [], ◌∷◌, ◌++◌, ltb, leb,
  ◌==◌, if◌then◌else◌, Result, ok, err, ◌>>=◌, length, get_or, from_le,
}
use ferrvm.Memory.{GuestMemory, write_at}
use ferrvm.Boot.Errors.{
  BootError, in_memory, index, slice, unsupported_format, no_file, cmdline_too_long,
  initrd_too_large,
}

abbrev pub cmdline_addr : ℕ
cmdline_addr = 0x2_0000

abbrev pub himem_start : ℕ
himem_start = 0x10_0000

abbrev pub initramfs_addr : ℕ
initramfs_addr = 0x800_0000

unfoldable pub is_elf64 : List ℕ → Bool
is_elf64 bytes =
    leb 5 (length bytes)
    && get_or bytes 0 0 == 0x7f
    && get_or bytes 1 0 == 0x45
    && get_or bytes 2 0 == 0x4c
    && get_or bytes 3 0 == 0x46
    && get_or bytes 4 0 == 2

-- Equality of byte slices.
unfoldable pub same_bytes : List ℕ → List ℕ → Bool
same_bytes [] [] = true
same_bytes (a ∷ xs) (b ∷ ys) = a == b && same_bytes xs ys
same_bytes _ _ = false

-- The tests in order, each index checked when its test is reached: the protocol's version, the
-- magic of the setup header, and the two boot flag bytes.
abbrev pub new_protocol : {E : Type 0} → List ℕ → Result (BootError E) Bool
new_protocol bytes = do
  low ← index bytes 0x206
  high ← index bytes 0x207
  ok (leb 0x200 (from_le (low ∷ high ∷ [])))

abbrev pub header_magic : {E : Type 0} → List ℕ → Result (BootError E) Bool
header_magic bytes = do
  magic ← slice bytes 0x202 0x206
  if same_bytes magic (0x48 ∷ 0x64 ∷ 0x72 ∷ 0x53 ∷ []) then new_protocol bytes else ok false

abbrev pub second_magic : {E : Type 0} → List ℕ → Result (BootError E) Bool
second_magic bytes = do b ← index bytes 0x1ff; if b == 0xaa then header_magic bytes else ok false

unfoldable pub is_bzimage : {E : Type 0} → List ℕ → Result (BootError E) Bool
is_bzimage bytes = do a ← index bytes 0x1fe; if a == 0x55 then second_magic bytes else ok false

pub data KernelImageFormat : Type 0 where
  bz_image elf64 : KernelImageFormat

unfoldable pub detect_kernel_image_format :
    {E : Type 0} → List ℕ → Result (BootError E) KernelImageFormat
detect_kernel_image_format bytes =
    if is_elf64 bytes
    then ok elf64
    else is_bzimage bytes >>= λ found. if found then ok bz_image else err unsupported_format

unfoldable pub get_setup_sects : {E : Type 0} → List ℕ → Result (BootError E) ℕ
get_setup_sects bytes = do
  setup_sects ← index bytes 0x1f1
  ok (if setup_sects == 0 then 4 else setup_sects)

-- The host's files: whether a path exists, and the bytes that reading it gives.
pub record Files (P : Type 0) : Type 0 where
  pub exists : P → Bool
  pub contents : P → Option (List ℕ)

abbrev pub read_file : {P E : Type 0} → Files P → P → Result (BootError E) (List ℕ)
read_file files path = elim (files.contents path) [ none ↦ err no_file | some bytes ↦ ok bytes ]

-- The RAM disk's bytes into memory, with where they are and how many.
unfoldable pub write_initrd :
    {E : Type 0} → GuestMemory → List ℕ → Result (BootError E) ((ℕ × ℕ) × GuestMemory)
write_initrd mem content =
    if ltb (length content) (2 ^ 32)
    then (do
      mem' ← in_memory (write_at mem initramfs_addr content)
      ok ((initramfs_addr, length content), mem'))
    else err initrd_too_large

-- Both numbers are 0 without a RAM disk.
unfoldable pub load_initrd :
    {P E : Type 0} → Files P → GuestMemory → Option P → Result (BootError E) ((ℕ × ℕ) × GuestMemory)
load_initrd files mem none = ok ((0, 0), mem)
load_initrd files mem (some path) =
    if files.exists path then read_file files path >>= write_initrd mem else ok ((0, 0), mem)

unfoldable pub setup_cmdline :
    {E : Type 0} → GuestMemory → List ℕ → Result (BootError E) GuestMemory
setup_cmdline mem cmdline =
    if ltb 2048 (length (cmdline ++ 0 ∷ []))
    then err cmdline_too_long
    else in_memory (write_at mem cmdline_addr (cmdline ++ 0 ∷ []))
