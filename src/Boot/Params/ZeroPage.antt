-- ===== src/Boot/Params/ZeroPage.antt =====
-- What a bzImage kernel finds in the zero page that src/boot.rs wrote, at the boot protocol's offsets.
use ferrvm.Prelude.{
  arith, ℕ, ◌+◌, ◌-◌, ◌≤◌, ◌≡◌, ◌++◌, refl, ap, ◌∙◌, List, [], ◌∷◌, ok, length, take, drop, u32,
  bit_or, leb, inl, inr, Bool-cases, drop-drop, take-drop-take,
}
use ferrvm.Prelude.Words.{to_le, from_le}
use ferrvm.Memory.{GuestMemory, read_at, write_at}
use ferrvm.Memory.Access.{write_at-read_at_disjoint}
use ferrvm.Memory.Ranges.{write_at-read_at_part}
use ferrvm.Boot.Errors.{in_memory_ok}
use ferrvm.Boot.Image.{bz_image}
use ferrvm.Boot.Params.{
  BootParams, params_bytes, table_bytes, e820_map, read_setup_header, image_header, choose_header,
  setup_boot_params, zero_page_start, setup_header_offset,
}
use ferrvm.Boot.Params.Header.{SetupHeader, header_bytes, header_of}

-- The structure for a memory of `size` bytes.
abbrev page : ℕ → SetupHeader → BootParams
page size hdr = record { e820_entries = 3; hdr = hdr; e820_table = e820_map size }

length-params_bytes : (size : ℕ) (hdr : SetupHeader) → length (params_bytes (page size hdr)) ≡ 4096
unfolding params_bytes header_bytes table_bytes e820_map to_le
length-params_bytes size hdr = refl

-- The bytes of the structure at the offsets that the boot protocol names.
params_bytes_fields :
    (size : ℕ) (hdr : SetupHeader)
    → let bytes = params_bytes (page size hdr) in
      (take 1 (drop 0x1e8 bytes) ≡ 3 ∷ [])
      × (take 1 (drop 0x210 bytes) ≡ to_le 1 (hdr.type_of_loader))
      × (take 1 (drop 0x211 bytes) ≡ to_le 1 (hdr.loadflags))
      × (take 4 (drop 0x214 bytes) ≡ to_le 4 (hdr.code32_start))
      × (take 4 (drop 0x218 bytes) ≡ to_le 4 (hdr.ramdisk_image))
      × (take 4 (drop 0x21c bytes) ≡ to_le 4 (hdr.ramdisk_size))
      × (take 4 (drop 0x228 bytes) ≡ to_le 4 (hdr.cmd_line_ptr))
      × (take 4 (drop 0x238 bytes) ≡ to_le 4 (hdr.cmdline_size))
      × (take 60 (drop 0x2d0 bytes) ≡ table_bytes (e820_map size))
unfolding params_bytes header_bytes table_bytes e820_map to_le
params_bytes_fields size hdr = (refl, refl, refl, refl, refl, refl, refl, refl, refl)

-- A read of the page's part at `off`.
page_part :
    (mem mem' : GuestMemory) (params : BootParams) (off len : ℕ) (expected : List ℕ)
    → write_at mem zero_page_start (params_bytes params) ≡ ok mem'
    → length (params_bytes params) ≡ 4096
    → off + len ≤ 4096
    → take len (drop off (params_bytes params)) ≡ expected
    → read_at mem' (zero_page_start + off) len ≡ ok expected
page_part mem mem' params off len expected h size inside same =
    write_at-read_at_part mem mem' zero_page_start (params_bytes params) off len h
      (omega (arith, size))
    ∙ ap (λ bytes. ok bytes) same

-- The header that a bzImage's page gets.
abbrev final_header : List ℕ → List ℕ → ℕ → ℕ → SetupHeader
final_header kernel cmdline initrd_addr initrd_size =
    record (image_header cmdline (header_of (take 123 (drop setup_header_offset kernel)))) {
      ramdisk_image = initrd_addr;
      ramdisk_size = initrd_size;
    }

setup_boot_params_written :
    {E : Type 0} (mem mem' : GuestMemory) (kernel cmdline : List ℕ) (initrd_addr initrd_size : ℕ)
    → setup_boot_params {E = E} mem bz_image kernel cmdline initrd_addr initrd_size ≡ ok mem'
    → write_at mem zero_page_start
        (params_bytes (page (mem.size) (final_header kernel cmdline initrd_addr initrd_size)))
      ≡ ok mem'
unfolding setup_boot_params choose_header read_setup_header e820_map
setup_boot_params_written {E = E} mem mem' kernel cmdline initrd_addr initrd_size h =
    elim (Bool-cases (leb (setup_header_offset + 123) (length kernel))) [
      | inl whole ↦ in_memory_ok {E = E} _ mem' (rw whole at h)
      | inr short ↦ absurd (ground arith)
    ]

loadflags_at :
    (kernel cmdline : List ℕ)
    → (image_header cmdline (header_of (take 123 (drop setup_header_offset kernel)))).loadflags
      ≡ bit_or (from_le (take 1 (drop 0x211 kernel))) 0xc1
unfolding image_header header_of
loadflags_at kernel cmdline =
    ap (λ bytes. bit_or (from_le bytes) 0xc1)
      (take-drop-take 1 32 123 (drop 0x1f1 kernel) (omega arith)
        ∙ ap (take 1) (drop-drop 32 0x1f1 kernel))

-- The fields that do not depend on the memory's size.
pub setup_boot_params_fields :
    {E : Type 0} (mem mem' : GuestMemory) (kernel cmdline : List ℕ) (initrd_addr initrd_size : ℕ)
    → setup_boot_params {E = E} mem bz_image kernel cmdline initrd_addr initrd_size ≡ ok mem'
    → (read_at mem' (0x7000 + 0x1e8) 1 ≡ ok (3 ∷ []))
      × (read_at mem' (0x7000 + 0x210) 1 ≡ ok (0xff ∷ []))
      × (read_at mem' (0x7000 + 0x211) 1
          ≡ ok (to_le 1 (bit_or (from_le (take 1 (drop 0x211 kernel))) 0xc1)))
      × (read_at mem' (0x7000 + 0x214) 4 ≡ ok (to_le 4 0x10_0000))
      × (read_at mem' (0x7000 + 0x218) 4 ≡ ok (to_le 4 initrd_addr))
      × (read_at mem' (0x7000 + 0x21c) 4 ≡ ok (to_le 4 initrd_size))
      × (read_at mem' (0x7000 + 0x228) 4 ≡ ok (to_le 4 0x2_0000))
      × (read_at mem' (0x7000 + 0x238) 4 ≡ ok (to_le 4 (u32 (length cmdline + 1))))
unfolding image_header to_le
setup_boot_params_fields mem mem' kernel cmdline initrd_addr initrd_size h =
    let hdr = final_header kernel cmdline initrd_addr initrd_size in
    let written = setup_boot_params_written mem mem' kernel cmdline initrd_addr initrd_size h in
    let size = length-params_bytes (mem.size) hdr in
    let fields = params_bytes_fields (mem.size) hdr in
    let part = page_part mem mem' (page (mem.size) hdr) in
    (
      part 0x1e8 1 _ written size (omega arith) fields.0,
      part 0x210 1 _ written size (omega arith) fields.1,
      part 0x211 1 _ written size (omega arith)
          (fields.2 ∙ ap (to_le 1) (loadflags_at kernel cmdline)),
      part 0x214 4 _ written size (omega arith) fields.3,
      part 0x218 4 _ written size (omega arith) fields.4,
      part 0x21c 4 _ written size (omega arith) fields.5,
      part 0x228 4 _ written size (omega arith) fields.6,
      part 0x238 4 _ written size (omega arith) fields.7,
    )

-- The memory map: RAM below 0x9fc00, a reserved region up to 1 MiB, and RAM from there to the end.
abbrev pub expected_map : ℕ → List ℕ
expected_map size =
    (to_le 8 0 ++ to_le 8 0x9_fc00 ++ to_le 4 1)
    ++ (to_le 8 0x9_fc00 ++ to_le 8 0x6_0400 ++ to_le 4 2)
    ++ (to_le 8 0x10_0000 ++ to_le 8 (size - 0x10_0000) ++ to_le 4 1)

-- The zero page leaves the rest of memory.
pub setup_boot_params_keeps :
    {E : Type 0} (mem mem' : GuestMemory) (kernel cmdline : List ℕ)
    (initrd_addr initrd_size other len : ℕ)
    → setup_boot_params {E = E} mem bz_image kernel cmdline initrd_addr initrd_size ≡ ok mem'
    → 0x8000 ≤ other
    → read_at mem' other len ≡ read_at mem other len
setup_boot_params_keeps mem mem' kernel cmdline initrd_addr initrd_size other len h above =
    write_at-read_at_disjoint mem mem' zero_page_start _ other len
      (setup_boot_params_written mem mem' kernel cmdline initrd_addr initrd_size h)
      (inr (
        omega (
          arith,
          length-params_bytes (mem.size) (final_header kernel cmdline initrd_addr initrd_size),
        )))
