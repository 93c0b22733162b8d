-- ===== src/Boot/Image/Formats.antt =====
-- Which images src/boot.rs takes for which format.
use ferrvm.Prelude.{
  arith, ℕ, zero, suc, ◌-◌, ◌≤◌, ◌<◌, ◌≡◌, refl, ◌∙◌, Bool, true, false, ◌&&◌, ◌==◌, List, [], ◌∷◌,
  Result, ok, err, length, get_or, leb, le→leb, take, drop, from_le, if◌then◌else◌, ok_bind,
}
use ferrvm.Boot.Errors.{BootError, index, slice, unsupported_format}
use ferrvm.Boot.Image.{
  is_elf64, is_bzimage, new_protocol, same_bytes, bz_image, elf64, detect_kernel_image_format,
}

-- A Linux boot image by the boot protocol: the boot flag, the setup header's magic, version 2.00 on.
pub is_linux_image : List ℕ → Bool
is_linux_image bytes =
    get_or bytes 0x1fe 0 == 0x55
    && (get_or bytes 0x1ff 0 == 0xaa
        && (same_bytes (take 4 (drop 0x202 bytes)) (0x48 ∷ 0x64 ∷ 0x72 ∷ 0x53 ∷ [])
            && leb 0x200 (from_le (get_or bytes 0x206 0 ∷ get_or bytes 0x207 0 ∷ []))))

index_ok :
    {E : Type 0} (bytes : List ℕ) (i : ℕ)
    → i < length bytes
    → index {E = E} bytes i ≡ ok (get_or bytes i 0)
index_ok [] i h = absurd (omega arith)
index_ok (b ∷ bytes) zero h = refl
index_ok (b ∷ bytes) (suc i) h = index_ok bytes i (omega arith)

slice_ok :
    {E : Type 0} (bytes : List ℕ) (start end : ℕ)
    → end ≤ length bytes
    → slice {E = E} bytes start end ≡ ok (take (end - start) (drop start bytes))
slice_ok bytes start end h = rw (le→leb end (length bytes) h)

-- A test before another one, whose index may fail.
ok_and :
    {E : Type 0} (b : Bool) (r : Result (BootError E) Bool) (x : Bool)
    → r ≡ ok x
    → (if b then r else ok false) ≡ ok (b && x)
ok_and true r x h = h
ok_and false r x h = refl

is_bzimage_ok :
    {E : Type 0} (bytes : List ℕ)
    → 0x208 ≤ length bytes
    → is_bzimage {E = E} bytes ≡ ok (is_linux_image bytes)
unfolding is_bzimage is_linux_image
is_bzimage_ok {E = E} bytes long =
    let at = λ (i : ℕ) (h : i < length bytes). index_ok {E = E} bytes i h in
    let version = get_or bytes 0x206 0 in
    let protocol : new_protocol {E = E} bytes
        ≡ ok (leb 0x200 (from_le (version ∷ get_or bytes 0x207 0 ∷ []))) =
      ok_bind (index {E = E} bytes 0x206) _ version (at 0x206 (omega arith))
      ∙ ok_bind (index {E = E} bytes 0x207) _ (get_or bytes 0x207 0) (at 0x207 (omega arith)) in
    let magic = take 4 (drop 0x202 bytes) in
    ok_bind (index {E = E} bytes 0x1fe) _ (get_or bytes 0x1fe 0) (at 0x1fe (omega arith))
    ∙ ok_and _ _ _ (
        ok_bind (index {E = E} bytes 0x1ff) _ (get_or bytes 0x1ff 0) (at 0x1ff (omega arith))
        ∙ ok_and _ _ _ (
            ok_bind (slice {E = E} bytes 0x202 0x206) _ magic
              (slice_ok {E = E} bytes 0x202 0x206 (omega arith))
            ∙ ok_and _ _ _ protocol))

-- From 0x208 bytes on, where no index can fail, an image is an ELF file by its first five bytes, else a
-- bzImage by the boot protocol's marks, else it is refused.
pub detect_kernel_image_format_lem :
    {E : Type 0} (bytes : List ℕ)
    → 0x208 ≤ length bytes
    → detect_kernel_image_format {E = E} bytes ≡ (
        if is_elf64 bytes
        then ok elf64
        else if is_linux_image bytes
        then ok bz_image
        else err unsupported_format)
unfolding detect_kernel_image_format
detect_kernel_image_format_lem {E = E} bytes long =
    let found = is_bzimage_ok {E = E} bytes long in rw found refl
