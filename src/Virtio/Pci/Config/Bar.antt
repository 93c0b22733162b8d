-- ===== src/Virtio/Pci/Config/Bar.antt =====
-- Guest writes to the configuration space of src/virtio/pci.rs: the read-only bytes and BAR0.
use ferrvm.Prelude.{
  arith, ℕ, ◌+◌, ◌*◌, ◌/◌, ◌%◌, ◌^◌, ◌<◌, false, ◌==◌, ◌≡◌, ◌≢◌, ◌⊎◌, refl, List, [], ◌∷◌, ◌∙◌,
  bit_and, bit_or, ◌<<<◌,
}
use ferrvm.Prelude.Words.{to_le}
use ferrvm.Prelude.Bits.{bit_and_high, bit_or_split, zero-bit_or, bit_or-zero}
use native.Mathlib.Nat.{one-le-pow}
use ferrvm.Pci.{ConfigSpace, set_u8, set_u32, get_u32}
use ferrvm.Virtio.Pci.Layout.{cap_msix}
use ferrvm.Virtio.Pci.Config.{writable, write_config_byte, write_config_bytes, write_config_space}

write_config_byte_keeps :
    (cs : ConfigSpace) (off byte k : ℕ)
    → writable k ≡ false
    → (k == cap_msix + 3) ≡ false
    → write_config_byte cs off byte k ≡ cs k
unfolding write_config_byte writable set_u8
write_config_byte_keeps cs off byte k fixed other = ground arith

write_config_bytes_keeps :
    (cs : ConfigSpace) (off : ℕ) (bytes : List ℕ) (k : ℕ)
    → writable k ≡ false
    → (k == cap_msix + 3) ≡ false
    → write_config_bytes cs off bytes k ≡ cs k
unfolding write_config_bytes
write_config_bytes_keeps cs off [] k fixed other = refl
write_config_bytes_keeps cs off (b ∷ bytes) k fixed other =
    write_config_bytes_keeps (write_config_byte cs off b) (off + 1) bytes k fixed other
    ∙ write_config_byte_keeps cs off b k fixed other

set_bar_keeps : (cs : ConfigSpace) (x k : ℕ) → writable k ≡ false → set_u32 cs 0x10 x k ≡ cs k
unfolding writable set_u32
set_bar_keeps cs x k fixed = ground arith

fixed_byte :
    (k : ℕ)
    → k ≢ 0x04
    → k ≢ 0x05
    → (k < 0x10) ⊎ (0x13 < k)
    → k ≢ 0x3c
    → k ≢ 0x87
    → (writable k ≡ false) × ((k == cap_msix + 3) ≡ false)
unfolding writable
fixed_byte k not_command not_command_high not_bar not_line not_msix = (ground arith, ground arith)

-- A guest write at any offset and of any length leaves each byte of the configuration space alone
-- that is neither in the command register (0x04 and 0x05), BAR0 (0x10 to 0x13) or the interrupt line
-- (0x3c), nor the high byte of the MSI-X message control (0x87).
pub write_config_space_read_only :
    (cs : ConfigSpace) (offset : ℕ) (bytes : List ℕ) (k : ℕ)
    → k ≢ 0x04
    → k ≢ 0x05
    → (k < 0x10) ⊎ (0x13 < k)
    → k ≢ 0x3c
    → k ≢ 0x87
    → write_config_space cs offset bytes k ≡ cs k
unfolding write_config_space
write_config_space_read_only cs offset bytes k not_command not_command_high not_bar not_line
      not_msix =
    let (fixed, other) = fixed_byte k not_command not_command_high not_bar not_line not_msix in
    set_bar_keeps (write_config_bytes cs offset bytes) _ k fixed
    ∙ write_config_bytes_keeps cs offset bytes k fixed other

-- A field above a smaller number.
or_above : (k r q : ℕ) → r < 2 ^ k → bit_or r (q * 2 ^ k) ≡ r + q * 2 ^ k
or_above k r q h =
    ground (arith, bit_or_split k 0 r q 0, zero-bit_or q, bit_or-zero r, one-le-pow k 2)

-- The four bytes of a word put it together.
four_bytes :
    (a b c d : ℕ)
    → a < 256
    → b < 256
    → c < 256
    → bit_or (bit_or (bit_or a (b <<< 8)) (c <<< 16)) (d <<< 24)
      ≡ a + b * 256 + c * 65536 + d * 16777216
four_bytes a b c d ha hb hc =
    rw
      (
        or_above 8 a b ha,
        or_above 16 (a + b * 256) c (omega arith),
        or_above 24 (a + b * 256 + c * 65536) d (omega arith),
      )
      refl

get_u32-bytes :
    (cs : ConfigSpace) (off a b c d : ℕ)
    → cs off ≡ a
    → cs (off + 1) ≡ b
    → cs (off + 2) ≡ c
    → cs (off + 3) ≡ d
    → a < 256
    → b < 256
    → c < 256
    → get_u32 cs off ≡ a + b * 256 + c * 65536 + d * 16777216
unfolding get_u32
get_u32-bytes cs off a b c d ea eb ec ed ha hb hc =
    rw (ea, eb, ec, ed) (four_bytes a b c d ha hb hc)

set_u32_bytes :
    (cs : ConfigSpace) (off x : ℕ)
    → (set_u32 cs off x off ≡ x % 256)
      × (set_u32 cs off x (off + 1) ≡ x / 256 % 256)
      × (set_u32 cs off x (off + 2) ≡ x / 65536 % 256)
      × (set_u32 cs off x (off + 3) ≡ x / 16777216 % 256)
unfolding set_u32
set_u32_bytes cs off x = (ground arith, ground arith, ground arith, ground arith)

-- A word that is set is read back.
get_u32-set_u32 : (cs : ConfigSpace) (off x : ℕ) → x < 2 ^ 32 → get_u32 (set_u32 cs off x) off ≡ x
get_u32-set_u32 cs off x h =
    let b = set_u32_bytes cs off x in
    get_u32-bytes (set_u32 cs off x) off (x % 256) (x / 256 % 256) (x / 65536 % 256)
      (x / 16777216 % 256) b.0 b.1 b.2 b.3 (omega arith) (omega arith) (omega arith)
    ∙ omega arith

write_word :
    (cs : ConfigSpace) (x : ℕ)
    → x < 2 ^ 32
    → get_u32 (write_config_bytes cs 0x10 (to_le 4 x)) 0x10 ≡ x
unfolding write_config_bytes write_config_byte writable set_u8 to_le
write_word cs x h =
    get_u32-bytes (write_config_bytes cs 0x10 (to_le 4 x)) 0x10 (x % 256) (x / 256 % 256)
      (x / 256 / 256 % 256) (x / 256 / 256 / 256 % 256) refl refl refl refl (omega arith)
      (omega arith) (omega arith)
    ∙ omega arith

-- After the guest writes a word to BAR0, whatever was there, the register reads as the word with its
-- low twelve bits clear; all ones read back as the mask of a 4 KiB region.
pub get_u32-write_config_space :
    (cs : ConfigSpace) (x : ℕ)
    → x < 2 ^ 32
    → get_u32 (write_config_space cs 0x10 (to_le 4 x)) 0x10 ≡ x / 4096 * 4096
unfolding write_config_space
get_u32-write_config_space cs x h =
    let word : get_u32 (write_config_bytes cs 0x10 (to_le 4 x)) 0x10 ≡ x = write_word cs x h in
    let high : bit_and x 0xffff_f000 ≡ x / 4096 * 4096 = bit_and_high 12 20 x (omega arith) in
    rw (word, high) (get_u32-set_u32 _ 0x10 (x / 4096 * 4096) (omega arith))
