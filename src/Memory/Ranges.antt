-- ===== src/Memory/Ranges.antt =====
-- Writes to guest memory put one after the other: what of them a later read sees.
use ferrvm.Prelude.{
  arith, ℕ, zero, suc, ◌+◌, ◌≤◌, ◌≡◌, refl, ap, ap₂, ◌∙◌, List, [], ◌∷◌, ok, length, take, drop,
}
use ferrvm.Memory.{GuestMemory, checked_hva, copy_out, copy_in, read_at, write_at}
use ferrvm.Memory.Access.{InBounds, copy_out_ext, copy_in_head, copy_in-cons}

-- A write that is accepted lies in memory.
pub write_at-InBounds :
    (mem mem' : GuestMemory) (gpa : ℕ) (source : List ℕ)
    → write_at mem gpa source ≡ ok mem'
    → InBounds mem gpa (length source)
unfolding write_at checked_hva
write_at-InBounds mem mem' gpa source h = (ground arith, ground arith)

copy_out-copy_in_shift :
    (f : ℕ → ℕ) (start b : ℕ) (source : List ℕ) (off len : ℕ)
    → copy_out (copy_in f start (b ∷ source)) (start + 1 + off) len
      ≡ copy_out (copy_in f (start + 1) source) (start + 1 + off) len
copy_out-copy_in_shift f start b source off len =
    copy_out_ext _ _ (start + 1 + off) len (λ a p q. copy_in-cons f start b source a (omega arith))

copy_out-copy_in_part :
    (f : ℕ → ℕ) (start : ℕ) (source : List ℕ) (off len : ℕ)
    → off + len ≤ length source
    → copy_out (copy_in f start source) (start + off) len ≡ take len (drop off source)
unfolding copy_out
copy_out-copy_in_part f start source off zero h = refl
copy_out-copy_in_part f start [] off (suc len) h = absurd (omega arith)
copy_out-copy_in_part f start (b ∷ source) zero (suc len) h =
    let here : start + 0 ≡ start = omega arith in
    let next : start + 0 + 1 ≡ start + 1 + 0 = omega arith in
    let f' = copy_in f start (b ∷ source) in
    ap₂ ◌∷◌ (ap f' here ∙ copy_in_head f start b source) (
      ap (λ s. copy_out f' s len) next
      ∙ copy_out-copy_in_shift f start b source 0 len
      ∙ copy_out-copy_in_part f (start + 1) source 0 len (omega arith))
copy_out-copy_in_part f start (b ∷ source) (suc off) (suc len) h =
    let next : start + suc off ≡ start + 1 + off = omega arith in
    ap (λ s. copy_out (copy_in f start (b ∷ source)) s (suc len)) next
    ∙ copy_out-copy_in_shift f start b source off (suc len)
    ∙ copy_out-copy_in_part f (start + 1) source off (suc len) (omega arith)

-- A part of what a write stored reads back as that part.
pub write_at-read_at_part :
    (mem mem' : GuestMemory) (gpa : ℕ) (source : List ℕ) (off len : ℕ)
    → write_at mem gpa source ≡ ok mem'
    → off + len ≤ length source
    → read_at mem' (gpa + off) len ≡ ok (take len (drop off source))
unfolding write_at read_at checked_hva
write_at-read_at_part mem mem' gpa source off len h fits =
    ground (arith, copy_out-copy_in_part mem.byte_at gpa source off len fits)
