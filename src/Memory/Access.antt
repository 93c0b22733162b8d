-- ===== src/Memory/Access.antt =====
-- What an access to guest memory does: its bounds, and what a read sees of the writes before it.
use ferrvm.Prelude.{
  ℕ, zero, suc, ◌+◌, ◌-◌, ◌%◌, ◌^◌, ◌≤◌, ◌<◌, ◌≡◌, refl, sym, ap, ap₂, ◌∙◌, ◌↔◌, ◌⊎◌, Option, List,
  [], ◌∷◌, ok, err, length, replicate, arith, All, IsByte, length-replicate,
}
use ferrvm.Memory.{
  GuestMemory, exceeds, allocate, checked_hva, copy_out, copy_in, read_at, write_at, zero_at,
  write_or_skip,
}

abbrev pub InBounds : GuestMemory → ℕ → ℕ → Type 0
InBounds mem gpa len = (gpa + len < 2 ^ 64) × (gpa + len ≤ mem.size)

pub checked_hva_ok :
    (mem : GuestMemory) (gpa len : ℕ) → InBounds mem gpa len → checked_hva mem gpa len ≡ ok gpa
unfolding checked_hva
checked_hva_ok mem gpa len h = ground arith

-- An access is accepted exactly when it neither wraps nor passes the end of memory.
pub checked_hva_iff :
    (mem : GuestMemory) (gpa len : ℕ)
    → (checked_hva mem gpa len ≡ ok gpa) ↔ ((gpa + len < 2 ^ 64) × (gpa + len ≤ mem.size))
unfolding checked_hva
checked_hva_iff mem gpa len = (λ h. (ground arith, ground arith), λ h. ground arith)

pub length-copy_out : (f : ℕ → ℕ) (start len : ℕ) → length (copy_out f start len) ≡ len
unfolding copy_out
length-copy_out f start zero = refl
length-copy_out f start (suc len) = ap suc (length-copy_out f (start + 1) len)

-- Copying out sees only the bytes that it copies.
pub copy_out_ext :
    (f g : ℕ → ℕ) (start len : ℕ)
    → ((a : ℕ) → start ≤ a → a < start + len → f a ≡ g a)
    → copy_out f start len ≡ copy_out g start len
unfolding copy_out
copy_out_ext f g start zero h = refl
copy_out_ext f g start (suc len) h =
    ap₂ ◌∷◌ (h start (omega arith) (omega arith))
      (copy_out_ext f g (start + 1) len (λ a p q. h a (omega arith) (omega arith)))

pub copy_in_outside :
    (f : ℕ → ℕ) (start : ℕ) (source : List ℕ) (a : ℕ)
    → (a < start) ⊎ (start + length source ≤ a)
    → copy_in f start source a ≡ f a
unfolding copy_in
copy_in_outside f start source a h = ground arith

pub copy_in-cons :
    (f : ℕ → ℕ) (start b : ℕ) (source : List ℕ) (a : ℕ)
    → start + 1 ≤ a
    → copy_in f start (b ∷ source) a ≡ copy_in f (start + 1) source a
unfolding copy_in
copy_in-cons f start b source a h =
    let e : a - start ≡ suc (a - (start + 1)) = omega arith in rw e (ground arith)

pub copy_in_head :
    (f : ℕ → ℕ) (start b : ℕ) (source : List ℕ) → copy_in f start (b ∷ source) start ≡ b
unfolding copy_in
copy_in_head f start b source = let e : start - start ≡ 0 = omega arith in rw e (ground arith)

pub copy_out-copy_in :
    (f : ℕ → ℕ) (start : ℕ) (source : List ℕ)
    → copy_out (copy_in f start source) start (length source) ≡ source
unfolding copy_out
copy_out-copy_in f start [] = refl
copy_out-copy_in f start (b ∷ source) = ap₂ ◌∷◌ (copy_in_head f start b source) (
    copy_out_ext _ _ (start + 1) (length source) (λ a p q. copy_in-cons f start b source a p)
    ∙ copy_out-copy_in f (start + 1) source)

-- What a write stored, the same read returns.
pub write_at-read_at :
    (mem mem' : GuestMemory) (gpa : ℕ) (source : List ℕ)
    → write_at mem gpa source ≡ ok mem'
    → read_at mem' gpa (length source) ≡ ok source
unfolding write_at read_at checked_hva
write_at-read_at mem mem' gpa source h = ground (arith, copy_out-copy_in mem.byte_at gpa source)

-- A write leaves every read of other addresses as it was, refusals included.
pub write_at-read_at_disjoint :
    (mem mem' : GuestMemory) (gpa : ℕ) (source : List ℕ) (other len : ℕ)
    → write_at mem gpa source ≡ ok mem'
    → (other + len ≤ gpa) ⊎ (gpa + length source ≤ other)
    → read_at mem' other len ≡ read_at mem other len
unfolding write_at read_at checked_hva
write_at-read_at_disjoint mem mem' gpa source other len h apart = ground (
  arith,
  copy_out_ext (copy_in mem.byte_at gpa source) mem.byte_at other len
      (λ a p q. copy_in_outside mem.byte_at gpa source a (omega arith)),
)

pub size-write_at :
    (mem mem' : GuestMemory) (gpa : ℕ) (source : List ℕ)
    → write_at mem gpa source ≡ ok mem'
    → mem'.size ≡ mem.size
unfolding write_at checked_hva
size-write_at mem mem' gpa source h = ground arith

pub size-write_or_skip :
    (mem : GuestMemory) (gpa : ℕ) (source : List ℕ) → (write_or_skip mem gpa source).size ≡ mem.size
unfolding write_or_skip write_at checked_hva
size-write_or_skip mem gpa source = ground arith

-- An accessible range reads back as that many bytes.
pub read_at_ok :
    (mem : GuestMemory) (gpa len : ℕ)
    → InBounds mem gpa len
    → read_at mem gpa len ≡ ok (copy_out mem.byte_at gpa len)
unfolding read_at
read_at_ok mem gpa len h = rw (checked_hva_ok mem gpa len h)

pub write_at_ok :
    (mem : GuestMemory) (gpa : ℕ) (source : List ℕ)
    → InBounds mem gpa (length source)
    → write_at mem gpa source ≡ ok (record mem { byte_at = copy_in mem.byte_at gpa source })
unfolding write_at
write_at_ok mem gpa source h = rw (checked_hva_ok mem gpa (length source) h)

-- An access that ends past the end of memory is refused as such.
pub write_at_exceeds :
    (mem : GuestMemory) (gpa : ℕ) (source : List ℕ)
    → gpa + length source < 2 ^ 64
    → mem.size < gpa + length source
    → write_at mem gpa source ≡ err exceeds
unfolding write_at checked_hva
write_at_exceeds mem gpa source fits past = ground arith

pub length-read_at :
    (mem : GuestMemory) (gpa len : ℕ) {bytes : List ℕ}
    → read_at mem gpa len ≡ ok bytes
    → length bytes ≡ len
unfolding read_at checked_hva
length-read_at mem gpa len h = ground (arith, length-copy_out mem.byte_at gpa len)

-- Zeroing is the write of that many zero bytes, also where it is refused.
pub zero_at-eq-write_at :
    (mem : GuestMemory) (gpa len : ℕ) → zero_at mem gpa len ≡ write_at mem gpa (replicate len 0)
unfolding zero_at write_at
zero_at-eq-write_at mem gpa len = rw (length-replicate {A = ℕ} len 0)

-- Zeroed memory reads back as zeros.
pub zero_at-read_at :
    (mem mem' : GuestMemory) (gpa len : ℕ)
    → zero_at mem gpa len ≡ ok mem'
    → read_at mem' gpa len ≡ ok (replicate len 0)
zero_at-read_at mem mem' gpa len h =
    rw (length-replicate {A = ℕ} len 0) at
      (write_at-read_at mem mem' gpa (replicate len 0) (sym (zero_at-eq-write_at mem gpa len) ∙ h))

-- A mapping that succeeds holds the requested bytes in whole pages, less than one page more, and
-- only zeros.
pub allocate_lem :
    (mmap : ℕ → Option ℕ) (size : ℕ) {mem : GuestMemory}
    → size ≤ 2 ^ 64 - 4096
    → allocate mmap size ≡ ok mem
    → (0 < size)
      × (size ≤ mem.size)
      × (mem.size < size + 4096)
      × (mem.size % 4096 ≡ 0)
      × ((a : ℕ) → mem.byte_at a ≡ 0)
unfolding allocate
allocate_lem mmap size fits h =
    (ground arith, ground arith, ground arith, ground arith, λ a. ground arith)

copy_out-IsByte :
    (f : ℕ → ℕ) (start len : ℕ) → ((a : ℕ) → IsByte (f a)) → All IsByte (copy_out f start len)
unfolding copy_out
copy_out-IsByte f start zero h = tt
copy_out-IsByte f start (suc len) h = (h start, copy_out-IsByte f (start + 1) len h)

-- Reads of a memory of bytes are bytes.
pub read_at-IsByte :
    (mem : GuestMemory) (gpa len : ℕ) (bytes : List ℕ)
    → ((a : ℕ) → IsByte (mem.byte_at a))
    → read_at mem gpa len ≡ ok bytes
    → All IsByte bytes
unfolding read_at checked_hva
read_at-IsByte mem gpa len bytes h e =
    let same : copy_out mem.byte_at gpa len ≡ bytes = ground arith in
    rw (← same) (copy_out-IsByte mem.byte_at gpa len h)

-- A best-effort write inside memory reads back.
pub write_or_skip-read_at :
    (mem : GuestMemory) (gpa : ℕ) (source : List ℕ)
    → InBounds mem gpa (length source)
    → read_at (write_or_skip mem gpa source) gpa (length source) ≡ ok source
unfolding write_or_skip
write_or_skip-read_at mem gpa source h =
    let done = write_at_ok mem gpa source h in
    rw (write_or_skip, done) (write_at-read_at mem _ gpa source done)

-- Inside of memory nothing is skipped.
pub write_or_skip_ok :
    (mem : GuestMemory) (gpa : ℕ) (source : List ℕ)
    → InBounds mem gpa (length source)
    → write_at mem gpa source ≡ ok (write_or_skip mem gpa source)
unfolding write_or_skip
write_or_skip_ok mem gpa source h =
    let done = write_at_ok mem gpa source h in
    let kept : write_or_skip mem gpa source
        ≡ record mem { byte_at = copy_in mem.byte_at gpa source } =
      rw (write_or_skip, done) in
    rw kept done
