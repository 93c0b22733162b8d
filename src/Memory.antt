-- ===== src/Memory.antt =====
-- src/memory.rs: guest physical memory behind checked accesses.
-- `GuestMemory` is a size and the byte at each guest physical address; the host mapping is `mmap`,
-- a parameter. `usize` has 64 bits, so `usize::try_from(gpa)` succeeds.
mod Tests
pub mod Access
pub mod Ranges
use ferrvm.Prelude.{
  ℕ, zero, suc, ◌+◌, ◌-◌, ◌*◌, ◌/◌, ◌%◌, ◌^◌, Bool, true, false, ◌&&◌, Option, none, some, List, [],
  ◌∷◌, ltb, leb, ◌==◌, if◌then◌else◌, Result, ok, err, ◌>>=◌, length, get_or, replicate,
  checked_add, to_le,
}

-- The errors of `memory.rs`; the source has their texts.
pub data MemoryError : Type 0 where
  zero_size map_failed null_map overflow exceeds : MemoryError

pub record GuestMemory : Type 0 where
  pub size : ℕ
  pub byte_at : ℕ → ℕ

abbrev pub page_size : ℕ
page_size = 4096

-- `size.div_ceil(page_size) * page_size`
abbrev pub align_up : ℕ → ℕ
align_up size = (size + (page_size - 1)) / page_size * page_size % 2 ^ 64

-- `mmap` is `libc::mmap`: the address of fresh zeroed memory, or `none` for `MAP_FAILED`.
unfoldable pub allocate : (ℕ → Option ℕ) → ℕ → Result MemoryError GuestMemory
allocate mmap size = if size == 0 then err zero_size else elim (mmap (align_up size)) [
  | none ↦ err map_failed
  | some ptr ↦
      if ptr == 0 then err null_map else ok (record { size = align_up size; byte_at = λ _. 0 })
]

-- The offset into the mapping, when the whole access lies inside.
unfoldable pub checked_hva : GuestMemory → ℕ → ℕ → Result MemoryError ℕ
checked_hva mem gpa len = elim (checked_add gpa len) [
  | none ↦ err overflow
  | some end ↦ if ltb mem.size end then err exceeds else ok gpa
]

-- `ptr::copy_nonoverlapping` out of the mapping
unfoldable pub copy_out : (ℕ → ℕ) → ℕ → ℕ → List ℕ
copy_out bytes start zero = []
copy_out bytes start (suc len) = bytes start ∷ copy_out bytes (start + 1) len

-- `ptr::copy_nonoverlapping` into the mapping
pub copy_in : (ℕ → ℕ) → ℕ → List ℕ → ℕ → ℕ
copy_in bytes start source a =
    if leb start a && ltb a (start + length source) then get_or source (a - start) 0 else bytes a

unfoldable pub read_at : GuestMemory → ℕ → ℕ → Result MemoryError (List ℕ)
read_at mem gpa len = do hva ← checked_hva mem gpa len; ok (copy_out mem.byte_at hva len)

unfoldable pub write_at : GuestMemory → ℕ → List ℕ → Result MemoryError GuestMemory
write_at mem gpa source = do
  hva ← checked_hva mem gpa (length source)
  ok (record mem { byte_at = copy_in mem.byte_at hva source })

pub zero_at : GuestMemory → ℕ → ℕ → Result MemoryError GuestMemory
zero_at mem gpa len = do
  hva ← checked_hva mem gpa len
  ok (record mem { byte_at = copy_in mem.byte_at hva (replicate len 0) })

-- `let _ = mem.write_at(..)`: a failed write changes nothing and is not reported.
pub write_or_skip : GuestMemory → ℕ → List ℕ → GuestMemory
write_or_skip mem gpa source = elim (write_at mem gpa source) [ ok mem' ↦ mem' | err e ↦ mem ]
