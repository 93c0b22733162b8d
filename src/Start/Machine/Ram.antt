-- ===== src/Start/Machine/Ram.antt =====
-- The memory that `main` of src/main.rs allocates.
use ferrvm.Prelude.{arith, ℕ, ◌*◌, ◌<◌, ◌^◌, ◌≡◌, ◌≢◌, inl, inr, Option, Option-cases, some, ok}
use ferrvm.Memory.{GuestMemory, allocate, align_up}
use ferrvm.Start.{ram_size}
use ferrvm.Start.Machine.{host_addr}

pub ram_size_ok : (mem ram : ℕ) → ram_size mem ≡ some ram → ram ≡ mem * 2 ^ 20
ram_size_ok mem ram h = ground arith

-- What an allocation of whole megabytes gives, and where it is.
unfoldable pub IsAllocated : (ℕ → Option ℕ) → ℕ → GuestMemory → Type 0
IsAllocated mmap ram mem =
    (mem.size ≡ ram) × (mmap ram ≡ some (host_addr mmap ram)) × (host_addr mmap ram ≢ 0)

pub align_up_whole : (mem ram : ℕ) → ram_size mem ≡ some ram → align_up ram ≡ ram
align_up_whole mem ram h =
    let sized = ram_size_ok mem ram h in
    let fits : mem * (1024 * 1024) < 2 ^ 64 = ground arith in omega arith

pub allocate_ok :
    (mmap : ℕ → Option ℕ) (ram : ℕ) (mem : GuestMemory)
    → align_up ram ≡ ram
    → allocate mmap ram ≡ ok mem
    → IsAllocated mmap ram mem
unfolding allocate IsAllocated
allocate_ok mmap ram mem whole h = elim (Option-cases (mmap (align_up ram))) [
  | inl free ↦ absurd (ground arith)
  | inr (ptr, there) ↦ (ground arith, ground arith, ground arith)
]
