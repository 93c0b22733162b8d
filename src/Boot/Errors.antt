-- ===== src/Boot/Errors.antt =====
-- The errors of src/boot.rs and src/elf.rs, whose texts the source has.
-- `out_of_bounds` is the panic of an index past the end of a slice.
use ferrvm.Prelude.{
  arith, ◌≡◌, ℕ, none, some, List, Result, ok, err, get_elem?, leb, if◌then◌else◌, length, take,
  drop, ◌-◌,
}
use ferrvm.Memory.{MemoryError}

-- What went wrong: the CPU refused, or guest memory.
pub data BootError (E : Type 0) : Type 0 where
  cpu : E → BootError E
  memory : MemoryError → BootError E
  unsupported_format no_payload cmdline_too_long header_too_small initrd_too_large : BootError E
  bad_magic not_elf64 short_file too_small : BootError E
  no_file out_of_bounds : BootError E

-- An error of guest memory or of the CPU, as an error of the boot.
abbrev pub in_memory : {E A : Type 0} → Result MemoryError A → Result (BootError E) A
in_memory (ok a) = ok a
in_memory (err e) = err (memory e)

abbrev pub in_cpu : {E A : Type 0} → Result E A → Result (BootError E) A
in_cpu (ok a) = ok a
in_cpu (err e) = err (cpu e)

pub in_memory_ok :
    {E A : Type 0} (r : Result MemoryError A) (a : A) → in_memory {E = E} r ≡ ok a → r ≡ ok a
in_memory_ok (ok b) a h = ground arith
in_memory_ok (err e) a h = absurd (cc)

pub in_cpu_ok : {E A : Type 0} (r : Result E A) (a : A) → in_cpu r ≡ ok a → r ≡ ok a
in_cpu_ok (ok b) a h = ground arith
in_cpu_ok (err e) a h = absurd (cc)

-- `data[i]`
abbrev pub index : {E : Type 0} → List ℕ → ℕ → Result (BootError E) ℕ
index bytes i = elim (get_elem? bytes i) [ none ↦ err out_of_bounds | some b ↦ ok b ]

-- `data[start..end]`, for `start ≤ end`
abbrev pub slice : {E : Type 0} → List ℕ → ℕ → ℕ → Result (BootError E) (List ℕ)
slice bytes start end =
    if leb end (length bytes) then ok (take (end - start) (drop start bytes)) else err out_of_bounds
