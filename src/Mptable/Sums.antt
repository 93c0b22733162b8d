-- ===== src/Mptable/Sums.antt =====
-- The fields of the MP table that src/mptable.rs fills in last: length, entry count, checksum.
use ferrvm.Prelude.{
  arith, ℕ, zero, suc, ◌+◌, ◌*◌, ◌%◌, ◌^◌, ◌<◌, ◌≡◌, refl, sym, ◌∙◌, Bool, true, List, [], ◌∷◌,
  ◌++◌, ok, ltb, length, length-append, set, get_or, take, drop, u8,
}
use ferrvm.Prelude.Words.{to_le, from_le}
use ferrvm.Mptable.{
  fixed_bytes, wrapping_sum, checksum, mpc_header, processor_entries, intsrc_entries, mpc_entries,
  entry_count, backfill, set_u16, mpf,
}

-- The sum of the bytes, without wrapping.
pub byte_sum : List ℕ → ℕ
byte_sum [] = 0
byte_sum (b ∷ bytes) = b + byte_sum bytes

wrapping_sum_lem :
    (acc : ℕ) (bytes : List ℕ) → acc < 256 → wrapping_sum acc bytes ≡ (acc + byte_sum bytes) % 256
unfolding wrapping_sum byte_sum
wrapping_sum_lem acc [] h = omega arith
wrapping_sum_lem acc (b ∷ bytes) h =
    omega (arith, wrapping_sum_lem (u8 (acc + b)) bytes (omega arith))

byte_sum-set :
    (bytes : List ℕ) (i v : ℕ)
    → i < length bytes
    → byte_sum (set bytes i v) + get_or bytes i 0 ≡ byte_sum bytes + v
unfolding byte_sum
byte_sum-set [] i v h = absurd (omega arith)
byte_sum-set (b ∷ bytes) zero v h = omega arith
byte_sum-set (b ∷ bytes) (suc i) v h = omega (arith, byte_sum-set bytes i v (omega arith))

-- A zero byte that takes the checksum makes the sum of all bytes zero modulo 256.
pub checksum-byte_sum :
    (bytes : List ℕ) (i : ℕ)
    → i < length bytes
    → get_or bytes i 0 ≡ 0
    → byte_sum (set bytes i (checksum bytes)) % 256 ≡ 0
unfolding checksum
checksum-byte_sum bytes i h was =
    let total : wrapping_sum 0 bytes ≡ byte_sum bytes % 256 =
      omega (arith, wrapping_sum_lem 0 bytes (omega arith)) in
    omega (arith, byte_sum-set bytes i (checksum bytes) h, total)

length-processor_entries :
    (cpu_sig cpu_feat left id : ℕ) → length (processor_entries cpu_sig cpu_feat left id) ≡ 20 * left
unfolding processor_entries to_le
length-processor_entries cpu_sig cpu_feat zero id = refl
length-processor_entries cpu_sig cpu_feat (suc left) id =
    omega (arith, length-processor_entries cpu_sig cpu_feat left (id + 1))

length-fixed_bytes : (timer_on_pin2 : Bool) (a : ℕ) → length (fixed_bytes timer_on_pin2 a) ≡ 160
unfolding fixed_bytes intsrc_entries to_le
length-fixed_bytes timer_on_pin2 a = refl

pub length-mpc_entries :
    (timer_on_pin2 : Bool) (cpu_sig cpu_feat num_cpus : ℕ)
    → length (mpc_entries timer_on_pin2 cpu_sig cpu_feat num_cpus) ≡ 20 * num_cpus + 160
unfolding mpc_entries
length-mpc_entries timer_on_pin2 cpu_sig cpu_feat num_cpus = omega (
  arith,
  length-append (processor_entries cpu_sig cpu_feat num_cpus 0)
      (fixed_bytes timer_on_pin2 num_cpus),
  length-processor_entries cpu_sig cpu_feat num_cpus 0,
  length-fixed_bytes timer_on_pin2 num_cpus,
)

-- The header with the three fields at these values.
pub filled : ℕ → ℕ → ℕ → List ℕ
filled len entries sum = set (set_u16 (set_u16 mpc_header 4 len) 34 entries) 7 sum

-- Up to 255 CPUs the table is not too large, and the fields go into the header.
pub backfill_ok :
    (timer_on_pin2 : Bool) (cpu_sig cpu_feat num_cpus : ℕ)
    → num_cpus < 256
    → let body = mpc_entries timer_on_pin2 cpu_sig cpu_feat num_cpus in
      let len = 204 + 20 * num_cpus in
      backfill (entry_count num_cpus) (mpc_header ++ body)
      ≡ ok (filled len (num_cpus + 20) (checksum (filled len (num_cpus + 20) 0 ++ body)) ++ body)
unfolding backfill filled mpc_header to_le
backfill_ok timer_on_pin2 cpu_sig cpu_feat num_cpus h =
    let body = mpc_entries timer_on_pin2 cpu_sig cpu_feat num_cpus in
    let len : length body ≡ 20 * num_cpus + 160 =
      length-mpc_entries timer_on_pin2 cpu_sig cpu_feat num_cpus in
    let all : length (mpc_header ++ body) ≡ 204 + 20 * num_cpus = omega (arith, len) in
    let count : entry_count num_cpus ≡ num_cpus + 20 = omega arith in
    let small : ltb (length (mpc_header ++ body)) (2 ^ 16) ≡ true = ground arith in
    rw (count, small, all) refl

-- The header that is filled in has no checksum of its own yet, and keeps its length.
length-filled : (len entries sum : ℕ) → length (filled len entries sum) ≡ 44
unfolding filled mpc_header to_le
length-filled len entries sum = refl

filled-byte_sum :
    (len entries : ℕ) (body : List ℕ)
    → byte_sum (filled len entries (checksum (filled len entries 0 ++ body)) ++ body) % 256 ≡ 0
unfolding filled mpc_header to_le
filled-byte_sum len entries body =
    checksum-byte_sum (filled len entries 0 ++ body) 7 (omega arith) refl

filled_fields :
    (len entries sum : ℕ)
    → len < 2 ^ 16
    → entries < 2 ^ 16
    → (from_le (take 2 (drop 4 (filled len entries sum))) ≡ len)
      × (from_le (take 2 (drop 34 (filled len entries sum))) ≡ entries)
unfolding filled mpc_header to_le from_le
filled_fields len entries sum hl he = (omega arith, omega arith)

-- For fewer than 256 CPUs the table is made: its bytes add up to zero modulo 256, its length field is
-- the number of its bytes, and its entries, 20 more than the CPUs by the count field, follow the
-- header of 44 bytes.
pub backfill_lem :
    (timer_on_pin2 : Bool) (cpu_sig cpu_feat num_cpus : ℕ)
    → num_cpus < 256
    → (mpc : List ℕ) × (backfill
          (entry_count num_cpus)
          (mpc_header ++ mpc_entries timer_on_pin2 cpu_sig cpu_feat num_cpus)
        ≡ ok mpc)
      × (length mpc ≡ 204 + 20 * num_cpus)
      × (byte_sum mpc % 256 ≡ 0)
      × (from_le (take 2 (drop 4 mpc)) ≡ length mpc)
      × (from_le (take 2 (drop 34 mpc)) ≡ num_cpus + 20)
      × (drop 44 mpc ≡ mpc_entries timer_on_pin2 cpu_sig cpu_feat num_cpus)
unfolding filled mpc_header to_le from_le
backfill_lem timer_on_pin2 cpu_sig cpu_feat num_cpus h =
    let body = mpc_entries timer_on_pin2 cpu_sig cpu_feat num_cpus in
    let len = 204 + 20 * num_cpus in
    let sum = checksum (filled len (num_cpus + 20) 0 ++ body) in
    let body_len : length body ≡ 20 * num_cpus + 160 =
      length-mpc_entries timer_on_pin2 cpu_sig cpu_feat num_cpus in
    let all : length (filled len (num_cpus + 20) sum ++ body) ≡ len = omega (arith, body_len) in
    (
      filled len (num_cpus + 20) sum ++ body,
      backfill_ok timer_on_pin2 cpu_sig cpu_feat num_cpus h,
      all,
      filled-byte_sum len (num_cpus + 20) body,
      (filled_fields len (num_cpus + 20) sum (omega arith) (omega arith)).0 ∙ sym all,
      (filled_fields len (num_cpus + 20) sum (omega arith) (omega arith)).1,
      refl,
    )

-- The same of the floating pointer, which holds the table's address.
pub mpf_lem :
    (length mpf ≡ 16) × (byte_sum mpf % 256 ≡ 0) × (from_le (take 4 (drop 4 mpf)) ≡ 0xf_0010)
unfolding mpf checksum wrapping_sum byte_sum to_le from_le
mpf_lem = (refl, refl, refl)
