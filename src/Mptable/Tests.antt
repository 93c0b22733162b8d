-- ===== src/Mptable/Tests.antt =====
-- The theorems on the MP table for two CPUs.
use ferrvm.Prelude.{
  arith, ℕ, ◌+◌, ◌*◌, ◌%◌, ◌^◌, ◌≡◌, false, true, List, ◌++◌, some, ok, length, take, drop,
}
use ferrvm.Prelude.Words.{from_le}
use ferrvm.Memory.{GuestMemory, read_at}
use ferrvm.Mptable.{
  mpc_addr, mpf_addr, mpf, mpc_header, mpc_entries, entry_count, backfill, write_mptable,
}
use ferrvm.Mptable.Sums.{byte_sum, backfill_lem}
use ferrvm.Mptable.Entries.{parse, processors, fixed_entries, parse-mpc_entries}
use ferrvm.Mptable.Written.{write_mptable_lem}

backfill_lem_example :
    (mpc : List ℕ) × (backfill
        (entry_count 2)
        (mpc_header ++ mpc_entries false 0x806e9 0xbfeb_fbff 2)
      ≡ ok mpc)
    × (length mpc ≡ 204 + 20 * 2)
    × (byte_sum mpc % 256 ≡ 0)
    × (from_le (take 2 (drop 4 mpc)) ≡ length mpc)
    × (from_le (take 2 (drop 34 mpc)) ≡ 2 + 20)
    × (drop 44 mpc ≡ mpc_entries false 0x806e9 0xbfeb_fbff 2)
backfill_lem_example = backfill_lem false 0x806e9 0xbfeb_fbff 2 (omega arith)

parse-mpc_entries_example :
    parse (entry_count 2) (mpc_entries true 0x806e9 0xbfeb_fbff 2)
    ≡ some (processors 0x806e9 0xbfeb_fbff 2 0 ++ fixed_entries true 2)
parse-mpc_entries_example = parse-mpc_entries true 0x806e9 0xbfeb_fbff 2 (omega arith) (omega arith)

abbrev one_mib : GuestMemory
one_mib = record { size = 2 ^ 20; byte_at = λ _. 0 }

write_mptable_lem_example :
    (mem' : GuestMemory) × (mpc : List ℕ) × (write_mptable false 0x806e9 0xbfeb_fbff one_mib 2
      ≡ ok mem')
    × (backfill (entry_count 2) (mpc_header ++ mpc_entries false 0x806e9 0xbfeb_fbff 2) ≡ ok mpc)
    × (read_at mem' mpc_addr (204 + 20 * 2) ≡ ok mpc)
    × (read_at mem' mpf_addr 16 ≡ ok mpf)
write_mptable_lem_example =
    write_mptable_lem false 0x806e9 0xbfeb_fbff 2 one_mib (omega arith) (omega arith)
