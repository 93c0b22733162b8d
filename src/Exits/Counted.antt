-- ===== src/Exits/Counted.antt =====
-- The counts of src/stats.rs under the exit handler of src/kvm/exithandler.rs.
use ferrvm.Prelude.{
  arith, ◌+◌, ◌≡◌, refl, ap, ◌∙◌, ◌==◌, ==_iff, Bool, true, false, Bool-cases, inl, inr, List,
  Result, ok, Result-cases, u64, take, drop, ◌++◌, min,
}
use ferrvm.Bus.{BusRange, BusDevice, read, write}
use ferrvm.Exits.{ExitStats, total, count_io, count_mmio, count_hlt, count_shutdown, count_other}
use ferrvm.Exits.Reasons.{
  VmExitReason, try_from, try_from-io, io, mm_io, hlt, shutdown, fail_entry, internal_error,
}
use ferrvm.Exits.Kvm.{
  KvmRun, exit_reason_enum, io_exit, io_loop, handle_io_exit, handle_mmio_exit, handle_reason,
  handle_exit,
}

abbrev Outcome : Type 0 → Type 0
Outcome S = Result (Unit {0}) (Bool × KvmRun × ExitStats × S)

-- The exit was handled, and one more exit is counted.
abbrev pub Counted : {S : Type 0} → ExitStats → Outcome S → Type 0
Counted {S} stats outcome =
    (goes_on : Bool) × (page : KvmRun) × (stats' : ExitStats) × (s : S) × (outcome
      ≡ ok (goes_on, page, stats', s))
    × (total stats' ≡ u64 (total stats + 1))

module _ {H S : Type 0} (device : BusDevice H S) (pio_bus mmio_bus : List (BusRange × H)) where
  mmio-Counted :
      (page : KvmRun) (stats : ExitStats) (s : S)
      → Counted stats (handle_reason device pio_bus mmio_bus mm_io page stats s)
  unfolding handle_reason handle_mmio_exit
  mmio-Counted page stats s =
      let mmio = page.mmio_variant in
      let len = min mmio.len 8 in
      let out = read device mmio_bus (mmio.phys_addr) (take len mmio.bytes) s in
      let page' : KvmRun = record page {
        mmio_variant = record mmio { bytes = out.1 ++ drop len mmio.bytes };
      } in
      let written : S = (write device mmio_bus (mmio.phys_addr) (take len mmio.bytes) s).1 in
      elim (Bool-cases (mmio.is_write == 0)) [
        | inl reads ↦
            (true, page', count_mmio stats, out.2, rw (handle_mmio_exit, reads) refl, omega arith)
        | inr writes ↦
            (true, page, count_mmio stats, written, rw (handle_mmio_exit, writes) refl, omega arith)
      ]

  io-Counted :
      (page : KvmRun) (stats : ExitStats) (s : S)
      → page.exit_reason ≡ 2
      → Counted stats (handle_reason device pio_bus mmio_bus io page stats s)
  unfolding handle_reason handle_io_exit io_exit
  io-Counted page stats s is_io =
      let test : (page.exit_reason == 2) ≡ true = (==_iff (page.exit_reason) 2).1 is_io in
      let request = page.io_variant in
      let out = io_loop device pio_bus request (request.count) (page.io_data) s in
      let page' : KvmRun = record page { io_data = out.0 } in
      (true, page', count_io stats, out.1, rw (handle_io_exit, io_exit, test) refl, omega arith)

  reason-Counted :
      (reason : VmExitReason) (page : KvmRun) (stats : ExitStats) (s : S)
      → (reason ≡ io → page.exit_reason ≡ 2)
      → Counted stats (handle_reason device pio_bus mmio_bus reason page stats s)
  unfolding handle_reason
  reason-Counted io page stats s is_io = io-Counted page stats s (is_io refl)
  reason-Counted mm_io page stats s is_io = mmio-Counted page stats s
  reason-Counted hlt page stats s is_io = (true, page, count_hlt stats, s, refl, omega arith)
  reason-Counted shutdown page stats s is_io =
      (false, page, count_shutdown stats, s, refl, omega arith)
  reason-Counted fail_entry page stats s is_io =
      (false, page, count_other stats, s, refl, omega arith)
  reason-Counted internal_error page stats s is_io =
      (false, page, count_other stats, s, refl, omega arith)
  reason-Counted _ page stats s is_io = (true, page, count_other stats, s, refl, omega arith)

  -- Whatever the kernel reports, an exit is handled without an error and counted exactly once, modulo
  -- 2^64: under the reason's counter, or as another exit when the reason is not known.
  pub handle_exit-Counted :
      (page : KvmRun) (stats : ExitStats) (s : S)
      → Counted stats (handle_exit device pio_bus mmio_bus page stats s)
  unfolding handle_exit exit_reason_enum
  handle_exit-Counted page stats s = elim (Result-cases (try_from (page.exit_reason))) [
    | inl (code, unknown_code) ↦ (
      true,
      page,
      count_other stats,
      s,
      rw (handle_exit, exit_reason_enum, unknown_code) refl,
      omega arith,
    )
    | inr (reason, known) ↦
        rw (handle_exit, exit_reason_enum, known)
          (reason-Counted reason page stats s
            (λ same. try_from-io (page.exit_reason) (known ∙ ap ok same)))
  ]
