-- ===== src/Exits/Kvm.antt =====
-- src/kvm/exithandler.rs: what the KVM backend does on an exit.
-- The page that is shared with the kernel is `KvmRun`: the exit reason, and the fields of the I/O and of
-- the MMIO exit, whose variant of the union the reason selects. `io_data` is the page's bytes at
-- `data_offset`. Traces and register dumps are left out.
use ferrvm.Prelude.{
  ℕ, zero, suc, Bool, true, false, List, ◌++◌, ◌==◌, if◌then◌else◌, Result, ok, err, ◌>>=◌, Option,
  none, some, take, drop, min,
}
use ferrvm.Bus.{BusRange, BusDevice, read, write}
use ferrvm.Exits.{ExitStats, count_io, count_mmio, count_hlt, count_shutdown, count_other}
use ferrvm.Exits.Reasons.{
  VmExitReason, try_from, io, mm_io, hlt, shutdown, fail_entry, internal_error,
}

pub record KvmExitIo : Type 0 where
  pub direction : ℕ
  pub size : ℕ
  pub port : ℕ
  pub count : ℕ

pub record KvmExitMmio : Type 0 where
  pub phys_addr : ℕ
  pub bytes : List ℕ
  pub len : ℕ
  pub is_write : ℕ

pub record KvmRun : Type 0 where
  pub exit_reason : ℕ
  pub io_variant : KvmExitIo
  pub io_data : List ℕ
  pub mmio_variant : KvmExitMmio

unfoldable pub exit_reason_enum : KvmRun → Result ℕ VmExitReason
exit_reason_enum kvm_run = try_from (kvm_run.exit_reason)

unfoldable pub io_exit : KvmRun → Option KvmExitIo
io_exit kvm_run = if kvm_run.exit_reason == 2 then some (kvm_run.io_variant) else none

module _ {H S : Type 0} (device : BusDevice H S) (bus : List (BusRange × H)) where
  -- One access of the port, in the direction of the exit.
  unfoldable pub io_access : KvmExitIo → List ℕ → S → List ℕ × S
  io_access request slice s =
      if request.direction == 0
      then (let (claimed, slice', s') = read device bus (request.port) slice s in (slice', s'))
      else if request.direction == 1
      then (slice, (write device bus (request.port) slice s).1)
      else (slice, s)

  -- The loop over the chunks of the data, `left` of them.
  unfoldable pub io_loop : KvmExitIo → ℕ → List ℕ → S → List ℕ × S
  io_loop request zero bytes s = (bytes, s)
  io_loop request (suc left) bytes s =
      let (slice, s') = io_access request (take request.size bytes) s in
      let (rest, s'') = io_loop request left (drop request.size bytes) s' in (slice ++ rest, s'')

  -- `err tt` is the error "Failed to parse IO exit".
  unfoldable pub handle_io_exit :
      KvmRun → ExitStats → S → Result (Unit {0}) (KvmRun × ExitStats × S)
  handle_io_exit kvm_run stats s = elim (io_exit kvm_run) [
    | none ↦ err tt
    | some request ↦
        let (bytes, s') = io_loop request (request.count) (kvm_run.io_data) s in
        ok (record kvm_run { io_data = bytes }, count_io stats, s')
  ]

  unfoldable pub handle_mmio_exit : KvmRun → ExitStats → S → KvmRun × ExitStats × S
  handle_mmio_exit kvm_run stats s =
      let mmio = kvm_run.mmio_variant in
      let len = min mmio.len 8 in
      if mmio.is_write == 0
      then (let (claimed, slice, s') = read device bus (mmio.phys_addr) (take len mmio.bytes) s in
          (
            record kvm_run { mmio_variant = record mmio { bytes = slice ++ drop len mmio.bytes } },
            count_mmio stats,
            s',
          ))
      else (
        kvm_run,
        count_mmio stats,
        (write device bus (mmio.phys_addr) (take len mmio.bytes) s).1,
      )

module _ {H S : Type 0} (device : BusDevice H S) (pio_bus mmio_bus : List (BusRange × H)) where
  -- Whether the vCPU goes on, and everything the exit changed.
  unfoldable pub handle_reason :
      VmExitReason → KvmRun → ExitStats → S → Result (Unit {0}) (Bool × KvmRun × ExitStats × S)
  handle_reason io kvm_run stats s =
      handle_io_exit device pio_bus kvm_run stats s >>= λ (kvm_run', stats', s').
      ok (true, kvm_run', stats', s')
  handle_reason mm_io kvm_run stats s =
      let (kvm_run', stats', s') = handle_mmio_exit device mmio_bus kvm_run stats s in
      ok (true, kvm_run', stats', s')
  handle_reason hlt kvm_run stats s = ok (true, kvm_run, count_hlt stats, s)
  handle_reason shutdown kvm_run stats s = ok (false, kvm_run, count_shutdown stats, s)
  handle_reason fail_entry kvm_run stats s = ok (false, kvm_run, count_other stats, s)
  handle_reason internal_error kvm_run stats s = ok (false, kvm_run, count_other stats, s)
  handle_reason _ kvm_run stats s = ok (true, kvm_run, count_other stats, s)

  unfoldable pub handle_exit :
      KvmRun → ExitStats → S → Result (Unit {0}) (Bool × KvmRun × ExitStats × S)
  handle_exit kvm_run stats s = elim (exit_reason_enum kvm_run) [
    | err exit_code ↦ ok (true, kvm_run, count_other stats, s)
    | ok reason ↦ handle_reason reason kvm_run stats s
  ]
