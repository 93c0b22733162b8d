-- ===== src/Exits/Bhyve.antt =====
-- src/bhyve/exithandler.rs: what the bhyve backend does on an exit.
-- An exit carries its code and the fields of its I/O or MMIO variant; the answer is whether the vCPU
-- goes on and what the next entry is given. Traces, the decoded instruction among them, are left out.
-- `err tt` is the panic of a slice longer than the word that holds the data.
use ferrvm.Prelude.{
  ℕ, Bool, true, false, List, ◌++◌, leb, ◌==◌, if◌then◌else◌, Result, ok, err, ◌>>=◌, take, drop,
  to_le, from_le, has_bits,
}
use ferrvm.Bus.{BusRange, BusDevice, read, write}
use ferrvm.Exits.{ExitStats, count_io, count_mmio, count_hlt, count_shutdown, count_other}
use ferrvm.Exits.Codes.{VmExitCode, inout, vmx, bogus, rdmsr, wrmsr, hlt, suspended, mmio}

pub record VmInout : Type 0 where
  pub eax : ℕ
  pub port : ℕ
  pub bytes : ℕ
  pub flags : ℕ

pub record VmMmio : Type 0 where
  pub bytes : ℕ
  pub read_flag : ℕ
  pub gpa : ℕ
  pub value : ℕ

pub record VmExit : Type 0 where
  pub exitcode : VmExitCode
  pub inout_variant : VmInout
  pub mmio_variant : VmMmio

-- `next_cmd` with `next_u`: `VEC_DEFAULT` with zeros, `VEC_FULFILL_INOUT`, `VEC_FULFILL_MMIO`.
pub data NextEntry : Type 0 where
  default_entry : NextEntry
  fulfill_inout : VmInout → NextEntry
  fulfill_mmio : VmMmio → NextEntry

module _ {H S : Type 0} (device : BusDevice H S) (bus : List (BusRange × H)) where
  unfoldable pub handle_io_exit :
      VmInout → ExitStats → S → Result (Unit {0}) (VmInout × ExitStats × S)
  handle_io_exit request stats s =
      if leb request.bytes 4
      then (let bytes = to_le 4 (request.eax) in
          let slice = take request.bytes bytes in
          if has_bits (request.flags) 1
          then (let (claimed, slice', s') = read device bus (request.port) slice s in
              ok (
                record request { eax = from_le (slice' ++ drop request.bytes bytes) },
                count_io stats,
                s',
              ))
          else ok (request, count_io stats, (write device bus (request.port) slice s).1))
      else err tt

  unfoldable pub handle_mmio_exit :
      VmMmio → ExitStats → S → Result (Unit {0}) (VmMmio × ExitStats × S)
  handle_mmio_exit request stats s =
      if leb request.bytes 8
      then (let bytes = to_le 8 (request.value) in
          let slice = take request.bytes bytes in
          if request.read_flag == 0
          then ok (request, count_mmio stats, (write device bus (request.gpa) slice s).1)
          else (let (claimed, slice', s') = read device bus (request.gpa) slice s in
              ok (
                record request { value = from_le (slice' ++ drop request.bytes bytes) },
                count_mmio stats,
                s',
              )))
      else err tt

module _ {H S : Type 0} (device : BusDevice H S) (pio_bus mmio_bus : List (BusRange × H)) where
  pub handle_code :
      VmExitCode → VmExit → ExitStats → S → Result (Unit {0}) (Bool × NextEntry × ExitStats × S)
  handle_code inout vm_exit stats s =
      handle_io_exit device pio_bus (vm_exit.inout_variant) stats s >>= λ (request, stats', s').
      ok (true, fulfill_inout request, stats', s')
  handle_code mmio vm_exit stats s =
      handle_mmio_exit device mmio_bus (vm_exit.mmio_variant) stats s >>= λ (request, stats', s').
      ok (true, fulfill_mmio request, stats', s')
  handle_code hlt vm_exit stats s = ok (true, default_entry, count_hlt stats, s)
  handle_code suspended vm_exit stats s = ok (false, default_entry, count_shutdown stats, s)
  handle_code vmx vm_exit stats s = ok (true, default_entry, count_other stats, s)
  handle_code rdmsr vm_exit stats s = ok (true, default_entry, stats, s)
  handle_code wrmsr vm_exit stats s = ok (true, default_entry, stats, s)
  handle_code bogus vm_exit stats s = ok (true, default_entry, count_other stats, s)
  handle_code _ vm_exit stats s = ok (true, default_entry, count_other stats, s)

  abbrev pub handle_exit :
      VmExit → ExitStats → S → Result (Unit {0}) (Bool × NextEntry × ExitStats × S)
  handle_exit vm_exit stats s = handle_code (vm_exit.exitcode) vm_exit stats s
