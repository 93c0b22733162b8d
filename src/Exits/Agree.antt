-- ===== src/Exits/Agree.antt =====
-- The exit handlers of src/kvm/exithandler.rs and src/bhyve/exithandler.rs against each other.
use ferrvm.Prelude.{
  arith, ℕ, ◌≤◌, ◌≡◌, refl, Bool, true, false, List, le→leb, if◌then◌else◌, ok, ◌>>=◌, min, to_le,
  from_le,
}
use ferrvm.Bus.{BusRange, BusDevice}
use ferrvm.Exits.{ExitStats}
use ferrvm.Exits.Kvm
use ferrvm.Exits.Bhyve
use ferrvm.Exits.Kvm.{KvmRun, KvmExitMmio, KvmExitIo}
use ferrvm.Exits.Bhyve.{VmInout, VmMmio}

module _ {H S : Type 0} (device : BusDevice H S) (bus : List (BusRange × H)) where
  -- The same MMIO exit, of at most 8 bytes, on both backends: the buses see the same access, the counts
  -- and the devices end the same, and the guest gets the same value.
  pub handle_mmio_exit_agrees :
      (kvm_run : KvmRun) (gpa value len : ℕ) (is_read : Bool) (stats : ExitStats) (s : S)
      → len ≤ 8
      → let request : VmMmio = record {
        bytes = len;
        read_flag = (if is_read then 1 else 0);
        gpa = gpa;
        value = value;
      } in
        let page : KvmRun = record kvm_run {
          mmio_variant = record {
            phys_addr = gpa;
            bytes = to_le 8 value;
            len = len;
            is_write = (if is_read then 0 else 1);
          };
        } in
        let (page', stats', s') = Kvm.handle_mmio_exit device bus page stats s in
        Bhyve.handle_mmio_exit device bus request stats s
        ≡ ok (
          record request {
            value = (if is_read then from_le (page'.mmio_variant.bytes) else value);
          },
          stats',
          s',
        )
  unfolding Kvm.handle_mmio_exit Bhyve.handle_mmio_exit
  handle_mmio_exit_agrees kvm_run gpa value len true stats s small =
      let whole : min len 8 ≡ len = omega arith in rw (le→leb len 8 small, whole) refl
  handle_mmio_exit_agrees kvm_run gpa value len false stats s small =
      let whole : min len 8 ≡ len = omega arith in rw (le→leb len 8 small, whole) refl

  -- A single port access of at most 4 bytes on both backends, likewise.
  pub handle_io_exit_agrees :
      (kvm_run : KvmRun) (port eax size : ℕ) (is_in : Bool) (stats : ExitStats) (s : S)
      → size ≤ 4
      → let request : VmInout = record {
        eax = eax;
        port = port;
        bytes = size;
        flags = (if is_in then 1 else 0);
      } in
        let page : KvmRun = record kvm_run {
          exit_reason = 2;
          io_variant = record {
            direction = (if is_in then 0 else 1);
            size = size;
            port = port;
            count = 1;
          };
          io_data = to_le 4 eax;
        } in
        Bhyve.handle_io_exit device bus request stats s ≡ (
          Kvm.handle_io_exit device bus page stats s >>= λ (page', stats', s').
          ok
            (record request { eax = (if is_in then from_le (page'.io_data) else eax) }, stats', s'))
  unfolding Kvm.handle_io_exit Kvm.io_exit Kvm.io_loop Kvm.io_access Bhyve.handle_io_exit
  handle_io_exit_agrees kvm_run port eax size true stats s small = rw (le→leb size 4 small) refl
  handle_io_exit_agrees kvm_run port eax size false stats s small = rw (le→leb size 4 small) refl
