-- ===== src/Exits.antt =====
-- What a vCPU's exits do: the counts of src/stats.rs, the exit handlers of both backends (Kvm, Bhyve)
-- and the loop of src/vcpu.rs that runs a vCPU (Run).
-- The counts are 64-bit and wrap.
pub mod Reasons
pub mod Codes
pub mod Kvm
pub mod Bhyve
pub mod Agree
pub mod Run
pub mod Counted
pub mod Step
mod Tests
use ferrvm.Prelude.{ℕ, ◌+◌, ◌%◌, ◌^◌, u64}

pub record ExitStats : Type 0 where
  pub io_exits : ℕ
  pub mmio_exits : ℕ
  pub hlt_exits : ℕ
  pub shutdown_exits : ℕ
  pub other_exits : ℕ

abbrev pub new : ExitStats
new = record { io_exits = 0; mmio_exits = 0; hlt_exits = 0; shutdown_exits = 0; other_exits = 0 }

abbrev pub total : ExitStats → ℕ
total s = u64 (s.io_exits + s.mmio_exits + s.hlt_exits + s.shutdown_exits + s.other_exits)

abbrev pub add_assign : ExitStats → ExitStats → ExitStats
add_assign s other = record {
  io_exits = u64 (s.io_exits + other.io_exits);
  mmio_exits = u64 (s.mmio_exits + other.mmio_exits);
  hlt_exits = u64 (s.hlt_exits + other.hlt_exits);
  shutdown_exits = u64 (s.shutdown_exits + other.shutdown_exits);
  other_exits = u64 (s.other_exits + other.other_exits);
}

-- One more exit of a kind.
abbrev pub count_io : ExitStats → ExitStats
count_io s = record s { io_exits = u64 (s.io_exits + 1) }

abbrev pub count_mmio : ExitStats → ExitStats
count_mmio s = record s { mmio_exits = u64 (s.mmio_exits + 1) }

abbrev pub count_hlt : ExitStats → ExitStats
count_hlt s = record s { hlt_exits = u64 (s.hlt_exits + 1) }

abbrev pub count_shutdown : ExitStats → ExitStats
count_shutdown s = record s { shutdown_exits = u64 (s.shutdown_exits + 1) }

abbrev pub count_other : ExitStats → ExitStats
count_other s = record s { other_exits = u64 (s.other_exits + 1) }
