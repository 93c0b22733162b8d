-- ===== src/Start.antt =====
-- src/main.rs and src/config.rs: what the program decides before a guest runs.
-- The command line is parsed by a crate, so that a `Config` is where the model starts; a path is a `P`.
-- Texts are lists of bytes. Messages on the terminal are left out.
pub mod Buses
pub mod Cpus
pub mod Machine
pub mod Join
mod Tests
use ferrvm.Prelude.{
  ℕ, zero, suc, ◌*◌, ◌<◌, Bool, true, false, ◌||◌, Option, none, some, List, [], ◌∷◌, ltb, ◌==◌,
  if◌then◌else◌, Result, ok, err, checked_mul, length,
}

pub record Config (P : Type 0) : Type 0 where
  pub kernel : P
  pub initramfs : Option P
  pub mem : ℕ
  pub cpus : ℕ
  pub cmdline : Option (List ℕ)
  pub disk : Option P
  pub debug : Bool

abbrev pub gsi_com1 : ℕ
gsi_com1 = 4

abbrev pub pci_mmio_window_end : ℕ
pci_mmio_window_end = 0xd000_0000

-- `num_cpus == 0 || num_cpus > 255` is refused.
abbrev pub bad_cpus : ℕ → Bool
bad_cpus num_cpus = num_cpus == 0 || ltb 255 num_cpus

abbrev pub smp : ℕ → Bool
smp num_cpus = ltb 1 num_cpus

-- `config.mem.checked_mul(1024 * 1024)`
abbrev pub ram_size : ℕ → Option ℕ
ram_size mem = checked_mul mem (1024 * 1024)

-- The text behind a pattern at its start, if it is there.
unfoldable pub strip_prefix : List ℕ → List ℕ → Option (List ℕ)
strip_prefix [] text = some text
strip_prefix (p ∷ pattern) [] = none
strip_prefix (p ∷ pattern) (c ∷ text) = if p == c then strip_prefix pattern text else none

-- `str::replace(pattern, "")`: from the left, each occurrence that does not overlap the one before. The
-- text gets shorter each time, so that its length is enough fuel.
unfoldable pub remove_all : List ℕ → ℕ → List ℕ → List ℕ
remove_all pattern zero text = text
remove_all pattern (suc fuel) [] = []
remove_all pattern (suc fuel) (c ∷ text) = elim (strip_prefix pattern (c ∷ text)) [
  | some rest ↦ remove_all pattern fuel rest
  | none ↦ c ∷ remove_all pattern fuel text
]

-- The bytes of " noapic".
abbrev pub noapic : List ℕ
noapic = 0x20 ∷ 0x6e ∷ 0x6f ∷ 0x61 ∷ 0x70 ∷ 0x69 ∷ 0x63 ∷ []

-- The bytes of `DEFAULT_CMDLINE`: "console=ttyS0,115200 earlyprintk=serial,ttyS0,115200 noapic reboot=t
-- panic=1 oops=panic nomodule rdinit=/sbin/init".
unfoldable pub default_cmdline : List ℕ
default_cmdline =
    0x63 ∷ 0x6f ∷ 0x6e ∷ 0x73 ∷ 0x6f ∷ 0x6c ∷ 0x65 ∷ 0x3d ∷ 0x74 ∷ 0x74 ∷ 0x79 ∷ 0x53 ∷ 0x30 ∷ 0x2c
    ∷ 0x31 ∷ 0x31 ∷ 0x35 ∷ 0x32 ∷ 0x30 ∷ 0x30 ∷ 0x20 ∷ 0x65 ∷ 0x61 ∷ 0x72 ∷ 0x6c ∷ 0x79 ∷ 0x70
    ∷ 0x72 ∷ 0x69 ∷ 0x6e ∷ 0x74 ∷ 0x6b ∷ 0x3d ∷ 0x73 ∷ 0x65 ∷ 0x72 ∷ 0x69 ∷ 0x61 ∷ 0x6c ∷ 0x2c
    ∷ 0x74 ∷ 0x74 ∷ 0x79 ∷ 0x53 ∷ 0x30 ∷ 0x2c ∷ 0x31 ∷ 0x31 ∷ 0x35 ∷ 0x32 ∷ 0x30 ∷ 0x30 ∷ 0x20
    ∷ 0x6e ∷ 0x6f ∷ 0x61 ∷ 0x70 ∷ 0x69 ∷ 0x63 ∷ 0x20 ∷ 0x72 ∷ 0x65 ∷ 0x62 ∷ 0x6f ∷ 0x6f ∷ 0x74
    ∷ 0x3d ∷ 0x74 ∷ 0x20 ∷ 0x70 ∷ 0x61 ∷ 0x6e ∷ 0x69 ∷ 0x63 ∷ 0x3d ∷ 0x31 ∷ 0x20 ∷ 0x6f ∷ 0x6f
    ∷ 0x70 ∷ 0x73 ∷ 0x3d ∷ 0x70 ∷ 0x61 ∷ 0x6e ∷ 0x69 ∷ 0x63 ∷ 0x20 ∷ 0x6e ∷ 0x6f ∷ 0x6d ∷ 0x6f
    ∷ 0x64 ∷ 0x75 ∷ 0x6c ∷ 0x65 ∷ 0x20 ∷ 0x72 ∷ 0x64 ∷ 0x69 ∷ 0x6e ∷ 0x69 ∷ 0x74 ∷ 0x3d ∷ 0x2f
    ∷ 0x73 ∷ 0x62 ∷ 0x69 ∷ 0x6e ∷ 0x2f ∷ 0x69 ∷ 0x6e ∷ 0x69 ∷ 0x74 ∷ []

-- The command line of the guest's kernel: the one given, or the default, which loses `noapic` when
-- there are several CPUs.
unfoldable pub chosen_cmdline : {P : Type 0} → Config P → List ℕ
chosen_cmdline config = elim config.cmdline [
  | some cmdline ↦ cmdline
  | none ↦
      if smp config.cpus
      then remove_all noapic (length default_cmdline) default_cmdline
      else default_cmdline
]
