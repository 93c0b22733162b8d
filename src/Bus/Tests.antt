-- ===== src/Bus/Tests.antt =====
-- The theorems on the bus at a map of two devices.
use ferrvm.Prelude.{
  ℕ, zero, suc, List, [], ◌∷◌, none, some, ◌≡◌, ◌<◌, ◌+◌, ◌^◌, refl, true, false, arith, ok,
  if◌then◌else◌, ◌↔◌,
}
use ferrvm.Bus.{BusRange, BusDevice, cmp, get_key_value, lookup, new, insert, register, read, write}
use ferrvm.Bus.Registration.{IsLaid, Free, within, register_iff, register_lem}
use ferrvm.Bus.Dispatch.{Serves, access_claimed, access_unclaimed}

-- The serial port and the PCI configuration ports; the store counts writes.
abbrev ports : List (BusRange × ℕ)
ports = (record { base = 0x3f8; len = 8 }, 1) ∷ (record { base = 0xcf8; len = 8 }, 2) ∷ []

abbrev ports-IsLaid : IsLaid 0 ports
ports-IsLaid = (omega arith, omega arith, omega arith, (omega arith, omega arith, omega arith, tt))

abbrev counter : BusDevice ℕ ℕ
counter = record {
  read = λ dev offset buffer s. (buffer, s);
  write = λ dev offset bytes s. s + dev;
}

register_iff_example :
    ((m : List (BusRange × ℕ)) × (register 0x70 2 3 ports ≡ ok m))
    ↔ ((0 < 2) × (0x70 + 2 < 2 ^ 64) × Free (record { base = 0x70; len = 2 }) ports)
register_iff_example = register_iff 0x70 2 3 ports ports-IsLaid

abbrev more_ports : List (BusRange × ℕ)
more_ports = (record { base = 0x70; len = 2 }, 3) ∷ ports

register_lem_example :
    IsLaid 0 more_ports
    × ((addr : ℕ)
        → lookup addr more_ports ≡ (
            if within (record { base = 0x70; len = 2 }) addr
            then some (record { base = 0x70; len = 2 }, 3)
            else lookup addr ports))
unfolding register new get_key_value insert cmp
register_lem_example = register_lem 0x70 2 3 ports more_ports ports-IsLaid refl

serial-Serves : Serves ports 0x3fb 1 (record { base = 0x3f8; len = 8 }) 1
unfolding lookup get_key_value cmp
serial-Serves zero h = refl
serial-Serves (suc i) h = absurd (omega arith)

none-some : (x : BusRange × ℕ) → none ≡ some x → ⊥
none-some x h = cc

nobody-Serves : (r : BusRange) (d : ℕ) → ¬ Serves ports 0x80 1 r d
unfolding lookup get_key_value cmp
nobody-Serves r d serves = none-some (r, d) (serves 0 (omega arith))

access_claimed_example :
    (read counter ports 0x3fb (7 ∷ []) 0 ≡ (true, 7 ∷ [], 0))
    × (write counter ports 0x3fb (7 ∷ []) 0 ≡ (true, 1))
access_claimed_example =
    access_claimed counter ports ports-IsLaid 0x3fb (7 ∷ []) 0 (record { base = 0x3f8; len = 8 }) 1
      (omega arith) serial-Serves

access_unclaimed_example :
    (read counter ports 0x80 (7 ∷ []) 5 ≡ (false, 0xff ∷ [], 5))
    × (write counter ports 0x80 (7 ∷ []) 5 ≡ (false, 5))
access_unclaimed_example =
    access_unclaimed counter ports ports-IsLaid 0x80 (7 ∷ []) 5 (omega arith) nobody-Serves
