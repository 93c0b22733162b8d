-- ===== src/Pci.antt =====
-- src/pci.rs: configuration spaces and the type-1 configuration mechanism.
-- `[u8; 256]` is the table of its bytes; every index that the source uses is below 256. The devices
-- behind the root bus are handles `H` into a store `S`, with `PciDevice` as the trait.
mod Tests
pub mod Latch
pub mod Decode
use ferrvm.Prelude.{
  ℕ, zero, suc, ◌+◌, ◌-◌, ◌*◌, ◌/◌, ◌%◌, ◌^◌, Bool, true, false, Option, none, some, List, [], ◌∷◌,
  ltb, leb, ◌==◌, if◌then◌else◌, length, replicate, get_or, set, bit_and, bit_or, has_bits, to_le,
  from_le, u8, u16, ◌<<<◌, ◌>>>◌, update,
}

abbrev pub ConfigSpace : Type 0
ConfigSpace = ℕ → ℕ

unfoldable pub config_space : ConfigSpace
config_space i = 0

unfoldable pub set_u8 : ConfigSpace → ℕ → ℕ → ConfigSpace
set_u8 cs offset value = update cs offset value

pub set_u16 : ConfigSpace → ℕ → ℕ → ConfigSpace
set_u16 cs offset value = update (update cs offset (u8 value)) (offset + 1) (u8 (value >>> 8))

unfoldable pub set_u32 : ConfigSpace → ℕ → ℕ → ConfigSpace
set_u32 cs offset value =
    update
      (update (update (update cs offset (u8 value)) (offset + 1) (u8 (value >>> 8))) (offset + 2)
        (u8 (value >>> 16)))
      (offset + 3) (u8 (value >>> 24))

pub get_u8 : ConfigSpace → ℕ → ℕ
get_u8 cs offset = cs offset

unfoldable pub get_u16 : ConfigSpace → ℕ → ℕ
get_u16 cs offset = bit_or (cs offset) (cs (offset + 1) <<< 8)

unfoldable pub get_u32 : ConfigSpace → ℕ → ℕ
get_u32 cs offset =
    bit_or (bit_or (bit_or (cs offset) (cs (offset + 1) <<< 8)) (cs (offset + 2) <<< 16))
      (cs (offset + 3) <<< 24)

-- `ConfigSpace::config_read`: the buffer is filled; past the end it gets `0xff`.
pub config_read : ConfigSpace → ℕ → List ℕ → List ℕ
config_read cs idx [] = []
config_read cs idx (b ∷ rest) =
    (if ltb idx 256 then cs idx else 0xff) ∷ config_read cs (idx + 1) rest

-- A plain configuration space is read-only.
pub config_write : ConfigSpace → ℕ → List ℕ → ConfigSpace
config_write cs offset bytes = cs

-- The Intel 440FX host bridge.
pub host_bridge : ConfigSpace
host_bridge =
    let cs = set_u16 config_space 0x00 0x8086 in
    let cs = set_u16 cs 0x02 0x1237 in
    let cs = set_u8 cs 0x08 0x02 in
    let cs = set_u8 cs 0x09 0x00 in
    let cs = set_u8 cs 0x0a 0x00 in let cs = set_u8 cs 0x0b 0x06 in set_u8 cs 0x0e 0x00

-- `trait PciDevice`
pub record PciDevice (H S : Type 0) : Type 0 where
  pub config_read : H → ℕ → List ℕ → S → List ℕ
  pub config_write : H → ℕ → List ℕ → S → S

pub record PciRootBus (H : Type 0) : Type 0 where
  pub config_address : ℕ
  pub devices : List (ℕ × H)

unfoldable pub slot_key : ℕ → ℕ → ℕ
slot_key dev func = bit_or (u16 (dev <<< 3)) (bit_and func 0x07)

-- The slot and register that the latched address selects, if it is enabled and on bus 0.
pub selected : ℕ → ℕ → Option (ℕ × ℕ)
selected config_address port_byte =
    if bit_and config_address 0x8000_0000 == 0
    then none
    else if bit_and (config_address >>> 16) 0xff == 0
    then some (
      slot_key (u8 (bit_and (config_address >>> 11) 0x1f))
          (u8 (bit_and (config_address >>> 8) 0x07)),
      bit_and config_address 0xfc + port_byte,
    )
    else none

-- `bytes.get(idx).copied().unwrap_or(0)` for each byte of the buffer
pub latch_read : List ℕ → ℕ → List ℕ → List ℕ
latch_read bytes idx [] = []
latch_read bytes idx (b ∷ rest) = get_or bytes idx 0 ∷ latch_read bytes (idx + 1) rest

-- `if idx < bytes.len() { bytes[idx] = v }` for each byte written
pub latch_write : List ℕ → ℕ → List ℕ → List ℕ
latch_write bytes idx [] = bytes
latch_write bytes idx (v ∷ rest) = latch_write (set bytes idx v) (idx + 1) rest

module _ {H : Type 0} where
  unfoldable pub new : PciRootBus H
  new = record { config_address = 0; devices = [] }

  -- `HashMap::get` and `insert`, on a list with one entry for a key
  unfoldable pub get : ℕ → List (ℕ × H) → Option H
  get key [] = none
  get key ((k, d) ∷ devices) = if k == key then some d else get key devices

  unfoldable pub insert : ℕ → H → List (ℕ × H) → List (ℕ × H)
  insert key device [] = (key, device) ∷ []
  insert key device ((k, d) ∷ devices) =
      if k == key then (key, device) ∷ devices else (k, d) ∷ insert key device devices

  unfoldable pub add_device : ℕ → ℕ → H → PciRootBus H → PciRootBus H
  add_device dev func device bus = record bus {
    devices = insert (slot_key dev func) device bus.devices;
  }

-- The slot and register of an access, with the device if one is there.
pub target : {H : Type 0} → PciRootBus H → ℕ → Option (H × ℕ)
target bus offset = elim (selected bus.config_address (offset - 4)) [
  | none ↦ none
  | some (key, reg) ↦ elim (get key bus.devices) [ none ↦ none | some d ↦ some (d, reg) ]
]

module _ {H S : Type 0} (device : PciDevice H S) where
  -- `BusDevice::read` of the root bus
  pub read : PciRootBus H → ℕ → List ℕ → S → List ℕ
  read bus offset buffer s =
      if ltb offset 4
      then latch_read (to_le 4 bus.config_address) offset buffer
      else elim (target bus offset) [
        | none ↦ replicate (length buffer) 0xff
        | some (d, reg) ↦ device.config_read d reg buffer s
      ]

  -- `BusDevice::write` of the root bus
  pub write : PciRootBus H → ℕ → List ℕ → S → PciRootBus H × S
  write bus offset bytes s =
      if ltb offset 4
      then (
        record bus {
          config_address = from_le (latch_write (to_le 4 bus.config_address) offset bytes);
        },
        s,
      )
      else elim (target bus offset) [
        | none ↦ (bus, s)
        | some (d, reg) ↦ (bus, device.config_write d reg bytes s)
      ]
