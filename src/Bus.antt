-- ===== src/Bus.antt =====
-- src/bus.rs: the address bus, from ranges to devices.
-- A device is a handle `H` into a store `S` of all device states, so that one device registered at
-- two ranges is shared, as an `Arc<Mutex<..>>` is. The standard library's `BTreeMap` is the list of
-- its entries in key order: a search walks up by `cmp` and stops at the first key not above.
mod Tests
pub mod Registration
pub mod Dispatch
use ferrvm.Prelude.{
  ℕ, ◌+◌, ◌-◌, ◌^◌, Bool, true, false, ◌&&◌, Option, none, some, List, [], ◌∷◌, ltb, leb, ◌==◌,
  if◌then◌else◌, Result, ok, err, ◌>>=◌, length, replicate, checked_add, min,
}

pub data BusError : Type 0 where
  zero_length : ℕ → BusError
  overflow : ℕ → ℕ → BusError
  overlap : ℕ → ℕ → BusError

-- `[base, base + len)`
pub record BusRange : Type 0 where
  pub base : ℕ
  pub len : ℕ

abbrev pub max_addr : ℕ
max_addr = 2 ^ 64 - 1

unfoldable pub new : ℕ → ℕ → Result BusError BusRange
new base len = if len == 0 then err (zero_length base) else elim (checked_add base len) [
  | none ↦ err (overflow base max_addr)
  | some end ↦ ok (record { base = base; len = len })
]

abbrev pub point : ℕ → BusRange
point addr = record { base = addr; len = 1 }

-- `saturating_add`
abbrev pub end : BusRange → ℕ
end r = min (r.base + r.len) max_addr

pub contains_range : BusRange → ℕ → ℕ → Bool
contains_range r addr len = elim (checked_add addr len) [
  | none ↦ false
  | some req_end ↦ leb r.base addr && leb req_end (end r)
]

abbrev pub overlaps : BusRange → BusRange → Bool
overlaps r other = ltb r.base (end other) && ltb other.base (end r)

pub data Order : Type 0 where
  less equal greater : Order

-- `Ord for BusRange`: ranges that overlap are equal keys.
unfoldable pub cmp : BusRange → BusRange → Order
cmp r other = if overlaps r other then equal else if leb (end r) other.base then less else greater

module _ {H : Type 0} where
  -- `BTreeMap::get_key_value`
  unfoldable pub get_key_value : BusRange → List (BusRange × H) → Option (BusRange × H)
  get_key_value key [] = none
  get_key_value key ((k, d) ∷ devices) = elim (cmp key k) [
    | equal ↦ some (k, d)
    | less ↦ none
    | greater ↦ get_key_value key devices
  ]

  -- `BTreeMap::insert`: an equal key keeps the old key and takes the new value.
  unfoldable pub insert : BusRange → H → List (BusRange × H) → List (BusRange × H)
  insert key device [] = (key, device) ∷ []
  insert key device ((k, d) ∷ devices) = elim (cmp key k) [
    | equal ↦ (k, device) ∷ devices
    | less ↦ (key, device) ∷ (k, d) ∷ devices
    | greater ↦ (k, d) ∷ insert key device devices
  ]

  unfoldable pub register : ℕ → ℕ → H → List (BusRange × H) → Result BusError (List (BusRange × H))
  register base len device devices = do
    range ← new base len
    elim (get_key_value range devices) [
      | some _ ↦ err (overlap base len)
      | none ↦ ok (insert range device devices)
    ]

  unfoldable pub lookup : ℕ → List (BusRange × H) → Option (BusRange × H)
  lookup addr devices = get_key_value (point addr) devices

-- `trait BusDevice`: an access takes the handle, the offset, the buffer and all device states.
pub record BusDevice (H S : Type 0) : Type 0 where
  pub read : H → ℕ → List ℕ → S → List ℕ × S
  pub write : H → ℕ → List ℕ → S → S

module _ {H S : Type 0} (device : BusDevice H S) (devices : List (BusRange × H)) where
  -- Whether a device claimed the access, the buffer, and the device states.
  pub read : ℕ → List ℕ → S → Bool × List ℕ × S
  read addr [] s = (true, [], s)
  read addr (b ∷ rest) s = elim (lookup addr devices) [
    | none ↦ (false, replicate (length (b ∷ rest)) 0xff, s)
    | some (range, dev) ↦
        if contains_range range addr (length (b ∷ rest))
        then (let (bytes, s') = device.read dev (addr - range.base) (b ∷ rest) s in
            (true, bytes, s'))
        else (false, replicate (length (b ∷ rest)) 0xff, s)
  ]

  pub write : ℕ → List ℕ → S → Bool × S
  write addr [] s = (true, s)
  write addr (b ∷ rest) s = elim (lookup addr devices) [
    | none ↦ (false, s)
    | some (range, dev) ↦
        if contains_range range addr (length (b ∷ rest))
        then (true, device.write dev (addr - range.base) (b ∷ rest) s)
        else (false, s)
  ]
