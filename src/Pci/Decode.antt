-- ===== src/Pci/Decode.antt =====
-- The configuration mechanism of src/pci.rs: how CONFIG_ADDRESS selects a device and register.
use ferrvm.Prelude.{
  Option-cases, inl, inr, ℕ, ◌+◌, ◌-◌, ◌*◌, ◌/◌, ◌%◌, ◌<◌, ◌^◌, ◌≡◌, ◌⊎◌, true, false, refl, ◌∙◌,
  List, [], ◌∷◌, ltb, arith, length, replicate, none, some, if◌then◌else◌, ◌==◌, ge→ltb,
}
use ferrvm.Prelude.Bits.{bit_and_ones, bit_and_field, bit_or_fields, bit_and_high}
use ferrvm.Pci.{PciRootBus, PciDevice, slot_key, selected, get, insert, target, read, write}

pub slot_key_lem : (dev func : ℕ) → dev < 32 → func < 8 → slot_key dev func ≡ dev * 8 + func
unfolding slot_key
slot_key_lem dev func hd hf = ground (arith, bit_and_ones 3 func, bit_or_fields 3 dev func)

-- The decoding in arithmetic: bit 31 enables, bits 16 to 23 are the bus, 11 to 15 the device, 8 to
-- 10 the function, and bits 2 to 7 the register.
pub selected_lem :
    (a port_byte : ℕ)
    → a < 2 ^ 32
    → selected a port_byte ≡ (
        if a / 2 ^ 31 == 0
        then none
        else if a / 2 ^ 16 % 256 == 0
        then some (slot_key (a / 2 ^ 11 % 32) (a / 2 ^ 8 % 8), a % 256 / 4 * 4 + port_byte)
        else none)
unfolding selected
selected_lem a port_byte h = ground (
  arith,
  bit_and_high 31 1 a,
  bit_and_ones 8 (a / 2 ^ 16),
  bit_and_ones 5 (a / 2 ^ 11),
  bit_and_ones 3 (a / 2 ^ 8),
  bit_and_field 2 6 a,
)

-- The address that the driver latches for a register of device `dev`, function `func`, bus 0.
abbrev pub config_address : ℕ → ℕ → ℕ → ℕ
config_address dev func reg = 2 ^ 31 + dev * 2 ^ 11 + func * 2 ^ 8 + reg

selected-config_address :
    (dev func reg port_byte : ℕ)
    → dev < 32
    → func < 8
    → reg < 256
    → selected (config_address dev func reg) port_byte
      ≡ some (dev * 8 + func, reg / 4 * 4 + port_byte)
selected-config_address dev func reg port_byte hd hf hr =
    let a = config_address dev func reg in
    let fits : a < 2 ^ 32 = omega arith in
    let on : (a / 2 ^ 31 == 0) ≡ false = ground arith in
    let bus : (a / 2 ^ 16 % 256 == 0) ≡ true = ground arith in
    let d : a / 2 ^ 11 % 32 ≡ dev = omega arith in
    let f : a / 2 ^ 8 % 8 ≡ func = omega arith in
    let r : a % 256 ≡ reg = omega arith in
    selected_lem a port_byte fits ∙ rw (on, bus, d, f, r, slot_key_lem dev func hd hf)

target-config_address :
    {H : Type 0} (bus : PciRootBus H) (dev func reg k : ℕ)
    → bus.config_address ≡ config_address dev func reg
    → dev < 32
    → func < 8
    → reg < 256
    → target bus (4 + k)
      ≡ elim (get (dev * 8 + func) bus.devices) [ none ↦ none | some d ↦ some (d, reg / 4 * 4 + k) ]
unfolding target
target-config_address bus dev func reg k e hd hf hr =
    let port : 4 + k - 4 ≡ k = omega arith in
    rw (target, e, port, selected-config_address dev func reg k hd hf hr)

-- The two cases of `access_slot`.
access_config_data :
    {H S : Type 0} (device : PciDevice H S) (bus : PciRootBus H) (dev func reg k : ℕ)
    (bytes : List ℕ) (s : S)
    → bus.config_address ≡ config_address dev func reg
    → dev < 32
    → func < 8
    → reg < 256
    → ((d : H)
        → get (dev * 8 + func) bus.devices ≡ some d
        → (read device bus (4 + k) bytes s ≡ device.config_read d (reg / 4 * 4 + k) bytes s)
          × (write device bus (4 + k) bytes s
              ≡ (bus, device.config_write d (reg / 4 * 4 + k) bytes s)))
      × (get (dev * 8 + func) bus.devices ≡ none
          → (read device bus (4 + k) bytes s ≡ replicate (length bytes) 0xff)
            × (write device bus (4 + k) bytes s ≡ (bus, s)))
unfolding read write
access_config_data device bus dev func reg k bytes s e hd hf hr =
    let to = target-config_address bus dev func reg k e hd hf hr in
    let above : ltb (4 + k) 4 ≡ false = ge→ltb (4 + k) 4 (omega arith) in
    (
      λ d here.
          let to_d : target bus (4 + k) ≡ some (d, reg / 4 * 4 + k) = to ∙ rw here in
          (rw (read, above, to_d), rw (write, above, to_d)),
      λ empty.
          let to_none : target bus (4 + k) ≡ none = to ∙ rw empty in
          (rw (read, above, to_none), rw (write, above, to_none)),
    )

-- A latch that is not enabled, or that names another bus, reaches no device: a read gives all ones
-- and a write is dropped.
pub access_disabled :
    {H S : Type 0} (device : PciDevice H S) (bus : PciRootBus H) (k : ℕ) (bytes : List ℕ) (s : S)
    → bus.config_address < 2 ^ 32
    → (bus.config_address < 2 ^ 31) ⊎ (0 < bus.config_address / 2 ^ 16 % 256)
    → (read device bus (4 + k) bytes s ≡ replicate (length bytes) 0xff)
      × (write device bus (4 + k) bytes s ≡ (bus, s))
unfolding read write target
access_disabled device bus k bytes s fits off =
    let port : 4 + k - 4 ≡ k = omega arith in
    let none_selected : selected bus.config_address k ≡ none =
      ground (arith, selected_lem bus.config_address k fits) in
    let above : ltb (4 + k) 4 ≡ false = ge→ltb (4 + k) 4 (omega arith) in
    (rw (read, above, target, port, none_selected), rw (write, above, target, port, none_selected))

-- A device stands in the slot at which it was added last, and adding it changes no other slot.
pub get-insert :
    {H : Type 0} (key : ℕ) (d : H) (devices : List (ℕ × H)) (other : ℕ)
    → get other (insert key d devices) ≡ (if key == other then some d else get other devices)
unfolding get insert
get-insert key d [] other = refl
get-insert key d ((k, e) ∷ devices) other = ground (arith, get-insert key d devices other)

-- With the address of a slot latched, an access to CONFIG_DATA byte `k` reaches the device in that
-- slot at the register's double word plus `k`; with the slot empty a read gives all ones and a write
-- is dropped. The latch and the slots stay.
pub access_slot :
    {H S : Type 0} (device : PciDevice H S) (bus : PciRootBus H) (dev func reg k : ℕ)
    (bytes : List ℕ) (s : S)
    → bus.config_address ≡ config_address dev func reg
    → dev < 32
    → func < 8
    → reg < 256
    → (read device bus (4 + k) bytes s ≡ elim (get (dev * 8 + func) bus.devices) [
      | none ↦ replicate (length bytes) 0xff
      | some d ↦ device.config_read d (reg / 4 * 4 + k) bytes s
    ])
      × (write device bus (4 + k) bytes s ≡ (
        bus,
        elim (get (dev * 8 + func) bus.devices) [
          | none ↦ s
          | some d ↦ device.config_write d (reg / 4 * 4 + k) bytes s
        ],
      ))
access_slot device bus dev func reg k bytes s latched h_dev h_func h_reg =
    let both = access_config_data device bus dev func reg k bytes s latched h_dev h_func h_reg in
    elim (Option-cases (get (dev * 8 + func) bus.devices)) [
      | inl empty ↦ rw empty (both.1 empty)
      | inr (d, there) ↦ rw there (both.0 d there)
    ]
