-- ===== src/Start/Buses.antt =====
-- The devices on the two buses and in the PCI slots, as src/main.rs registers them.
use ferrvm.Prelude.{
  arith, ℕ, ◌-◌, ◌<◌, ◌≤◌, ◌≡◌, refl, Bool, true, false, ◌&&◌, Option, none, some, List, [], ◌∷◌,
  ltb, leb, ◌==◌, if◌then◌else◌, Result, ok, ◌>>=◌, length, replicate,
}
use ferrvm.Bus.{BusRange, BusError, register, lookup, get_key_value, insert, cmp, new}
use ferrvm.Bus.Registration.{IsLaid, within}
use ferrvm.Pci
use ferrvm.Pci.{PciRootBus}
use ferrvm.Start.{pci_mmio_window_end}

-- What stands on the port bus.
pub data PortDevice : Type 0 where
  pci_root com1 null_device : PortDevice

-- What stands on the MMIO bus, and in the PCI slots.
pub data WindowDevice : Type 0 where
  pci_mmio : WindowDevice

pub data PciFunction : Type 0 where
  host_bridge virtio_rng virtio_blk : PciFunction

-- `NullDevice`
pub null_read : List ℕ → List ℕ
null_read buffer = replicate (length buffer) 0xff

-- The registrations on the port bus, in the order of the source.
unfoldable pub wire_pio : Result BusError (List (BusRange × PortDevice))
wire_pio = do
  with_pci ← register 0xcf8 8 pci_root []
  with_com1 ← register 0x3f8 8 com1 with_pci
  with_com2 ← register 0x2f8 8 null_device with_com1
  with_com3 ← register 0x3e8 8 null_device with_com2
  register 0x2e8 8 null_device with_com3

-- `none` is the error that guest RAM leaves no room for the window.
unfoldable pub wire_mmio : ℕ → Option (Result BusError (List (BusRange × WindowDevice)))
wire_mmio pci_window_base =
    if leb pci_mmio_window_end pci_window_base
    then none
    else some (register pci_window_base (pci_mmio_window_end - pci_window_base) pci_mmio [])

-- The slots: the host bridge, the entropy device and, with a disk, the block device.
unfoldable pub wire_pci : Bool → PciRootBus PciFunction
wire_pci disk =
    let bus = Pci.add_device 1 0 virtio_rng (Pci.add_device 0 0 host_bridge Pci.new) in
    if disk then Pci.add_device 2 0 virtio_blk bus else bus

-- The functions behind the window, in the order in which they are asked.
abbrev pub window_functions : Bool → List PciFunction
window_functions disk = if disk then virtio_rng ∷ virtio_blk ∷ [] else virtio_rng ∷ []

abbrev pub port_range : ℕ → BusRange
port_range base = record { base = base; len = 8 }

abbrev pub wired : List (BusRange × PortDevice)
wired =
    (port_range 0x2e8, null_device)
    ∷ (port_range 0x2f8, null_device)
    ∷ (port_range 0x3e8, null_device)
    ∷ (port_range 0x3f8, com1)
    ∷ (port_range 0xcf8, pci_root)
    ∷ []

wire_pio-wired : wire_pio ≡ ok wired
unfolding wire_pio register new get_key_value insert cmp
wire_pio-wired = refl

pub wired-IsLaid : IsLaid 0 wired
wired-IsLaid = omega arith

pub lookup-wired :
    (port : ℕ)
    → lookup port wired ≡ (
        if within (port_range 0x2e8) port
        then some (port_range 0x2e8, null_device)
        else if within (port_range 0x2f8) port
        then some (port_range 0x2f8, null_device)
        else if within (port_range 0x3e8) port
        then some (port_range 0x3e8, null_device)
        else if within (port_range 0x3f8) port
        then some (port_range 0x3f8, com1)
        else if within (port_range 0xcf8) port
        then some (port_range 0xcf8, pci_root)
        else none)
unfolding lookup get_key_value cmp
lookup-wired port = ground arith

-- Every registration on the port bus succeeds; then the guest finds the UART at COM1, the PCI
-- configuration ports, a null device at the three other COM ports, and nothing at any other port.
pub wire_pio_lem :
    (wire_pio ≡ ok wired)
    × IsLaid 0 wired
    × ((port : ℕ)
        → lookup port wired ≡ (
            if within (port_range 0x2e8) port
            then some (port_range 0x2e8, null_device)
            else if within (port_range 0x2f8) port
            then some (port_range 0x2f8, null_device)
            else if within (port_range 0x3e8) port
            then some (port_range 0x3e8, null_device)
            else if within (port_range 0x3f8) port
            then some (port_range 0x3f8, com1)
            else if within (port_range 0xcf8) port
            then some (port_range 0xcf8, pci_root)
            else none))
wire_pio_lem = (wire_pio-wired, wired-IsLaid, lookup-wired)

-- The range of the window above guest RAM.
abbrev pub window : ℕ → BusRange
window ram = record { base = ram; len = pci_mmio_window_end - ram }

-- With guest RAM below the end of the window, the window is registered, and the MMIO bus leads to it
-- exactly from the end of RAM to there, so that no RAM address reaches a device; otherwise start-up
-- reports that there is no room.
pub wire_mmio_lem :
    (ram : ℕ)
    → (ram < pci_mmio_window_end
        → (wire_mmio ram ≡ some (ok ((window ram, pci_mmio) ∷ [])))
          × IsLaid 0 ((window ram, pci_mmio) ∷ [])
          × ((addr : ℕ)
              → lookup addr ((window ram, pci_mmio) ∷ []) ≡ (
                  if leb ram addr && ltb addr pci_mmio_window_end
                  then some (window ram, pci_mmio)
                  else none)))
      × (pci_mmio_window_end ≤ ram → wire_mmio ram ≡ none)
unfolding wire_mmio register new get_key_value insert cmp lookup
wire_mmio_lem ram =
    (λ room. (ground arith, omega arith, λ addr. ground arith), λ full. ground arith)

-- The slot 0 has the host bridge, 1 the entropy device and 2 the block device when there is a disk; every
-- other slot of bus 0 is empty.
pub wire_pci_lem :
    (disk : Bool) (key : ℕ)
    → Pci.get key ((wire_pci disk).devices) ≡ (
        if key == 0
        then some host_bridge
        else if key == 8
        then some virtio_rng
        else if key == 16 && disk
        then some virtio_blk
        else none)
unfolding wire_pci Pci.add_device Pci.insert Pci.get Pci.slot_key Pci.new
wire_pci_lem true key = ground arith
wire_pci_lem false key = ground arith
