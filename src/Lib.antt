-- ===== src/Lib.antt =====
-- ferrvm, a virtual machine monitor in Rust: its device model, kernel loader and vCPU exits.
--
-- The guest reaches the devices through two address buses (`src/bus.rs`), one for ports and one for
-- MMIO. On the port bus stand the UART (`src/serial.rs`) and the PCI root bus (`src/pci.rs`); on the
-- MMIO bus a window that routes to the BARs of the virtio-pci functions (`src/virtio/pci.rs`). A
-- virtio function hands a notified queue (`src/virtio/mod.rs`) to its backend, the block device
-- (`src/virtio/blk.rs`) or the entropy source (`src/virtio/rng.rs`), and these read and write guest
-- memory (`src/memory.rs`). A thread reads the host's terminal (`src/input.rs`), takes the escape keys
-- out (`src/terminal.rs`) and gives the rest to the UART.
--
-- Before the guest runs, the loader (`src/boot.rs`) puts the kernel, the zero page and the page tables
-- into guest memory and gives the first vCPU its registers (`src/traits.rs`), and `src/mptable.rs`
-- writes the table of the CPUs. Then a thread for each vCPU (`src/vcpu.rs`) runs it in a backend,
-- KVM (`src/kvm`) or bhyve (`src/bhyve`), whose exit handler takes the guest's accesses to the buses.
-- `src/main.rs` puts all of this together and joins the threads at the end.
--
-- Memory        src/memory.rs: `GuestMemory` is a size and a byte for each address. `mmap` is a
--               parameter. Theorems in Memory/Access.
-- Bus           src/bus.rs: the `BTreeMap` of ranges is the list of its entries in key order, with the
--               source's order on ranges. Bus/Registration and Bus/Dispatch.
-- Serial        src/serial.rs: one function per handler; the host clock is an argument, the sinks are
--               logs. Serial/Registers has the constants, Serial/Events the sequences of calls,
--               Serial/Line the interrupt line, Serial/Fifo, Serial/Drain and Serial/Timeout the FIFO,
--               Serial/Types the ranges of the registers (Written for
--               writes, Read for reads, Kept for sequences).
-- Pci           src/pci.rs: the configuration space and the CONFIG_ADDRESS mechanism. Pci/Latch and
--               Pci/Decode.
-- Virtio/Queue  src/virtio/mod.rs: `Virtqueue::process`. Virtio/Queue/Chain, Served and Progress.
-- Virtio/Pci    src/virtio/pci.rs: Layout has the constants, Config the configuration space (its
--               theorems in Config/Bar), State the device with its interrupts and reset, Common the
--               common configuration registers (the queue addresses in Common/Halves), Mmio the BAR
--               and the window. Pending, Interrupts and Unmask are about MSI-X delivery, Events about
--               sequences of calls.
-- Virtio/Blk    src/virtio/blk.rs: requests on a backing file, which is a parameter. Virtio/Blk/Bounds.
-- Virtio/Rng    src/virtio/rng.rs: the entropy file is a parameter. Virtio/Rng/Outside.
-- Console       src/terminal.rs and src/input.rs: the escape keys and the reader's loop, one round for
--               each outcome of `poll` and `read`. Console/Escape and Console/Heard.
-- Cpu           src/traits.rs: the registers, and the interface `Vcpu` that the loader uses. Cpu/Kvm has
--               the conversions of src/kvm/core.rs, Cpu/Bhyve the register calls of
--               src/bhyve/core.rs; the kernels' own calls are interfaces. Cpu/Bhyve/Registers,
--               Cpu/Bhyve/Segments and Cpu/Bhyve/Special; Cpu/Bhyve/Modes and
--               Cpu/Bhyve/Translate have the read of an instruction.
-- Boot          src/boot.rs, src/elf.rs and src/bootparams.rs: Image (the formats, the RAM disk and the
--               command line), Elf (Elf/Segments and Elf/Below), Params with its Header (in
--               Params/ZeroPage what the kernel finds), Paging (segments in Gdt, a processor's walk in
--               Walk, the whole of `setup_long_mode` in LongMode, the modes in Modes) and Load with
--               `load_kernel` (Load/BzImage; Sized and Sized/Loaded are about the size of guest memory).
-- Mptable       src/mptable.rs: the table's bytes. Sums is about length, count and checksum, Entries
--               about the entries as a guest reads them, Written about guest memory.
-- Exits         src/stats.rs, and in Kvm and Bhyve the exit handlers (src/kvm/exithandler.rs,
--               src/bhyve/exithandler.rs), which Agree compares; Reasons and Codes are the exits of
--               src/kvm/api.rs and src/bhyve/api.rs. Run has the loop of src/vcpu.rs.
--               Counted is about the counters, Step has `step_run` of src/kvm/core.rs and
--               src/bhyve/core.rs, Step/Kicks is about its errors.
-- Vm            the calls of src/kvm/core.rs and src/bhyve/core.rs that make a VM and its vCPUs. Calls
--               has the chain of fallible calls and the interface of src/traits.rs; the kernel is a
--               parameter, a function of the request and the host's state. Kvm with the ioctl numbers
--               of src/kvm/ioctl.rs in Kvm/Numbers, and Kvm/Setup; Bhyve with its structures in
--               Bhyve/Requests, Bhyve/Names and Bhyve/Lifetime; Sinks has the requests of
--               src/kvm/irq.rs and src/bhyve/irq.rs, which Sinks/Agree compares.
-- Shutdown      `Shutdown` of src/input.rs and the threads that use it, as steps that they take in any
--               order, with the signals that they send. Shutdown/Registered is about the threads that
--               registered themselves, Shutdown/Kicks about one that is signalled, Shutdown/Through
--               about the one that asks, Shutdown/Entries about entries.
-- Start         src/main.rs and src/config.rs: the choices made from the command line, Buses with what
--               stands on the buses, Cpus with the vCPUs (Cpus/States), Machine with start-up as one
--               function (Machine/Started, on Machine/Chain and Machine/Ram), and Join with the end of
--               the threads.
-- Prelude       tests on numbers, lists, machine words and bit operations shared by all of these. The
--               Tests module beside a component applies its theorems at concrete inputs.
--
-- Integers are natural numbers with the wrap-around of a release build written out. The loop of
-- `Virtqueue::process` runs on 2^16 units of fuel: an index of 16 bits meets the guest's index after
-- at most 2^16 - 1 increments, so the fuel is enough. The chain loop needs none: it is cut once the
-- chain is longer than the queue. The loop of a vCPU may run for ever; it runs on fuel, and is compared
-- with a step relation for every fuel. The search for a text that is removed from the command line has
-- the text's length for fuel, since each round drops a byte. The host's files are lists of bytes, a panic
-- of an index or a slice is an error of its own.
--
-- Locks and threads are left out but in Shutdown: each handler runs under the lock of its device, so its
-- call is one step, and start-up is what one thread does. The host's system calls are parameters of the functions
-- that make them. Not modelled: the ioctl numbers of src/bhyve/api.rs and the C structures that only
-- traces read; the decoding of an instruction for a trace (src/bhyve/exithandler.rs); the unmapping of
-- memory and of run pages; the fields of the zero page that the loader leaves zero
-- (src/bootparams.rs); the terminal's raw mode and signal handlers (src/terminal.rs); the printing of
-- registers (src/vcpu.rs); the parsing of the command line, which a crate does; the messages; the choice
-- of the backend at build time (src/hypervisor.rs); the guest test program.
pub mod Prelude
pub mod Memory
pub mod Bus
pub mod Serial
pub mod Pci
pub mod Console
pub mod Cpu
pub mod Boot
pub mod Mptable
pub mod Exits
pub mod Virtio
pub mod Vm
pub mod Shutdown
pub mod Start
