-- ===== src/Serial/Registers.antt =====
-- The register map of src/serial.rs: offsets, bits, codes, and the receive trigger.
use ferrvm.Prelude.{ℕ, bit_and, bit_or, ◌==◌, if◌then◌else◌}

abbrev pub reg_rbr_thr_dll : ℕ
reg_rbr_thr_dll = 0

abbrev pub reg_ier_dlm : ℕ
reg_ier_dlm = 1

abbrev pub reg_iir_fcr : ℕ
reg_iir_fcr = 2

abbrev pub reg_lcr : ℕ
reg_lcr = 3

abbrev pub reg_mcr : ℕ
reg_mcr = 4

abbrev pub reg_lsr : ℕ
reg_lsr = 5

abbrev pub reg_msr : ℕ
reg_msr = 6

abbrev pub reg_scr : ℕ
reg_scr = 7

abbrev pub ier_erbfi : ℕ
ier_erbfi = 0x1

abbrev pub ier_etbei : ℕ
ier_etbei = 0x2

abbrev pub ier_elsi : ℕ
ier_elsi = 0x4

abbrev pub ier_edssi : ℕ
ier_edssi = 0x8

abbrev pub ier_mask : ℕ
ier_mask = 0x0f

abbrev pub iir_none : ℕ
iir_none = 0x01

abbrev pub iir_rls : ℕ
iir_rls = 0x06

abbrev pub iir_rda : ℕ
iir_rda = 0x04

abbrev pub iir_cti : ℕ
iir_cti = 0x0c

abbrev pub iir_thre : ℕ
iir_thre = 0x02

abbrev pub iir_ms : ℕ
iir_ms = 0x00

abbrev pub iir_fifo_enabled : ℕ
iir_fifo_enabled = 0xc0

abbrev pub fcr_enable : ℕ
fcr_enable = 0x1

abbrev pub fcr_clear_rx : ℕ
fcr_clear_rx = 0x2

abbrev pub fcr_clear_tx : ℕ
fcr_clear_tx = 0x4

abbrev pub lcr_dlab : ℕ
lcr_dlab = 0x80

abbrev pub mcr_dtr : ℕ
mcr_dtr = 0x1

abbrev pub mcr_rts : ℕ
mcr_rts = 0x2

abbrev pub mcr_out1 : ℕ
mcr_out1 = 0x4

abbrev pub mcr_out2 : ℕ
mcr_out2 = 0x8

abbrev pub mcr_loopback : ℕ
mcr_loopback = 0x10

abbrev pub mcr_mask : ℕ
mcr_mask = 0x1f

abbrev pub lsr_dr : ℕ
lsr_dr = 0x1

abbrev pub lsr_oe : ℕ
lsr_oe = 0x2

abbrev pub lsr_thre : ℕ
lsr_thre = 0x20

abbrev pub lsr_temt : ℕ
lsr_temt = 0x40

abbrev pub msr_dcts : ℕ
msr_dcts = 0x1

abbrev pub msr_ddsr : ℕ
msr_ddsr = 0x2

abbrev pub msr_teri : ℕ
msr_teri = 0x4

abbrev pub msr_ddcd : ℕ
msr_ddcd = 0x8

abbrev pub msr_cts : ℕ
msr_cts = 0x10

abbrev pub msr_dsr : ℕ
msr_dsr = 0x20

abbrev pub msr_ri : ℕ
msr_ri = 0x40

abbrev pub msr_dcd : ℕ
msr_dcd = 0x80

abbrev pub msr_deltas : ℕ
msr_deltas = 0x0f

abbrev pub msr_connected_default : ℕ
msr_connected_default = bit_or (bit_or msr_cts msr_dsr) msr_dcd

abbrev pub fifo_cap : ℕ
fifo_cap = 4096

-- 1 ms in nanoseconds
abbrev pub cti_timeout : ℕ
cti_timeout = 1_000_000

-- the FCR trigger code as a number of bytes
unfoldable pub trigger_bytes : ℕ → ℕ
trigger_bytes code =
    let c = bit_and code 0x03 in
    if c == 0 then 1 else if c == 1 then 4 else if c == 2 then 8 else 14
