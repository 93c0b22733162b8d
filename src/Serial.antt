-- ===== src/Serial.antt =====
-- src/serial.rs: the 16550A UART.
-- A handler returns the new state; one that returns a value gives it first. `now` is the host clock
-- in nanoseconds at the call. The sinks are logs: `out` holds the bytes written to the host, and
-- `signals` each `IrqSink::set_level` call with the sink that it went to, newest first.
mod Tests
pub mod Registers
pub mod Events
pub mod Line
pub mod Fifo
pub mod Drain
pub mod Timeout
pub mod Types
use Registers.*
use ferrvm.Prelude.{
  ℕ, zero, suc, ◌+◌, ◌-◌, ◌*◌, ◌/◌, ◌%◌, ◌^◌, Bool, true, false, not, ◌&&◌, ◌||◌, Option, none,
  some, List, [], ◌∷◌, ◌++◌, ltb, leb, ◌==◌, if◌then◌else◌, length, replicate, bit_and, bit_or,
  bit_xor, has_bits, differs, ◌<<<◌, ◌>>>◌,
}

pub record Serial : Type 0 where
  pub ier : ℕ
  pub lcr : ℕ
  pub mcr : ℕ
  pub scr : ℕ
  pub dll : ℕ
  pub dlm : ℕ
  pub fcr_enabled : Bool
  pub rx_trigger : ℕ
  pub msr : ℕ
  pub rx : List ℕ
  pub overrun : Bool
  pub thre_pending : Bool
  pub cti_pending : Bool
  pub last_rx_activity : ℕ
  pub last_irq_level : Bool
  pub out : List ℕ
  pub irq : ℕ
  pub signals : List (ℕ × Bool)

pub new : ℕ → ℕ → Serial
new irq now = record {
  ier = 0;
  lcr = 0;
  mcr = 0;
  scr = 0;
  dll = 0;
  dlm = 0;
  fcr_enabled = false;
  rx_trigger = 0;
  msr = msr_connected_default;
  rx = [];
  overrun = false;
  thre_pending = false;
  cti_pending = false;
  last_rx_activity = now;
  last_irq_level = false;
  out = [];
  irq = irq;
  signals = [];
}

-- The number of bytes at which the FIFO raises RDA.
abbrev pub trigger_level : Serial → ℕ
trigger_level s = if s.fcr_enabled then trigger_bytes s.rx_trigger else 1

-- The receive part of `pending_interrupt`, which RDA and CTI share.
pub pending_rx : Serial → Option ℕ
pending_rx s =
    if has_bits s.ier ier_erbfi
    then (if leb (trigger_level s) (length s.rx)
        then some iir_rda
        else if s.cti_pending && ltb 0 (length s.rx)
        then some iir_cti
        else none)
    else none

pub pending_interrupt : Serial → Option ℕ
pending_interrupt s =
    if has_bits s.ier ier_elsi && s.overrun then some iir_rls else elim (pending_rx s) [
      | some code ↦ some code
      | none ↦
          if has_bits s.ier ier_etbei && s.thre_pending
          then some iir_thre
          else if has_bits s.ier ier_edssi && has_bits s.msr msr_deltas
          then some iir_ms
          else none
    ]

abbrev pub is_some {ℓ} : {A : Type ℓ} → Option A → Bool
is_some none = false
is_some (some _) = true

-- Whether the interrupt line is to be high.
pub asserted : Serial → Bool
asserted s = has_bits s.mcr mcr_out2 && is_some (pending_interrupt s)

pub update_irq : Serial → Serial
update_irq s =
    if differs (asserted s) s.last_irq_level
    then record s { last_irq_level = asserted s; signals = (s.irq, asserted s) ∷ s.signals }
    else s

-- The loop of `inject_rx`: the FIFO, and whether a byte found it full.
pub push_all : List ℕ → List ℕ → List ℕ × Bool
push_all rx [] = (rx, false)
push_all rx (b ∷ bytes) =
    let rest = push_all (rx ++ b ∷ []) bytes in
    if leb fifo_cap (length rx) then (rx, true) else rest

pub inject_rx : List ℕ → ℕ → Serial → Serial
inject_rx bytes now s =
    if has_bits s.mcr mcr_loopback
    then s
    else (let (rx, full) = push_all s.rx bytes in
        update_irq (record s {
          rx = rx;
          overrun = s.overrun || full;
          last_rx_activity = now;
          cti_pending = false;
        }))

-- The condition under which `tick_cti` reports a timeout; `elapsed` is `now - last_rx_activity`.
abbrev pub timed_out : ℕ → Serial → Bool
timed_out now s =
    ltb 0 (length s.rx)
    && s.fcr_enabled
    && ltb (length s.rx) (trigger_bytes s.rx_trigger)
    && leb cti_timeout (now - s.last_rx_activity)

pub tick_cti : ℕ → Serial → Bool × Serial
tick_cti now s =
    let cti = s.cti_pending || timed_out now s in
    if differs s.cti_pending cti
    then (true, update_irq (record s { cti_pending = cti }))
    else (false, s)

pub replace_irq_sink : ℕ → Serial → Serial
replace_irq_sink sink s = update_irq (record s { last_irq_level = false; irq = sink })

abbrev pub dlab : Serial → Bool
dlab s = has_bits s.lcr lcr_dlab

pub read_lsr : Serial → ℕ × Serial
read_lsr s =
    let lsr = bit_or lsr_thre lsr_temt in
    let lsr = if ltb 0 (length s.rx) then bit_or lsr lsr_dr else lsr in
    let lsr = if s.overrun then bit_or lsr lsr_oe else lsr in
    (lsr, update_irq (record s { overrun = false }))

abbrev pub unwrap_or : Option ℕ → ℕ → ℕ
unwrap_or none d = d
unwrap_or (some a) d = a

pub read_iir : Serial → ℕ × Serial
read_iir s =
    let id = unwrap_or (pending_interrupt s) iir_none in
    let s' = if id == iir_thre then update_irq (record s { thre_pending = false }) else s in
    (bit_or id (if s'.fcr_enabled then iir_fifo_enabled else 0), s')

-- `write_thr` before its `update_irq`. Errors of `self.out` are ignored, so it is a log.
pub transmit : ℕ → Serial → Serial
transmit byte s =
    if has_bits s.mcr mcr_loopback
    then (if leb fifo_cap (length s.rx)
        then record s { overrun = true; thre_pending = true }
        else record s { rx = s.rx ++ byte ∷ []; thre_pending = true })
    else record s { out = byte ∷ s.out; thre_pending = true }

pub write_thr : ℕ → Serial → Serial
write_thr byte s = update_irq (transmit byte s)

pub write_fcr : ℕ → Serial → Serial
write_fcr value s =
    let enabled = has_bits value fcr_enable in
    let clear = (enabled && not s.fcr_enabled) || has_bits value fcr_clear_rx in
    update_irq (record s {
      fcr_enabled = enabled;
      rx_trigger = bit_and (value >>> 6) 0x03;
      rx = if clear then [] else s.rx;
      cti_pending = if clear then false else s.cti_pending;
    })

-- Modem-control outputs looped back to the modem-status inputs.
pub loopback_state : ℕ → ℕ
loopback_state mcr =
    bit_or
      (bit_or (bit_or (bit_and mcr mcr_dtr <<< 5) (bit_and mcr mcr_rts <<< 3))
        (bit_and mcr mcr_out1 <<< 4))
      (bit_and mcr mcr_out2 <<< 4)

-- Which of the modem lines changed, as delta bits.
pub delta_bits : ℕ → ℕ
delta_bits deltas =
    let d = if has_bits deltas msr_cts then bit_or 0 msr_dcts else 0 in
    let d = if has_bits deltas msr_dsr then bit_or d msr_ddsr else d in
    let d = if has_bits deltas msr_ri then bit_or d msr_teri else d in
    if has_bits deltas msr_dcd then bit_or d msr_ddcd else d

pub looped_msr : ℕ → ℕ → ℕ
looped_msr mcr msr =
    let state = loopback_state mcr in
    bit_or (bit_or state (bit_and msr msr_deltas)) (delta_bits (bit_xor (bit_and msr 0xf0) state))

-- `write_mcr` before its `update_irq`; `mcr` is the masked value.
pub set_mcr : ℕ → Serial → Serial
set_mcr mcr s =
    let was_loopback = has_bits s.mcr mcr_loopback in
    if has_bits mcr mcr_loopback
    then record s {
      mcr = mcr;
      msr = looped_msr mcr s.msr;
      rx = if was_loopback then s.rx else [];
      cti_pending = if was_loopback then s.cti_pending else false;
    }
    else if was_loopback
    then record s { mcr = mcr; msr = bit_or msr_connected_default (bit_and s.msr msr_deltas) }
    else record s { mcr = mcr }

pub write_mcr : ℕ → Serial → Serial
write_mcr value s = update_irq (set_mcr (bit_and value mcr_mask) s)

-- `!MSR_DELTAS` on a byte is 0xf0.
pub read_msr : Serial → ℕ × Serial
read_msr s = (s.msr, update_irq (record s { msr = bit_and s.msr 0xf0 }))

-- `rx.pop_front().unwrap_or(0)` with the FIFO that is left
abbrev pub pop_front : List ℕ → ℕ × List ℕ
pop_front [] = (0, [])
pop_front (b ∷ rest) = (b, rest)

-- The RBR read: the oldest byte, or 0.
pub read_rbr : ℕ → Serial → ℕ × Serial
read_rbr now s =
    let (b, rest) = pop_front s.rx in
    (
      b,
      update_irq (record s {
        rx = rest;
        last_rx_activity = now;
        cti_pending = if ltb 0 (length rest) then s.cti_pending else false;
      }),
    )

-- The register that an offset selects for a read.
pub read_register : ℕ → ℕ → Serial → ℕ × Serial
read_register offset now s =
    if offset == reg_rbr_thr_dll
    then (if dlab s then (s.dll, s) else read_rbr now s)
    else if offset == reg_ier_dlm
    then ((if dlab s then s.dlm else s.ier), s)
    else if offset == reg_iir_fcr
    then read_iir s
    else if offset == reg_lcr
    then (s.lcr, s)
    else if offset == reg_mcr
    then (s.mcr, s)
    else if offset == reg_lsr
    then read_lsr s
    else if offset == reg_msr
    then read_msr s
    else if offset == reg_scr
    then (s.scr, s)
    else (0xff, s)

-- `BusDevice::read`: the first byte is the register, the others of a wider access are `0xff`.
pub read : ℕ → List ℕ → ℕ → Serial → List ℕ × Serial
read offset [] now s = ([], s)
read offset (b ∷ rest) now s =
    let (byte, s') = read_register offset now s in (byte ∷ replicate (length rest) 0xff, s')

pub write_register : ℕ → ℕ → Serial → Serial
write_register offset value s =
    if offset == reg_rbr_thr_dll
    then (if dlab s then record s { dll = value } else write_thr value s)
    else if offset == reg_ier_dlm
    then (if dlab s
        then record s { dlm = value }
        else update_irq (record s { ier = bit_and value ier_mask }))
    else if offset == reg_iir_fcr
    then write_fcr value s
    else if offset == reg_lcr
    then record s { lcr = value }
    else if offset == reg_mcr
    then write_mcr value s
    else if offset == reg_scr
    then record s { scr = value }
    else s

-- `BusDevice::write`: only the first byte counts.
pub write : ℕ → List ℕ → Serial → Serial
write offset [] s = s
write offset (value ∷ rest) s = write_register offset value s
