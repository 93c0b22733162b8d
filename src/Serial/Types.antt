-- ===== src/Serial/Types.antt =====
-- The machine types of the registers of src/serial.rs.
mod Written
mod Read
pub mod Kept
use ferrvm.Prelude.{
  arith, ℕ, zero, suc, ◌/◌, ◌<◌, ◌≡◌, refl, Bool, true, false, List, [], ◌∷◌, ◌++◌, ◌==◌,
  if◌then◌else◌, if_keeps, not, ◌&&◌, ◌||◌, bit_and, bit_or, has_bits, length, replicate,
  length-replicate, ap, All, All-append, IsByte,
}
use ferrvm.Prelude.Bits.{bit_or-lt, bit_and-le}
use ferrvm.Serial.Registers.{
  msr_deltas, mcr_loopback, msr_connected_default, fcr_enable, fcr_clear_rx,
}
use ferrvm.Serial.{
  Serial, new, update_irq, push_all, inject_rx, tick_cti, read_lsr, read_iir, transmit, set_mcr,
  write_thr, write_fcr, write_mcr, read_msr, read_rbr, read_register, read, write_register, write,
  dlab, delta_bits, pop_front, unwrap_or, loopback_state, looped_msr, pending_interrupt, pending_rx,
}
use ferrvm.Serial.Events.{step, run, Event, reads, writes, injects, ticks}

-- A byte in each register and in the FIFO, and no bit that the chip does not have.
pub record IsTyped (s : Serial) : Type 0 where
  pub ier_fits : s.ier < 16
  pub lcr_fits : s.lcr < 256
  pub mcr_fits : s.mcr < 32
  pub scr_fits : s.scr < 256
  pub dll_fits : s.dll < 256
  pub dlm_fits : s.dlm < 256
  pub trigger_fits : s.rx_trigger < 4
  pub msr_fits : s.msr < 256
  pub rx_fits : All IsByte s.rx
  pub out_fits : All IsByte s.out

pub typed :
    (s : Serial)
    → s.ier < 16
    → s.lcr < 256
    → s.mcr < 32
    → s.scr < 256
    → s.dll < 256
    → s.dlm < 256
    → s.rx_trigger < 4
    → s.msr < 256
    → All IsByte s.rx
    → All IsByte s.out
    → IsTyped s
typed s ier lcr mcr scr dll dlm trigger msr rx out = record {
  ier_fits = ier;
  lcr_fits = lcr;
  mcr_fits = mcr;
  scr_fits = scr;
  dll_fits = dll;
  dlm_fits = dlm;
  trigger_fits = trigger;
  msr_fits = msr;
  rx_fits = rx;
  out_fits = out;
}

-- The bytes of a call's buffer are bytes.
abbrev pub IsByteEvent : ℕ × Event → Type 0
IsByteEvent (now, reads offset buffer) = All IsByte buffer
IsByteEvent (now, writes offset bytes) = All IsByte bytes
IsByteEvent (now, injects bytes) = All IsByte bytes
IsByteEvent (now, ticks) = Unit

pub update_irq-IsTyped : (s : Serial) → IsTyped s → IsTyped (update_irq s)
unfolding update_irq
update_irq-IsTyped s v =
    if_keeps IsTyped _ _ _
      (typed _ v.ier_fits v.lcr_fits v.mcr_fits v.scr_fits v.dll_fits v.dlm_fits v.trigger_fits
        v.msr_fits v.rx_fits v.out_fits)
      v

-- A handler that gives a byte and keeps the types.
abbrev pub Reads : ℕ × Serial → Type 0
Reads p = (p.0 < 256) × IsTyped p.1
