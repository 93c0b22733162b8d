-- ===== src/Serial/Types/Read.antt =====
-- What the reads of src/serial.rs give, and what they do to the types of the registers.
use ferrvm.Prelude.{
  arith, ℕ, ◌<◌, Bool, true, false, List, [], ◌∷◌, ◌==◌, if◌then◌else◌, if_keeps, All, IsByte,
}
use ferrvm.Prelude.Bits.{bit_or-lt, bit_and-le}
use ferrvm.Serial.{
  Serial, read_lsr, read_iir, read_msr, read_rbr, read_register, dlab, pop_front, unwrap_or,
  pending_interrupt, pending_rx,
}
use ferrvm.Serial.Types.{IsTyped, typed, update_irq-IsTyped, Reads}

read_rbr-Reads : (now : ℕ) (s : Serial) → IsTyped s → Reads (read_rbr now s)
unfolding read_rbr
read_rbr-Reads now s v = (
  (popped s.rx v.rx_fits).0,
  update_irq-IsTyped _ (
      typed _ v.ier_fits v.lcr_fits v.mcr_fits v.scr_fits v.dll_fits v.dlm_fits v.trigger_fits
        v.msr_fits ((popped s.rx v.rx_fits).1) v.out_fits),
)
  where
    popped :
        (rx : List ℕ) → All IsByte rx → ((pop_front rx).0 < 256) × All IsByte ((pop_front rx).1)
    popped [] h = (omega arith, tt)
    popped (b ∷ rest) h = h

pending_rx-lt : (s : Serial) → unwrap_or (pending_rx s) 1 < 256
unfolding pending_rx
pending_rx-lt s = ground arith

pending_interrupt-lt : (s : Serial) → unwrap_or (pending_interrupt s) 1 < 256
unfolding pending_interrupt pending_rx
pending_interrupt-lt s = ground arith

fifo_bits-lt : (enabled : Bool) → (if enabled then 0xc0 else 0) < 256
fifo_bits-lt true = omega arith
fifo_bits-lt false = omega arith

read_iir-Reads : (s : Serial) → IsTyped s → Reads (read_iir s)
unfolding read_iir
read_iir-Reads s v = (
  bit_or-lt 8 _ _ (pending_interrupt-lt s) (fifo_bits-lt _),
  if_keeps IsTyped _ _ _
      (update_irq-IsTyped _ (
        typed _ v.ier_fits v.lcr_fits v.mcr_fits v.scr_fits v.dll_fits v.dlm_fits v.trigger_fits
          v.msr_fits v.rx_fits v.out_fits))
      v,
)

read_lsr-Reads : (s : Serial) → IsTyped s → Reads (read_lsr s)
unfolding read_lsr
read_lsr-Reads s v = (
  ground arith,
  update_irq-IsTyped _ (
      typed _ v.ier_fits v.lcr_fits v.mcr_fits v.scr_fits v.dll_fits v.dlm_fits v.trigger_fits
        v.msr_fits v.rx_fits v.out_fits),
)

read_msr-Reads : (s : Serial) → IsTyped s → Reads (read_msr s)
unfolding read_msr
read_msr-Reads s v = (
  v.msr_fits,
  update_irq-IsTyped _ (
      typed _ v.ier_fits v.lcr_fits v.mcr_fits v.scr_fits v.dll_fits v.dlm_fits v.trigger_fits
        (omega (arith, bit_and-le 8 s.msr 0xf0 (omega arith))) v.rx_fits v.out_fits),
)

pub read_register-Reads :
    (offset now : ℕ) (s : Serial) → IsTyped s → Reads (read_register offset now s)
unfolding read_register
read_register-Reads offset now s v =
    keep (offset == 0) _ _ (keep (dlab s) _ _ (v.dll_fits, v) (read_rbr-Reads now s v)) (
      keep (offset == 1) _ _ (latch (dlab s) s.dlm s.ier v.dlm_fits v.ier_fits, v)
        (keep (offset == 2) _ _ (read_iir-Reads s v) (
          keep (offset == 3) _ _ (v.lcr_fits, v)
            (keep (offset == 4) _ _ (omega (arith, v.mcr_fits), v)
              (keep (offset == 5) _ _ (read_lsr-Reads s v) (
                keep (offset == 6) _ _ (read_msr-Reads s v)
                  (keep (offset == 7) _ _ (v.scr_fits, v) (omega arith, v))))))))
  where
    keep : (b : Bool) (x y : ℕ × Serial) → Reads x → Reads y → Reads (if b then x else y)
    keep = if_keeps Reads

    latch : (b : Bool) (dlm ier : ℕ) → dlm < 256 → ier < 16 → (if b then dlm else ier) < 256
    latch true dlm ier h g = h
    latch false dlm ier h g = omega arith
