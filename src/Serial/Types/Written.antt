-- ===== src/Serial/Types/Written.antt =====
-- What writes, injected bytes and the clock do to the types of the registers in src/serial.rs.
use ferrvm.Prelude.{
  arith, ℕ, ◌/◌, ◌<◌, Bool, true, false, List, [], ◌∷◌, ◌++◌, ◌==◌, if◌then◌else◌, if_keeps, not,
  ◌&&◌, ◌||◌, bit_and, bit_or, has_bits, All, All-append, IsByte,
}
use ferrvm.Prelude.Bits.{bit_or-lt, bit_and-le}
use ferrvm.Serial.Registers.{
  msr_deltas, mcr_loopback, msr_connected_default, fcr_enable, fcr_clear_rx,
}
use ferrvm.Serial.{
  Serial, push_all, inject_rx, tick_cti, transmit, set_mcr, write_thr, write_fcr, write_mcr,
  write_register, dlab, delta_bits, loopback_state, looped_msr,
}
use ferrvm.Serial.Types.{IsTyped, typed, update_irq-IsTyped}

delta_bits-lt : (deltas : ℕ) → delta_bits deltas < 16
unfolding delta_bits
delta_bits-lt deltas = ground arith

loopback_state-lt : (mcr : ℕ) → loopback_state mcr < 256
unfolding loopback_state
loopback_state-lt mcr =
    let dtr = bit_and-le 8 mcr 1 (omega arith) in
    let rts = bit_and-le 8 mcr 2 (omega arith) in
    let out1 = bit_and-le 8 mcr 4 (omega arith) in
    let out2 = bit_and-le 8 mcr 8 (omega arith) in
    bit_or-lt 8 _ _ (bit_or-lt 8 _ _ (bit_or-lt 8 _ _ (omega arith) (omega arith)) (omega arith))
      (omega arith)

looped_msr-lt : (mcr msr : ℕ) → looped_msr mcr msr < 256
unfolding looped_msr
looped_msr-lt mcr msr =
    bit_or-lt 8 _ _
      (bit_or-lt 8 _ _ (loopback_state-lt mcr)
        (omega (arith, bit_and-le 8 msr msr_deltas (omega arith))))
      (omega (arith, delta_bits-lt _))

push_all-IsByte :
    (rx bytes : List ℕ) → All IsByte rx → All IsByte bytes → All IsByte (push_all rx bytes).0
unfolding push_all
push_all-IsByte rx [] h g = h
push_all-IsByte rx (b ∷ bytes) h g =
    if_keeps (λ (p : List ℕ × Bool). All IsByte p.0) _ _ _ h
      (push_all-IsByte (rx ++ b ∷ []) bytes (All-append IsByte rx (b ∷ []) h (g.0, tt)) g.1)

pub inject_rx-IsTyped :
    (bytes : List ℕ) (now : ℕ) (s : Serial)
    → All IsByte bytes
    → IsTyped s
    → IsTyped (inject_rx bytes now s)
unfolding inject_rx
inject_rx-IsTyped bytes now s g v = if_keeps IsTyped _ _ _ v (
    update_irq-IsTyped _ (
      typed _ v.ier_fits v.lcr_fits v.mcr_fits v.scr_fits v.dll_fits v.dlm_fits v.trigger_fits
        v.msr_fits (push_all-IsByte s.rx bytes v.rx_fits g) v.out_fits))

pub tick_cti-IsTyped : (now : ℕ) (s : Serial) → IsTyped s → IsTyped (tick_cti now s).1
unfolding tick_cti
tick_cti-IsTyped now s v =
    if_keeps (λ (p : Bool × Serial). IsTyped p.1) _ _ _
      (update_irq-IsTyped _ (
        typed _ v.ier_fits v.lcr_fits v.mcr_fits v.scr_fits v.dll_fits v.dlm_fits v.trigger_fits
          v.msr_fits v.rx_fits v.out_fits))
      v

transmit-IsTyped : (byte : ℕ) (s : Serial) → byte < 256 → IsTyped s → IsTyped (transmit byte s)
unfolding transmit
transmit-IsTyped byte s b v =
    if_keeps IsTyped _ _ _
      (if_keeps IsTyped _ _ _
        (typed _ v.ier_fits v.lcr_fits v.mcr_fits v.scr_fits v.dll_fits v.dlm_fits v.trigger_fits
          v.msr_fits v.rx_fits v.out_fits)
        (typed _ v.ier_fits v.lcr_fits v.mcr_fits v.scr_fits v.dll_fits v.dlm_fits v.trigger_fits
          v.msr_fits (All-append IsByte s.rx (byte ∷ []) v.rx_fits (b, tt)) v.out_fits))
      (typed _ v.ier_fits v.lcr_fits v.mcr_fits v.scr_fits v.dll_fits v.dlm_fits v.trigger_fits
        v.msr_fits v.rx_fits (b, v.out_fits))

mask-lt : (value : ℕ) → (bit_and value 0x0f < 16) × (bit_and value 0x1f < 32)
mask-lt value = (
  omega (arith, bit_and-le 8 value 0x0f (omega arith)),
  omega (arith, bit_and-le 8 value 0x1f (omega arith)),
)

kept_or_cleared : (b : Bool) (rx : List ℕ) → All IsByte rx → All IsByte (if b then rx else [])
kept_or_cleared true rx h = h
kept_or_cleared false rx h = tt

cleared_or_kept : (b : Bool) (rx : List ℕ) → All IsByte rx → All IsByte (if b then [] else rx)
cleared_or_kept true rx h = tt
cleared_or_kept false rx h = h

plain_msr-lt : (msr : ℕ) → bit_or msr_connected_default (bit_and msr msr_deltas) < 256
plain_msr-lt msr =
    bit_or-lt 8 msr_connected_default (bit_and msr msr_deltas) (omega arith)
      (omega (arith, bit_and-le 8 msr msr_deltas (omega arith)))

set_mcr-IsTyped : (mcr : ℕ) (s : Serial) → mcr < 32 → IsTyped s → IsTyped (set_mcr mcr s)
unfolding set_mcr
set_mcr-IsTyped mcr s b v =
    if_keeps IsTyped (has_bits mcr mcr_loopback) _ _
      (typed _ v.ier_fits v.lcr_fits (b) v.scr_fits v.dll_fits v.dlm_fits v.trigger_fits
        (looped_msr-lt mcr s.msr) (kept_or_cleared (has_bits s.mcr mcr_loopback) s.rx v.rx_fits)
        v.out_fits)
      (if_keeps IsTyped (has_bits s.mcr mcr_loopback) _ _
        (typed _ v.ier_fits v.lcr_fits (b) v.scr_fits v.dll_fits v.dlm_fits v.trigger_fits
          (plain_msr-lt s.msr) v.rx_fits v.out_fits)
        (typed _ v.ier_fits v.lcr_fits (b) v.scr_fits v.dll_fits v.dlm_fits v.trigger_fits
          v.msr_fits v.rx_fits v.out_fits))

write_fcr-IsTyped : (value : ℕ) (s : Serial) → IsTyped s → IsTyped (write_fcr value s)
unfolding write_fcr
write_fcr-IsTyped value s v = update_irq-IsTyped _ (
    typed _ v.ier_fits v.lcr_fits v.mcr_fits v.scr_fits v.dll_fits v.dlm_fits
      (omega (arith, bit_and-le 8 (value / 64) 3 (omega arith))) v.msr_fits
      (cleared_or_kept
        ((has_bits value fcr_enable && not s.fcr_enabled) || has_bits value fcr_clear_rx) s.rx
        v.rx_fits)
      v.out_fits)

pub write_register-IsTyped :
    (offset value : ℕ) (s : Serial)
    → value < 256
    → IsTyped s
    → IsTyped (write_register offset value s)
unfolding write_register write_thr write_mcr
write_register-IsTyped offset value s b v =
    keep (offset == 0) _ _
      (keep (dlab s) _ _
        (typed _ v.ier_fits v.lcr_fits v.mcr_fits v.scr_fits (b) v.dlm_fits v.trigger_fits
          v.msr_fits v.rx_fits v.out_fits)
        (update_irq-IsTyped _ (transmit-IsTyped value s b v)))
      (keep (offset == 1) _ _
        (keep (dlab s) _ _
          (typed _ v.ier_fits v.lcr_fits v.mcr_fits v.scr_fits v.dll_fits (b) v.trigger_fits
            v.msr_fits v.rx_fits v.out_fits)
          (update_irq-IsTyped _ (
            typed _ ((mask-lt value).0) v.lcr_fits v.mcr_fits v.scr_fits v.dll_fits v.dlm_fits
              v.trigger_fits v.msr_fits v.rx_fits v.out_fits)))
        (keep (offset == 2) _ _ (write_fcr-IsTyped value s v) (
          keep (offset == 3) _ _
            (typed _ v.ier_fits (b) v.mcr_fits v.scr_fits v.dll_fits v.dlm_fits v.trigger_fits
              v.msr_fits v.rx_fits v.out_fits)
            (keep (offset == 4) _ _ (update_irq-IsTyped _ (set_mcr-IsTyped _ s (mask-lt value).1 v))
              (keep (offset == 7) _ _
                (typed _ v.ier_fits v.lcr_fits v.mcr_fits (b) v.dll_fits v.dlm_fits v.trigger_fits
                  v.msr_fits v.rx_fits v.out_fits)
                v)))))
  where
    keep : (b : Bool) (x y : Serial) → IsTyped x → IsTyped y → IsTyped (if b then x else y)
    keep = if_keeps IsTyped
