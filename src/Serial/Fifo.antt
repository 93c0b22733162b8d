-- ===== src/Serial/Fifo.antt =====
-- The receive FIFO of src/serial.rs: a bounded queue from `inject_rx` to the RBR.
use ferrvm.Prelude.{
  ℕ, zero, suc, ◌+◌, ◌-◌, ◌≤◌, ◌<◌, ◌≡◌, Bool, true, false, ◌||◌, List, [], ◌∷◌, ◌++◌, ◌==◌, ltb,
  if◌then◌else◌, if_keeps, arith, differs, has_bits, length, take, length-append, length-take,
}
use mathlib.Core.List.{append-nil, append_assoc}
use ferrvm.Serial.{
  Serial, update_irq, push_all, inject_rx, tick_cti, read_lsr, read_iir, transmit, set_mcr,
  write_thr, write_fcr, write_mcr, read_msr, read_rbr, read_register, read, write_register, write,
  dlab, new, timed_out,
}
use ferrvm.Serial.Events.{step, run, Event, reads, writes, injects, ticks}

pub record IsBounded (s : Serial) : Type 0 where
  pub fits : length s.rx ≤ 4096
  -- A pending timeout has bytes to report.
  pub cti_has_data : s.cti_pending ≡ true → 0 < length s.rx

-- The loop keeps the bytes for which there is room, in order, and reports an overrun exactly when
-- one did not fit.
pub push_all_lem :
    (room : ℕ) (rx bytes : List ℕ)
    → length rx + room ≡ 4096
    → push_all rx bytes ≡ (rx ++ take room bytes, ltb room (length bytes))
unfolding push_all
push_all_lem zero rx [] h = ground (arith, append-nil rx)
push_all_lem zero rx (b ∷ bytes) h = ground (arith, append-nil rx)
push_all_lem (suc room) rx [] h = ground (arith, append-nil rx)
push_all_lem (suc room) rx (b ∷ bytes) h = ground (
  arith,
  push_all_lem room (rx ++ b ∷ []) bytes,
  length-append rx (b ∷ []),
  append_assoc rx (b ∷ []) (take room bytes),
)

-- The FIFO and the overrun flag do not depend on `update_irq`.
pub update_irq_fields :
    (s : Serial)
    → ((update_irq s).rx ≡ s.rx)
      × ((update_irq s).overrun ≡ s.overrun)
      × ((update_irq s).cti_pending ≡ s.cti_pending)
      × ((update_irq s).out ≡ s.out)
      × ((update_irq s).mcr ≡ s.mcr)
      × ((update_irq s).lcr ≡ s.lcr)
      × ((update_irq s).fcr_enabled ≡ s.fcr_enabled)
      × ((update_irq s).rx_trigger ≡ s.rx_trigger)
      × ((update_irq s).ier ≡ s.ier)
unfolding update_irq
update_irq_fields s = ground arith

-- Outside loopback, `inject_rx` appends the bytes that fit and sets the overrun flag exactly when
-- one does not; in loopback it changes nothing.
pub inject_rx_lem :
    (bytes : List ℕ) (now : ℕ) (s : Serial)
    → length s.rx ≤ 4096
    → let t = inject_rx bytes now s in
      (has_bits s.mcr 0x10 ≡ true → t ≡ s)
      × (has_bits s.mcr 0x10 ≡ false
          → (t.rx ≡ s.rx ++ take (4096 - length s.rx) bytes)
            × (t.overrun ≡ s.overrun || ltb (4096 - length s.rx) (length bytes)))
unfolding inject_rx
inject_rx_lem bytes now s fits = (λ loop. ground arith, λ free. outside free)
  where
    after : Serial
    after = record s {
      rx = (push_all s.rx bytes).0;
      overrun = s.overrun || (push_all s.rx bytes).1;
      last_rx_activity = now;
      cti_pending = false;
    }

    outside :
        has_bits s.mcr 0x10 ≡ false
        → ((inject_rx bytes now s).rx ≡ s.rx ++ take (4096 - length s.rx) bytes)
          × ((inject_rx bytes now s).overrun ≡ s.overrun || ltb (4096 - length s.rx) (length bytes))
    outside free =
        let e : inject_rx bytes now s ≡ update_irq after = rw (inject_rx, free) in
        let f = update_irq_fields after in
        let p = push_all_lem (4096 - length s.rx) s.rx bytes (omega arith) in
        (rw (e, f.0, p), rw (e, f.1, p))

-- Through `update_irq` the bound stays.
bounded : (s : Serial) → IsBounded s → IsBounded (update_irq s)
bounded s v =
    let f = update_irq_fields s in
    record { fits = rw f.0 v.fits; cti_has_data = rw (f.0, f.2) v.cti_has_data }

emptied : (s : Serial) → s.rx ≡ [] → s.cti_pending ≡ false → IsBounded s
emptied s e c = record { fits = rw e (omega arith); cti_has_data = λ h. absurd (cc) }

inject_rx-IsBounded :
    (bytes : List ℕ) (now : ℕ) (s : Serial) → IsBounded s → IsBounded (inject_rx bytes now s)
unfolding inject_rx
inject_rx-IsBounded bytes now s v = if_keeps IsBounded (has_bits s.mcr 0x10) _ _ v (
    bounded _ (record {
      fits = rw (push_all_lem (4096 - length s.rx) s.rx bytes (omega (arith, v.fits))) (
          omega (
            arith,
            v.fits,
            length-append {0} s.rx (take (4096 - length s.rx) bytes),
            length-take {0} (4096 - length s.rx) bytes,
          ));
      cti_has_data = λ h. absurd (cc);
    }))

tick_cti-IsBounded : (now : ℕ) (s : Serial) → IsBounded s → IsBounded (tick_cti now s).1
unfolding tick_cti
tick_cti-IsBounded now s v =
    if_keeps (λ (p : Bool × Serial). IsBounded p.1)
      (differs s.cti_pending (s.cti_pending || timed_out now s)) _ _
      (bounded _ (record { fits = v.fits; cti_has_data = λ h. ground (arith, v.cti_has_data) })) v

transmit-IsBounded : (byte : ℕ) (s : Serial) → IsBounded s → IsBounded (transmit byte s)
unfolding transmit
transmit-IsBounded byte s v = record {
  fits = ground (arith, v.fits, length-append s.rx (byte ∷ []));
  cti_has_data = ground (arith, v.cti_has_data, length-append s.rx (byte ∷ []));
}

set_mcr-IsBounded : (mcr : ℕ) (s : Serial) → IsBounded s → IsBounded (set_mcr mcr s)
unfolding set_mcr
set_mcr-IsBounded mcr s v = record {
  fits = ground (arith, v.fits);
  cti_has_data = ground (arith, v.cti_has_data);
}

write_fcr-IsBounded : (value : ℕ) (s : Serial) → IsBounded s → IsBounded (write_fcr value s)
unfolding write_fcr
write_fcr-IsBounded value s v =
    bounded _
      (record { fits = ground (arith, v.fits); cti_has_data = ground (arith, v.cti_has_data) })

read_rbr-IsBounded : (now : ℕ) (s : Serial) → IsBounded s → IsBounded (read_rbr now s).1
unfolding read_rbr
read_rbr-IsBounded now s v =
    bounded _ (record { fits = ground (arith, v.fits); cti_has_data = ground arith })

kept :
    (s : Serial) (lcr scr dll dlm ier : ℕ) (msr : ℕ) (ov thre : Bool)
    → IsBounded s
    → IsBounded (record s {
      lcr = lcr;
      scr = scr;
      dll = dll;
      dlm = dlm;
      ier = ier;
      msr = msr;
      overrun = ov;
      thre_pending = thre;
    })
kept s lcr scr dll dlm ier msr ov thre v = record { fits = v.fits; cti_has_data = v.cti_has_data }

read_register-IsBounded :
    (offset now : ℕ) (s : Serial) → IsBounded s → IsBounded (read_register offset now s).1
unfolding read_register read_iir read_lsr read_msr
read_register-IsBounded offset now s v =
    keep (offset == 0) _ _ (keep (dlab s) _ _ v (read_rbr-IsBounded now s v)) (
      keep (offset == 1) _ _ v (
        keep (offset == 2) _ _
          (if_keeps IsBounded _ _ _
            (bounded _ (kept s s.lcr s.scr s.dll s.dlm s.ier s.msr s.overrun false v)) v)
          (keep (offset == 3) _ _ v (
            keep (offset == 4) _ _ v (
              keep (offset == 5) _ _
                (bounded _ (kept s s.lcr s.scr s.dll s.dlm s.ier s.msr false s.thre_pending v))
                (keep (offset == 6) _ _
                  (bounded _ (kept s s.lcr s.scr s.dll s.dlm s.ier _ s.overrun s.thre_pending v))
                  (keep (offset == 7) _ _ v v)))))))
  where
    keep :
        (b : Bool) (x y : ℕ × Serial)
        → IsBounded x.1
        → IsBounded y.1
        → IsBounded (if b then x else y).1
    keep = if_keeps (λ (p : ℕ × Serial). IsBounded p.1)

write_register-IsBounded :
    (offset value : ℕ) (s : Serial) → IsBounded s → IsBounded (write_register offset value s)
unfolding write_register write_thr write_mcr
write_register-IsBounded offset value s v =
    keep (offset == 0) _ _
      (keep (dlab s) _ _ (kept s s.lcr s.scr value s.dlm s.ier s.msr s.overrun s.thre_pending v)
        (bounded _ (transmit-IsBounded value s v)))
      (keep (offset == 1) _ _
        (keep (dlab s) _ _ (kept s s.lcr s.scr s.dll value s.ier s.msr s.overrun s.thre_pending v)
          (bounded _ (kept s s.lcr s.scr s.dll s.dlm _ s.msr s.overrun s.thre_pending v)))
        (keep (offset == 2) _ _ (write_fcr-IsBounded value s v) (
          keep (offset == 3) _ _
            (kept s value s.scr s.dll s.dlm s.ier s.msr s.overrun s.thre_pending v)
            (keep (offset == 4) _ _ (bounded _ (set_mcr-IsBounded _ s v)) (
              keep (offset == 7) _ _
                (kept s s.lcr value s.dll s.dlm s.ier s.msr s.overrun s.thre_pending v) v)))))
  where
    keep : (b : Bool) (x y : Serial) → IsBounded x → IsBounded y → IsBounded (if b then x else y)
    keep = if_keeps IsBounded

pub step-IsBounded : (e : ℕ × Event) (s : Serial) → IsBounded s → IsBounded (step e s)
unfolding step read write
step-IsBounded (now, reads offset []) s v = v
step-IsBounded (now, reads offset (b ∷ rest)) s v = read_register-IsBounded offset now s v
step-IsBounded (now, writes offset []) s v = v
step-IsBounded (now, writes offset (b ∷ rest)) s v = write_register-IsBounded offset b s v
step-IsBounded (now, injects bytes) s v = inject_rx-IsBounded bytes now s v
step-IsBounded (now, ticks) s v = tick_cti-IsBounded now s v

run-IsBounded : (es : List (ℕ × Event)) (s : Serial) → IsBounded s → IsBounded (run es s)
unfolding run
run-IsBounded [] s v = v
run-IsBounded (e ∷ es) s v = run-IsBounded es (step e s) (step-IsBounded e s v)

-- After any calls from power-on the FIFO holds at most 4096 bytes, and a pending character timeout
-- has bytes to report.
pub run-new-IsBounded : (es : List (ℕ × Event)) (irq now : ℕ) → IsBounded (run es (new irq now))
unfolding new
run-new-IsBounded es irq now =
    run-IsBounded es _ (record { fits = omega arith; cti_has_data = λ h. absurd (cc) })
