-- ===== src/Serial/Timeout.antt =====
-- Delivery of received bytes in src/serial.rs: RDA at the trigger level, CTI for a quiet rest.
use ferrvm.Prelude.{
  ℕ, ◌+◌, ◌≤◌, ◌<◌, ◌≡◌, ◌∙◌, false, true, ◌&&◌, ◌||◌, some, arith, has_bits, length, leb, differs,
  Bool-cases, inl, inr, ◌≢◌,
}
use ferrvm.Serial.{
  Serial, pending_interrupt, pending_rx, asserted, tick_cti, timed_out, trigger_level,
}
use ferrvm.Serial.Line.{asserted-update_irq, level, InSync, tick_cti-InSync}

-- With ERBFI on and no overrun to report, RDA is pending exactly when the FIFO holds the trigger
-- level; below it CTI is, exactly when a timeout is pending and there are bytes.
pub pending_rx_lem :
    (s : Serial)
    → has_bits s.ier 1 ≡ true
    → (has_bits s.ier 4 && s.overrun) ≡ false
    → ((trigger_level s ≤ length s.rx) → pending_interrupt s ≡ some 0x04)
      × ((length s.rx < trigger_level s)
          → s.cti_pending ≡ true
          → 0 < length s.rx
          → pending_interrupt s ≡ some 0x0c)
      × ((length s.rx < trigger_level s) → s.cti_pending ≡ false → pending_interrupt s ≢ some 0x04)
unfolding pending_interrupt pending_rx
pending_rx_lem s on quiet = (λ h. ground arith, λ h c p. ground arith, λ h c. ground arith)

-- Bytes wait, the guest listens (ERBFI and OUT2), and either the trigger level is reached or a
-- timeout is pending.
asserted_rx :
    (s : Serial)
    → has_bits s.ier 1 ≡ true
    → has_bits s.mcr 8 ≡ true
    → 0 < length s.rx
    → (leb (trigger_level s) (length s.rx) || s.cti_pending) ≡ true
    → asserted s ≡ true
unfolding asserted pending_interrupt pending_rx
asserted_rx s on gate some_bytes due = ground arith

-- No received byte is left without an interrupt: with the sink in step, ERBFI and OUT2 on and bytes
-- queued, once the line has been quiet for the timeout a tick leaves the interrupt asserted, whatever
-- the trigger level.
pub tick_cti_delivers :
    (now : ℕ) (s : Serial)
    → InSync s
    → has_bits s.ier 1 ≡ true
    → has_bits s.mcr 8 ≡ true
    → 0 < length s.rx
    → s.last_rx_activity + 1_000_000 ≤ now
    → let t = (tick_cti now s).1 in (asserted t ≡ true) × (level t.irq t.signals ≡ true)
tick_cti_delivers now s v on gate some_bytes quiet =
    let w = tick_cti-InSync now s v in (raised, w.cache.cached ∙ w.current ∙ raised)
  where
    after : Serial
    after = record s { cti_pending = s.cti_pending || timed_out now s }

    due : (leb (trigger_level s) (length s.rx) || (s.cti_pending || timed_out now s)) ≡ true
    due = ground arith

    raised : asserted (tick_cti now s).1 ≡ true
    raised = elim (Bool-cases (differs s.cti_pending (s.cti_pending || timed_out now s))) [
      | inl e ↦
          unfold tick_cti in
          rw e (asserted-update_irq after ∙ asserted_rx after on gate some_bytes due)
      | inr e ↦ unfold tick_cti in rw e (asserted_rx s on gate some_bytes (ground (arith, due)))
    ]
