-- ===== src/Serial/Drain.antt =====
-- Reading the receive FIFO of src/serial.rs to the end: the guest's reads give the injected bytes.
use ferrvm.Prelude.{
  ℕ, zero, suc, ◌-◌, ◌≤◌, ◌<◌, ◌≡◌, refl, sym, if_keeps, ap₂, ◌∙◌, false, true, List, [], ◌∷◌, ◌++◌,
  arith, has_bits, length, take,
}
use mathlib.Core.List.{append-nil}
use ferrvm.Serial.{
  Serial, update_irq, inject_rx, read_rbr, read_register, read, dlab, pop_front, transmit,
  write_thr, write_register, write,
}
use ferrvm.Serial.Fifo.{update_irq_fields, inject_rx_lem}

-- `n` one-byte reads of the RBR.
pub drain : ℕ → ℕ → Serial → List ℕ × Serial
drain zero now s = ([], s)
drain (suc n) now s =
    let (b, s') = read 0 (0 ∷ []) now s in let (bs, s'') = drain n now s' in (b ++ bs, s'')

read_rbr_fields :
    (now : ℕ) (s : Serial)
    → ((read_rbr now s).0 ≡ (pop_front s.rx).0)
      × ((read_rbr now s).1.rx ≡ (pop_front s.rx).1)
      × ((read_rbr now s).1.lcr ≡ s.lcr)
      × ((read_rbr now s).1.out ≡ s.out)
      × ((read_rbr now s).1.mcr ≡ s.mcr)
unfolding read_rbr
read_rbr_fields now s = let f = update_irq_fields _ in (refl, f.0, f.5, f.3, f.4)

read_one :
    (now b : ℕ) (rest : List ℕ) (s : Serial)
    → dlab s ≡ false
    → s.rx ≡ b ∷ rest
    → ((read 0 (0 ∷ []) now s).0 ≡ b ∷ [])
      × ((read 0 (0 ∷ []) now s).1.rx ≡ rest)
      × (dlab (read 0 (0 ∷ []) now s).1 ≡ false)
unfolding read read_register
read_one now b rest s off e = ground (arith, read_rbr_fields now s)

drain_lem :
    (now : ℕ) (bytes later : List ℕ) (s : Serial)
    → dlab s ≡ false
    → s.rx ≡ bytes ++ later
    → ((drain (length bytes) now s).0 ≡ bytes) × ((drain (length bytes) now s).1.rx ≡ later)
unfolding drain
drain_lem now [] later s off e = (refl, e)
drain_lem now (b ∷ bytes) later s off e =
    let one = read_one now b (bytes ++ later) s off e in
    let ih = drain_lem now bytes later (read 0 (0 ∷ []) now s).1 one.2 one.1 in
    (ap₂ ◌++◌ one.0 ih.0, ih.1)

lcr-inject_rx : (bytes : List ℕ) (now : ℕ) (s : Serial) → (inject_rx bytes now s).lcr ≡ s.lcr
unfolding inject_rx
lcr-inject_rx bytes now s =
    if_keeps (λ (t : Serial). t.lcr ≡ s.lcr) (has_bits s.mcr 0x10) _ _ refl (update_irq_fields _).5

-- Outside loopback and with the divisor latch closed, the guest reads what was queued before and
-- then the injected bytes that fit, in order, and the FIFO is empty again.
pub drain-inject_rx :
    (bytes : List ℕ) (now later : ℕ) (s : Serial)
    → has_bits s.mcr 0x10 ≡ false
    → dlab s ≡ false
    → length s.rx ≤ 4096
    → let queue = s.rx ++ take (4096 - length s.rx) bytes in
      let (got, t) = drain (length queue) later (inject_rx bytes now s) in
      (got ≡ queue) × (t.rx ≡ [])
drain-inject_rx bytes now later s open_line off fits =
    drain_lem later _ [] (inject_rx bytes now s) (rw lcr-inject_rx off)
      (((inject_rx_lem bytes now s fits).1 open_line).0 ∙ sym (append-nil _))

transmit_loopback :
    (byte : ℕ) (s : Serial)
    → has_bits s.mcr 0x10 ≡ true
    → length s.rx < 4096
    → ((transmit byte s).rx ≡ s.rx ++ byte ∷ [])
      × ((transmit byte s).out ≡ s.out)
      × ((transmit byte s).lcr ≡ s.lcr)
unfolding transmit
transmit_loopback byte s loop room = (ground arith, ground arith, ground arith)

write-transmit :
    (byte : ℕ) (s : Serial) → dlab s ≡ false → write 0 (byte ∷ []) s ≡ update_irq (transmit byte s)
unfolding write write_register write_thr
write-transmit byte s off = ground arith

-- In loopback a byte written to the THR comes back at the RBR: with room in the FIFO it joins the
-- queue, nothing goes to the host, and injected bytes are dropped.
pub loopback_queue :
    (byte now : ℕ) (s : Serial)
    → has_bits s.mcr 0x10 ≡ true
    → dlab s ≡ false
    → length s.rx < 4096
    → let t = write 0 (byte ∷ []) s in
      (t.rx ≡ s.rx ++ byte ∷ [])
      × (t.out ≡ s.out)
      × ((drain (length (s.rx ++ byte ∷ [])) now t).0 ≡ s.rx ++ byte ∷ [])
      × ((bytes : List ℕ) → inject_rx bytes now s ≡ s)
loopback_queue byte now s loop off room =
    let f = update_irq_fields (transmit byte s) in
    let e = transmit_loopback byte s loop room in
    let queued : (update_irq (transmit byte s)).rx ≡ s.rx ++ byte ∷ [] = f.0 ∙ e.0 in
    rw (write-transmit byte s off) (
      queued,
      f.3 ∙ e.1,
      (drain_lem now (s.rx ++ byte ∷ []) [] _ (rw (f.5 ∙ e.2) off) (queued ∙ sym (append-nil _))).0,
      λ bytes. (inject_rx_lem bytes now s (omega arith)).0 loop,
    )
