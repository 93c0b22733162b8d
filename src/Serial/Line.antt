-- ===== src/Serial/Line.antt =====
-- The interrupt line of src/serial.rs: `update_irq` keeps the sink at the level that the pending
-- interrupts ask for, and calls it on edges only.
use ferrvm.Prelude.{
  ℕ, ◌≡◌, ◌⊎◌, refl, sym, ◌∙◌, Bool, true, false, not, ◌||◌, List, [], ◌∷◌, ◌==◌, if◌then◌else◌,
  if_keeps, arith, differs, has_bits, Bool-cases, inl, inr,
}
use ferrvm.Serial.{
  Serial, asserted, pending_interrupt, pending_rx, update_irq, inject_rx, tick_cti,
  replace_irq_sink, read_lsr, read_iir, transmit, set_mcr, write_thr, write_fcr, write_mcr,
  read_msr, read_rbr, read_register, read, write_register, write, dlab, new, timed_out,
}
use ferrvm.Serial.Events.{step, run, Event, reads, writes, injects, ticks}

-- The level that a sink was last set to.
abbrev pub level : ℕ → List (ℕ × Bool) → Bool
level sink [] = false
level sink ((k, b) ∷ log) = if k == sink then b else level sink log

-- Every call changed the level of its sink.
abbrev pub IsEdges : List (ℕ × Bool) → Type 0
IsEdges [] = Unit
IsEdges ((k, b) ∷ log) = (level k log ≡ not b) × IsEdges log

-- The cached level is the sink's.
pub record IsCached (s : Serial) : Type 0 where
  pub cached : level s.irq s.signals ≡ s.last_irq_level
  pub edges : IsEdges s.signals

pub record InSync (s : Serial) : Type 0 where
  pub cache : IsCached s
  pub current : s.last_irq_level ≡ asserted s

-- The log and the cached level do not decide what the line should be.
asserted_log :
    (s : Serial) (l : Bool) (g : List (ℕ × Bool))
    → asserted (record s { last_irq_level = l; signals = g }) ≡ asserted s
unfolding asserted pending_interrupt pending_rx
asserted_log s l g = refl

update_irq_same : (s : Serial) → asserted s ≡ s.last_irq_level → update_irq s ≡ s
unfolding update_irq
update_irq_same s e = rw (e) (ground (arith, Bool-cases s.last_irq_level))

update_irq_edge :
    (s : Serial)
    → s.last_irq_level ≡ not (asserted s)
    → update_irq s
      ≡ record s { last_irq_level = asserted s; signals = (s.irq, asserted s) ∷ s.signals }
unfolding update_irq
update_irq_edge s e = rw (e) (ground (arith, Bool-cases (asserted s)))

Bool-eq-or-not : (a b : Bool) → (a ≡ b) ⊎ (b ≡ not a)
Bool-eq-or-not true true = inl refl
Bool-eq-or-not true false = inr refl
Bool-eq-or-not false true = inr refl
Bool-eq-or-not false false = inl refl

pub asserted-update_irq : (s : Serial) → asserted (update_irq s) ≡ asserted s
asserted-update_irq s = elim (Bool-eq-or-not (asserted s) s.last_irq_level) [
  | inl e ↦ rw (update_irq_same s e)
  | inr e ↦ rw (update_irq_edge s e) (asserted_log s (asserted s) ((s.irq, asserted s) ∷ s.signals))
]

-- Whatever changed, `update_irq` brings the sink to the level that is due, by at most one call.
pub update_irq-InSync : (s : Serial) → IsCached s → InSync (update_irq s)
update_irq-InSync s c = elim (Bool-eq-or-not (asserted s) s.last_irq_level) [
  | inl e ↦ rw (update_irq_same s e) (record { cache = c; current = sym e })
  | inr e ↦ rw (update_irq_edge s e) (record {
    cache = record { cached = ground arith; edges = (c.cached ∙ e, c.edges) };
    current = sym (asserted_log s (asserted s) ((s.irq, asserted s) ∷ s.signals));
  })
]

-- A state with the same sink, log and cached level.
abbrev SameLine : Serial → Serial → Type 0
SameLine s t = (t.irq ≡ s.irq) × (t.signals ≡ s.signals) × (t.last_irq_level ≡ s.last_irq_level)

SameLine-IsCached : (s t : Serial) → SameLine s t → IsCached s → IsCached t
SameLine-IsCached s t e c = record { cached = rw (e.0, e.1, e.2) c.cached; edges = rw e.1 c.edges }

-- A handler that changes other fields and then calls `update_irq`.
updated : (s t : Serial) → InSync s → SameLine s t → InSync (update_irq t)
updated s t v e = update_irq-InSync t (SameLine-IsCached s t e v.cache)

-- A handler that changes nothing that decides the level.
unchanged : (s t : Serial) → InSync s → SameLine s t → asserted t ≡ asserted s → InSync t
unchanged s t v e a = record {
  cache = SameLine-IsCached s t e v.cache;
  current = e.2 ∙ v.current ∙ sym a;
}

inject_rx-InSync :
    (bytes : List ℕ) (now : ℕ) (s : Serial) → InSync s → InSync (inject_rx bytes now s)
unfolding inject_rx
inject_rx-InSync bytes now s v =
    if_keeps InSync (has_bits s.mcr 0x10) _ _ v (updated s _ v (refl, refl, refl))

pub tick_cti-InSync : (now : ℕ) (s : Serial) → InSync s → InSync (tick_cti now s).1
unfolding tick_cti
tick_cti-InSync now s v =
    if_keeps (λ (p : Bool × Serial). InSync p.1)
      (differs s.cti_pending (s.cti_pending || timed_out now s)) _ _
      (updated s _ v (refl, refl, refl)) v

read_lsr-InSync : (s : Serial) → InSync s → InSync (read_lsr s).1
unfolding read_lsr
read_lsr-InSync s v = updated s _ v (refl, refl, refl)

read_iir-InSync : (s : Serial) → InSync s → InSync (read_iir s).1
unfolding read_iir
read_iir-InSync s v = if_keeps InSync _ _ _ (updated s _ v (refl, refl, refl)) v

transmit-SameLine : (byte : ℕ) (s : Serial) → SameLine s (transmit byte s)
unfolding transmit
transmit-SameLine byte s = ground arith

set_mcr-SameLine : (mcr : ℕ) (s : Serial) → SameLine s (set_mcr mcr s)
unfolding set_mcr
set_mcr-SameLine mcr s = ground arith

read_rbr-InSync : (now : ℕ) (s : Serial) → InSync s → InSync (read_rbr now s).1
unfolding read_rbr
read_rbr-InSync now s v = updated s _ v (refl, refl, refl)

-- A register outside the interrupt logic changes.
banked :
    (s : Serial) (lcr scr dll dlm : ℕ)
    → InSync s
    → InSync (record s { lcr = lcr; scr = scr; dll = dll; dlm = dlm })
unfolding asserted pending_interrupt pending_rx
banked s lcr scr dll dlm v = record {
  cache = record { cached = v.cache.cached; edges = v.cache.edges };
  current = v.current;
}

read_register-InSync :
    (offset now : ℕ) (s : Serial) → InSync s → InSync (read_register offset now s).1
unfolding read_register read_msr
read_register-InSync offset now s v =
    keep (offset == 0) _ _ (keep (dlab s) _ _ v (read_rbr-InSync now s v)) (
      keep (offset == 1) _ _ v (
        keep (offset == 2) _ _ (read_iir-InSync s v) (
          keep (offset == 3) _ _ v (
            keep (offset == 4) _ _ v (
              keep (offset == 5) _ _ (read_lsr-InSync s v) (
                keep (offset == 6) _ _ (updated s _ v (refl, refl, refl))
                  (keep (offset == 7) _ _ v v)))))))
  where
    keep : (b : Bool) (x y : ℕ × Serial) → InSync x.1 → InSync y.1 → InSync (if b then x else y).1
    keep = if_keeps (λ (p : ℕ × Serial). InSync p.1)

write_register-InSync :
    (offset value : ℕ) (s : Serial) → InSync s → InSync (write_register offset value s)
unfolding write_register write_thr write_fcr write_mcr
write_register-InSync offset value s v =
    keep (offset == 0) _ _
      (keep (dlab s) _ _ (banked s s.lcr s.scr value s.dlm v)
        (updated s _ v (transmit-SameLine value s)))
      (keep (offset == 1) _ _
        (keep (dlab s) _ _ (banked s s.lcr s.scr s.dll value v) (updated s _ v (refl, refl, refl)))
        (keep (offset == 2) _ _ (updated s _ v (refl, refl, refl)) (
          keep (offset == 3) _ _ (banked s value s.scr s.dll s.dlm v) (
            keep (offset == 4) _ _ (updated s _ v (set_mcr-SameLine _ s))
              (keep (offset == 7) _ _ (banked s s.lcr value s.dll s.dlm v) v)))))
  where
    keep : (b : Bool) (x y : Serial) → InSync x → InSync y → InSync (if b then x else y)
    keep = if_keeps InSync

-- A new UART is in step with a sink that is low.
pub new-InSync : (irq now : ℕ) → InSync (new irq now)
unfolding new asserted
new-InSync irq now = record { cache = record { cached = refl; edges = tt }; current = refl }

-- Every handler leaves the sink at the level that the pending interrupts ask for, with OUT2 as the
-- gate, and each call of the sink on the way changed its level.
pub step-InSync : (e : ℕ × Event) (s : Serial) → InSync s → InSync (step e s)
unfolding step read write
step-InSync (now, reads offset []) s v = v
step-InSync (now, reads offset (b ∷ rest)) s v = read_register-InSync offset now s v
step-InSync (now, writes offset []) s v = v
step-InSync (now, writes offset (b ∷ rest)) s v = write_register-InSync offset b s v
step-InSync (now, injects bytes) s v = inject_rx-InSync bytes now s v
step-InSync (now, ticks) s v = tick_cti-InSync now s v

pub run-InSync : (es : List (ℕ × Event)) (s : Serial) → InSync s → InSync (run es s)
unfolding run
run-InSync [] s v = v
run-InSync (e ∷ es) s v = run-InSync es (step e s) (step-InSync e s v)

-- After any calls from power-on the sink is at the level that the pending interrupts ask for, and
-- every call that it got was an edge.
pub run-new_line :
    (es : List (ℕ × Event)) (irq now : ℕ)
    → let s = run es (new irq now) in (level s.irq s.signals ≡ asserted s) × IsEdges s.signals
run-new_line es irq now =
    let v = run-InSync es (new irq now) (new-InSync irq now) in
    (v.cache.cached ∙ v.current, v.cache.edges)

-- A swapped sink that was low is brought to the level that is due.
pub replace_irq_sink-InSync :
    (sink : ℕ) (s : Serial)
    → InSync s
    → level sink s.signals ≡ false
    → InSync (replace_irq_sink sink s)
unfolding replace_irq_sink
replace_irq_sink-InSync sink s v low =
    update_irq-InSync _ (record { cached = low; edges = v.cache.edges })
