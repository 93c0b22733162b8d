-- ===== src/Serial/Tests.antt =====
-- The theorems on the UART at concrete runs.
use ferrvm.Prelude.{ℕ, List, [], ◌∷◌, ◌≡◌, refl, true, arith, All, IsByte, length}
use ferrvm.Serial.Registers.{trigger_bytes}
use ferrvm.Serial.{
  update_irq, pending_interrupt, pending_rx, push_all, looped_msr, loopback_state, delta_bits,
  write_register, write_mcr, write_fcr, Serial, new, asserted, inject_rx, tick_cti, read, write,
  set_mcr,
}
use ferrvm.Serial.Events.{Event, reads, writes, injects, step, run}
use ferrvm.Serial.Line.{level, IsEdges, run-new_line, run-InSync, new-InSync}
use ferrvm.Serial.Types.{IsTyped}
use ferrvm.Serial.Types.Kept.{run-new-IsTyped}
use ferrvm.Serial.Fifo.{IsBounded, run-new-IsBounded}
use ferrvm.Serial.Drain.{drain, drain-inject_rx}
use ferrvm.Serial.Timeout.{tick_cti_delivers}

-- OUT2 and ERBFI on, a byte in, the byte read.
abbrev session : List (ℕ × Event)
session =
    (0, writes 4 (8 ∷ []))
    ∷ (0, writes 1 (1 ∷ []))
    ∷ (0, injects (65 ∷ []))
    ∷ (5, reads 0 (0 ∷ []))
    ∷ []

run-new_line_example :
    (level (run session (new 4 0)).irq (run session (new 4 0)).signals
      ≡ asserted (run session (new 4 0)))
    × IsEdges (run session (new 4 0)).signals
run-new_line_example = run-new_line session 4 0

run-new-IsBounded_example : IsBounded (run session (new 4 0))
run-new-IsBounded_example = run-new-IsBounded session 4 0

run-new-IsTyped_example :
    IsTyped (run session (new 4 0))
    × ((offset later : ℕ) (buffer : List ℕ)
        → let (bytes, s') = read offset buffer later (run session (new 4 0)) in
          All IsByte bytes × (length bytes ≡ length buffer))
run-new-IsTyped_example = run-new-IsTyped session 4 0 (omega arith)

drain-inject_rx_example :
    ((drain 2 9 (inject_rx (65 ∷ 66 ∷ []) 3 (new 4 0))).0 ≡ 65 ∷ 66 ∷ [])
    × ((drain 2 9 (inject_rx (65 ∷ 66 ∷ []) 3 (new 4 0))).1.rx ≡ [])
unfolding new
drain-inject_rx_example = drain-inject_rx (65 ∷ 66 ∷ []) 3 9 (new 4 0) refl refl (omega arith)

-- OUT2 and ERBFI on, FIFOs on with a trigger of fourteen, one byte in.
abbrev setup : List (ℕ × Event)
setup =
    (0, writes 4 (8 ∷ []))
    ∷ (0, writes 1 (1 ∷ []))
    ∷ (0, writes 2 (0xc1 ∷ []))
    ∷ (0, injects (65 ∷ []))
    ∷ []

abbrev waiting : Serial
waiting = run setup (new 4 0)

tick_cti_delivers_example :
    (asserted (tick_cti 2_000_000 waiting).1 ≡ true)
    × (level (tick_cti 2_000_000 waiting).1.irq (tick_cti 2_000_000 waiting).1.signals ≡ true)
unfolding new step run write write_register set_mcr write_mcr write_fcr update_irq asserted
    pending_interrupt pending_rx inject_rx push_all looped_msr loopback_state delta_bits
    trigger_bytes
tick_cti_delivers_example =
    tick_cti_delivers 2_000_000 waiting (run-InSync setup (new 4 0) (new-InSync 4 0)) refl refl
      (omega arith) (omega arith)
