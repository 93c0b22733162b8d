-- ===== src/Serial/Events.antt =====
-- What can happen to a UART: the calls of its handlers, each with the clock at which it comes.
use ferrvm.Prelude.{ℕ, List, [], ◌∷◌}
use ferrvm.Serial.{Serial, read, write, inject_rx, tick_cti}

pub data Event : Type 0 where
  reads : ℕ → List ℕ → Event
  writes : ℕ → List ℕ → Event
  injects : List ℕ → Event
  ticks : Event

unfoldable pub step : ℕ × Event → Serial → Serial
step (now, reads offset buffer) s = (read offset buffer now s).1
step (now, writes offset bytes) s = write offset bytes s
step (now, injects bytes) s = inject_rx bytes now s
step (now, ticks) s = (tick_cti now s).1

unfoldable pub run : List (ℕ × Event) → Serial → Serial
run [] s = s
run (e ∷ es) s = run es (step e s)
