-- ===== src/Serial/Types/Kept.antt =====
-- The types of the registers of src/serial.rs after any calls.
use ferrvm.Prelude.{
  arith, ℕ, zero, suc, ◌≡◌, refl, List, [], ◌∷◌, length, replicate, length-replicate, ap, All,
  IsByte,
}
use ferrvm.Serial.{Serial, new, read, write}
use ferrvm.Serial.Events.{step, run, Event, reads, writes, injects, ticks}
use ferrvm.Serial.Types.{IsTyped, typed, IsByteEvent}
use ferrvm.Serial.Types.Written.{inject_rx-IsTyped, tick_cti-IsTyped, write_register-IsTyped}
use ferrvm.Serial.Types.Read.{read_register-Reads}

step-IsTyped : (e : ℕ × Event) (s : Serial) → IsByteEvent e → IsTyped s → IsTyped (step e s)
unfolding step read write
step-IsTyped (now, reads offset []) s g v = v
step-IsTyped (now, reads offset (b ∷ rest)) s g v = (read_register-Reads offset now s v).1
step-IsTyped (now, writes offset []) s g v = v
step-IsTyped (now, writes offset (b ∷ rest)) s g v = write_register-IsTyped offset b s g.0 v
step-IsTyped (now, injects bytes) s g v = inject_rx-IsTyped bytes now s g v
step-IsTyped (now, ticks) s g v = tick_cti-IsTyped now s v

run-IsTyped :
    (es : List (ℕ × Event)) (s : Serial) → All IsByteEvent es → IsTyped s → IsTyped (run es s)
unfolding run
run-IsTyped [] s g v = v
run-IsTyped (e ∷ es) s g v = run-IsTyped es (step e s) g.1 (step-IsTyped e s g.0 v)

all_ones : (n : ℕ) → All IsByte (replicate n 0xff)
all_ones zero = tt
all_ones (suc n) = (omega arith, all_ones n)

filled :
    (offset later : ℕ) (buffer : List ℕ) (s : Serial)
    → IsTyped s
    → All IsByte (read offset buffer later s).0
      × (length ((read offset buffer later s).0) ≡ length buffer)
unfolding read
filled offset later [] s v = (tt, refl)
filled offset later (b ∷ rest) s v = (
  ((read_register-Reads offset later s v).0, all_ones (length rest)),
  ap suc (length-replicate (length rest) 0xff),
)

-- After any calls from power-on whose buffers hold bytes, every register holds a value of its type, the
-- modem control and the interrupt enable register only bits that exist, the FIFO and the host's output
-- hold bytes, and whatever is read next fills the buffer with as many bytes.
pub run-new-IsTyped :
    (es : List (ℕ × Event)) (irq now : ℕ)
    → All IsByteEvent es
    → IsTyped (run es (new irq now))
      × ((offset later : ℕ) (buffer : List ℕ)
          → let (bytes, s') = read offset buffer later (run es (new irq now)) in
            All IsByte bytes × (length bytes ≡ length buffer))
unfolding new
run-new-IsTyped es irq now g =
    let v = run-IsTyped es (new irq now) g (
      typed _ (omega arith) (omega arith) (omega arith) (omega arith) (omega arith) (omega arith)
        (omega arith) (omega arith) tt tt) in
    (v, λ offset later buffer. filled offset later buffer (run es (new irq now)) v)
