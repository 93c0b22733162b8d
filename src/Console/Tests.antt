-- ===== src/Console/Tests.antt =====
-- The theorems on the console at input whose reads cut a Ctrl-A from the key behind it.
use ferrvm.Prelude.{ℕ, true, false, List, [], ◌∷◌, ◌≡◌, inl, refl}
use ferrvm.Serial
use ferrvm.Serial.Events.{Event, run}
use ferrvm.Console.{Console, Polled, received, timed_out, interrupted, end_of_input, reader_loop}
use ferrvm.Console.Escape.{plain, typed}
use ferrvm.Console.Heard.{injected, tick_times, reader_loop-typed, reader_loop-quit}

abbrev idle : Console
idle = record { state = plain; serial = Serial.new 4 0; requested = false; helps = 0 }

abbrev rounds : List (ℕ × Polled)
rounds =
    (3, received (97 ∷ 1 ∷ []))
    ∷ (4, interrupted)
    ∷ (2_000_000, timed_out)
    ∷ (2_000_001, received (1 ∷ []))
    ∷ (2_000_002, end_of_input)
    ∷ []

reader_loop-typed_example :
    (es : List (ℕ × Event)) × ((reader_loop rounds idle).serial ≡ run es (Serial.new 4 0))
    × (injected es ≡ 97 ∷ 1 ∷ [])
    × (tick_times es ≡ 2_000_000 ∷ [])
    × ((reader_loop rounds idle).requested ≡ true)
unfolding typed
reader_loop-typed_example = reader_loop-typed rounds idle (97 ∷ 1 ∷ []) (refl, refl) refl

abbrev quits : List (ℕ × Polled)
quits = (3, received (97 ∷ 1 ∷ [])) ∷ (4, received (120 ∷ 98 ∷ [])) ∷ []

reader_loop-quit_example :
    (es : List (ℕ × Event)) × ((reader_loop quits idle).serial ≡ run es (Serial.new 4 0))
    × (injected es ≡ 97 ∷ [])
    × ((reader_loop quits idle).requested ≡ true)
unfolding typed
reader_loop-quit_example =
    reader_loop-quit quits idle (97 ∷ []) (98 ∷ []) 120 (refl, refl) (inl refl) refl
