-- ===== src/Console/Heard.antt =====
-- What the reader of src/input.rs makes of the whole input, wherever its reads cut it.
use ferrvm.Prelude.{
  arith, ℕ, ◌≡◌, ◌⊎◌, inl, inr, refl, sym, ap, ap₂, ◌∙◌, Bool, true, false, Bool-cases, ◌||◌, List,
  [], ◌∷◌, ◌++◌, ltb, length,
}
use mathlib.Core.List.{append-nil}
use ferrvm.Serial.{Serial, tick_cti}
use ferrvm.Serial.Events.{Event, reads, writes, injects, ticks, step, run}
use ferrvm.Console.{
  Batch, Polled, Console, interrupted, timed_out, failed, end_of_input, received, scan, deliver,
  round, reader_loop,
}
use ferrvm.Console.Escape.{plain, typed, scan-append, scan_stops, scan-typed}

-- The bytes read, up to the end of input or a failure.
abbrev pub heard : List (ℕ × Polled) → List ℕ
heard [] = []
heard ((now, interrupted) ∷ rounds) = heard rounds
heard ((now, timed_out) ∷ rounds) = heard rounds
heard ((now, failed) ∷ rounds) = []
heard ((now, end_of_input) ∷ rounds) = []
heard ((now, received bytes) ∷ rounds) = bytes ++ heard rounds

-- Whether the input ends or fails.
abbrev pub closed : List (ℕ × Polled) → Bool
closed [] = false
closed ((now, interrupted) ∷ rounds) = closed rounds
closed ((now, timed_out) ∷ rounds) = closed rounds
closed ((now, failed) ∷ rounds) = true
closed ((now, end_of_input) ∷ rounds) = true
closed ((now, received bytes) ∷ rounds) = closed rounds

-- When nothing came for a while.
abbrev pub timeouts : List (ℕ × Polled) → List ℕ
timeouts [] = []
timeouts ((now, interrupted) ∷ rounds) = timeouts rounds
timeouts ((now, timed_out) ∷ rounds) = now ∷ timeouts rounds
timeouts ((now, failed) ∷ rounds) = []
timeouts ((now, end_of_input) ∷ rounds) = []
timeouts ((now, received bytes) ∷ rounds) = timeouts rounds

-- The bytes that calls of the UART put into its FIFO, and the times of the ticks.
abbrev pub injected : List (ℕ × Event) → List ℕ
injected [] = []
injected ((now, injects bytes) ∷ es) = bytes ++ injected es
injected ((now, ticks) ∷ es) = injected es
injected ((now, reads offset buffer) ∷ es) = injected es
injected ((now, writes offset bytes) ∷ es) = injected es

abbrev pub tick_times : List (ℕ × Event) → List ℕ
tick_times [] = []
tick_times ((now, ticks) ∷ es) = now ∷ tick_times es
tick_times ((now, injects bytes) ∷ es) = tick_times es
tick_times ((now, reads offset buffer) ∷ es) = tick_times es
tick_times ((now, writes offset bytes) ∷ es) = tick_times es

-- What the reader did, told by calls of the UART: `batch` is what the input comes to.
abbrev Told : List (ℕ × Polled) → Console → Batch → Console → Type 0
Told rounds c batch end =
    (es : List (ℕ × Event)) × (end.serial ≡ run es c.serial)
    × (injected es ≡ batch.forwarded)
    × (end.requested ≡ (batch.wants_quit || closed rounds))
    × (batch.wants_quit ≡ false → tick_times es ≡ timeouts rounds)

true-false : true ≡ false → ⊥
true-false e = cc

stopped : (rounds : List (ℕ × Polled)) (c : Console) → c.requested ≡ true → reader_loop rounds c ≡ c
unfolding reader_loop
stopped [] c h = refl
stopped ((now, polled) ∷ rounds) c h = rw h refl

no_round : (c : Console) → reader_loop [] c ≡ c
unfolding reader_loop
no_round c = refl

-- The first round and then the rest, when no shutdown is asked for.
goes_round :
    (now : ℕ) (polled : Polled) (rounds : List (ℕ × Polled)) (c : Console)
    → c.requested ≡ false
    → reader_loop ((now, polled) ∷ rounds) c ≡ reader_loop rounds (round now polled c)
unfolding reader_loop
goes_round now polled rounds c h = rw h refl

nothing_left : (bytes : List ℕ) → ltb 0 (length bytes) ≡ false → bytes ≡ []
nothing_left [] h = refl
nothing_left (b ∷ bytes) h = absurd (ground arith)

-- A batch is one call of the UART, or none when nothing is left of it; the calls after it are `es`.
batch_told :
    (now : ℕ) (c : Console) (batch : Batch) (es : List (ℕ × Event)) (s : Serial)
    → s ≡ run es (deliver now c batch).serial
    → (es' : List (ℕ × Event)) × (s ≡ run es' c.serial)
      × (injected es' ≡ batch.forwarded ++ injected es)
      × (tick_times es' ≡ tick_times es)
unfolding deliver run step
batch_told now c batch es s h = elim (Bool-cases (ltb 0 (length batch.forwarded))) [
  | inl some_bytes ↦ ((now, injects batch.forwarded) ∷ es, rw some_bytes at h, refl, refl)
  | inr empty ↦
      let none_left = nothing_left batch.forwarded empty in
      (es, rw empty at h, ap (λ bytes. bytes ++ injected es) (sym none_left), refl)
]

deliver-state : (now : ℕ) (c : Console) (batch : Batch) → (deliver now c batch).state ≡ batch.escape
unfolding deliver
deliver-state now c batch = refl

deliver-requested :
    (now : ℕ) (c : Console) (batch : Batch)
    → batch.wants_quit ≡ false
    → c.requested ≡ false
    → (deliver now c batch).requested ≡ false
unfolding deliver
deliver-requested now c batch stays h = rw stays h

-- A batch that quits is the last one.
quits-Told :
    (now : ℕ) (bytes : List ℕ) (rounds : List (ℕ × Polled)) (c : Console)
    → c.requested ≡ false
    → (scan c.state bytes).wants_quit ≡ true
    → Told
        ((now, received bytes) ∷ rounds)
        c
        (scan c.state (bytes ++ heard rounds))
        (reader_loop ((now, received bytes) ∷ rounds) c)
unfolding round run
quits-Told now bytes rounds c h quits =
    let batch = scan c.state bytes in
    let asked : (deliver now c batch).requested ≡ true = unfold deliver in rw quits refl in
    let (es, same, put, times) = batch_told now c batch [] (deliver now c batch).serial refl in
    rw
      (
        goes_round now (received bytes) rounds c h,
        stopped rounds (deliver now c batch) asked,
        scan_stops c.state bytes (heard rounds) quits,
      )
      (
        es,
        same,
        put ∙ append-nil batch.forwarded,
        rw (asked, quits) refl,
        λ quiet. absurd (true-false (sym quits ∙ quiet)),
      )

-- A batch that does not is followed by what the rest comes to.
goes-Told :
    (now : ℕ) (bytes : List ℕ) (rounds : List (ℕ × Polled)) (c : Console)
    → c.requested ≡ false
    → (scan c.state bytes).wants_quit ≡ false
    → (let c' = deliver now c (scan c.state bytes) in
        Told rounds c' (scan (scan c.state bytes).escape (heard rounds)) (reader_loop rounds c'))
    → Told
        ((now, received bytes) ∷ rounds)
        c
        (scan c.state (bytes ++ heard rounds))
        (reader_loop ((now, received bytes) ∷ rounds) c)
unfolding round
goes-Told now bytes rounds c h stays (es, same, put, asked, times) =
    let batch = scan c.state bytes in
    let (es', same', put', times') =
      batch_told now c batch es (reader_loop rounds (deliver now c batch)).serial same in
    rw (goes_round now (received bytes) rounds c h, scan-append c.state bytes (heard rounds) stays)
      (
        es',
        same',
        put' ∙ ap (λ more. batch.forwarded ++ more) put,
        asked,
        λ quiet. times' ∙ times quiet,
      )

same_batch :
    (rounds : List (ℕ × Polled)) (c end : Console) (batch other : Batch)
    → batch ≡ other
    → Told rounds c batch end
    → Told rounds c other end
same_batch rounds c end batch other e told = rw e at told

reader_loop-Told :
    (rounds : List (ℕ × Polled)) (c : Console)
    → c.requested ≡ false
    → Told rounds c (scan c.state (heard rounds)) (reader_loop rounds c)
unfolding round scan run step
reader_loop-Told [] c h = rw (no_round c) ([], refl, refl, h, λ _. refl)
reader_loop-Told ((now, interrupted) ∷ rounds) c h =
    rw (goes_round now interrupted rounds c h) (reader_loop-Told rounds c h)
reader_loop-Told ((now, timed_out) ∷ rounds) c h =
    let c' : Console = record c { serial = (tick_cti now c.serial).1 } in
    let (es, same, bytes, asked, times) = reader_loop-Told rounds c' h in
    rw (goes_round now timed_out rounds c h)
      ((now, ticks) ∷ es, same, bytes, asked, λ quiet. ap (λ ts. now ∷ ts) (times quiet))
reader_loop-Told ((now, failed) ∷ rounds) c h =
    let c' : Console = record c { requested = true } in
    rw (goes_round now failed rounds c h, stopped rounds c' refl) ([], refl, refl, refl, λ _. refl)
reader_loop-Told ((now, end_of_input) ∷ rounds) c h =
    let c' : Console = record c { requested = true } in
    rw (goes_round now end_of_input rounds c h, stopped rounds c' refl)
      ([], refl, refl, refl, λ _. refl)
reader_loop-Told ((now, received bytes) ∷ rounds) c h =
    let c' = deliver now c (scan c.state bytes) in
    elim (Bool-cases (scan c.state bytes).wants_quit) [
      | inl quits ↦ quits-Told now bytes rounds c h quits
      | inr stays ↦ goes-Told now bytes rounds c h stays (
          same_batch rounds c' (reader_loop rounds c') _ _
            (ap (λ s. scan s (heard rounds)) (deliver-state now c (scan c.state bytes)))
            (reader_loop-Told rounds c' (deliver-requested now c (scan c.state bytes) stays h)))
    ]

-- The reader starts with no prefix seen and no shutdown asked for.
abbrev pub IsIdle : Console → Type 0
IsIdle c = (c.state ≡ plain) × (c.requested ≡ false)

-- From the reader's first state, however the reads cut the input, and whatever interruptions and
-- timeouts come between them: of a text typed with each Ctrl-A twice, exactly the text goes into the
-- UART, in order, the UART gets a tick for each timeout, and a shutdown is asked for exactly if the input
-- ends or fails.
pub reader_loop-typed :
    (rounds : List (ℕ × Polled)) (c : Console) (text : List ℕ)
    → IsIdle c
    → heard rounds ≡ typed text
    → (es : List (ℕ × Event)) × ((reader_loop rounds c).serial ≡ run es c.serial)
      × (injected es ≡ text)
      × (tick_times es ≡ timeouts rounds)
      × ((reader_loop rounds c).requested ≡ closed rounds)
reader_loop-typed rounds c text (state, idle) input =
    let (es, same, put, asked, times) =
      same_batch rounds c (reader_loop rounds c) _ _ (ap₂ scan state input)
        (reader_loop-Told rounds c idle) in
    let (forwarded, stays, _, _) = scan-typed text [] 120 (inl refl) in
    (es, same, put ∙ forwarded, times stays, asked ∙ rw stays refl)

-- From the reader's first state, however the reads cut the input: Ctrl-A and x or X behind a typed text
-- ask for the shutdown, and the text and nothing after it goes into the UART.
pub reader_loop-quit :
    (rounds : List (ℕ × Polled)) (c : Console) (text after : List ℕ) (key : ℕ)
    → IsIdle c
    → (key ≡ 120) ⊎ (key ≡ 88)
    → heard rounds ≡ typed text ++ 1 ∷ key ∷ after
    → (es : List (ℕ × Event)) × ((reader_loop rounds c).serial ≡ run es c.serial)
      × (injected es ≡ text)
      × ((reader_loop rounds c).requested ≡ true)
reader_loop-quit rounds c text after key (state, idle) quits input =
    let (es, same, put, asked, times) =
      same_batch rounds c (reader_loop rounds c) _ _ (ap₂ scan state input)
        (reader_loop-Told rounds c idle) in
    let (_, _, forwarded, wants) = scan-typed text after key quits in
    (es, same, put ∙ forwarded, asked ∙ rw wants refl)
