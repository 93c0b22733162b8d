-- ===== src/Shutdown/Through.antt =====
-- A thread in `request` of src/input.rs gets through, and what it leaves.
use ferrvm.Prelude.{
  arith, ℕ, ◌+◌, ◌<◌, ◌≡◌, ◌≢◌, inl, inr, refl, ap, ◌∙◌, Bool, true, false, Bool-cases, List, [],
  ◌∷◌, ◌==◌, if◌then◌else◌, if_keeps, update, length,
}
use ferrvm.Shutdown.{
  World, Phase, reading, starting, at_check, entering, in_guest, leaving, locking, done, kicking,
  Answer, runs_on, goes_on, stops, kicked, answered, move, turn, run,
}
use ferrvm.Shutdown.Registered.{initial, run-lists}
use ferrvm.Shutdown.Kicks.{lists, outside, same_thread, run-kicked}

-- How often a schedule lets thread `r` take a step.
abbrev pub turns_of : ℕ → List (ℕ × Answer) → ℕ
turns_of r [] = 0
turns_of r ((x, answer) ∷ later) = (if x == r then 1 else 0) + turns_of r later

module _ (r : ℕ) where
  abbrev At : Phase → World → Type 0
  At q w = w.phase r ≡ q

  -- Another thread leaves a thread that a signal does not move where it is.
  answered-At :
      (x : ℕ) (q back : Phase) (answer : Answer) (w : World)
      → (x == r) ≡ false
      → At q w
      → At q (answered x back answer w)
  answered-At x q back runs_on w other there = there
  answered-At x q back goes_on w other there = rw other there
  answered-At x q back stops w other there = rw other there

  move-At :
      (x : ℕ) (q : Phase) (answer : Answer) (w : World) (p : Phase)
      → (x == r) ≡ false
      → kicked q ≡ q
      → At q w
      → At q (move x answer w p)
  unfolding move
  move-At x q answer w reading other still there = answered-At x q reading answer w other there
  move-At x q answer w starting other still there =
      if_keeps (At q) w.locked _ _ there (rw other there)
  move-At x q answer w at_check other still there =
      if_keeps (At q) w.shutdown.flag _ _ (rw other there) (rw other there)
  move-At x q answer w entering other still there = rw other there
  move-At x q answer w in_guest other still there = answered-At x q at_check answer w other there
  move-At x q answer w leaving other still there = rw other there
  move-At x q answer w locking other still there =
      if_keeps (At q) w.locked _ _ there (rw other there)
  move-At x q answer w (kicking []) other still there = rw other there
  move-At x q answer w (kicking (u ∷ rest)) other still there = rw other (signalled (u == r) refl)
    where
      signalled : (b : Bool) → (u == r) ≡ b → (if u == r then kicked (w.phase u) else w.phase r) ≡ q
      signalled true same =
          rw same (ap (λ x. kicked (w.phase x)) (same_thread u r same) ∙ ap kicked there ∙ still)
      signalled false apart = rw apart there
  move-At x q answer w done other still there = there

  own-At :
      (x : ℕ) (q p : Phase) (answer : Answer) (w : World)
      → (x == r) ≡ true
      → At p w
      → At q (move x answer w p)
      → At q (turn (x, answer) w)
  unfolding turn
  own-At x q p answer w same there next =
      ap (λ p. (move x answer w p).phase r) (ap w.phase (same_thread x r same) ∙ there) ∙ next

  stays_done : (schedule : List (ℕ × Answer)) (w : World) → At done w → At done (run schedule w)
  unfolding run turn move kicked
  stays_done [] w there = there
  stays_done ((x, answer) ∷ later) w there =
      stays_done later (turn (x, answer) w) (elim (Bool-cases (x == r)) [
        | inl same ↦ own-At x done done answer w same there there
        | inr other ↦ move-At x done answer w (w.phase x) other refl there
      ])

  abbrev Through : List (ℕ × Answer) → Type 0
  Through schedule =
      (targets : List ℕ) (w : World)
      → At (kicking targets) w
      → length targets < turns_of r schedule
      → At done (run schedule w)

  first_turn :
      (x : ℕ) (answer : Answer) (later : List (ℕ × Answer))
      → Through later
      → (b : Bool) → (x == r) ≡ b
      → (targets : List ℕ) (w : World) → At (kicking targets) w
      → length targets < turns_of r ((x, answer) ∷ later)
      → At done (run later (turn (x, answer) w))
  unfolding move kicked turn
  first_turn x answer later rest_through false other targets w there enough =
      rest_through targets (turn (x, answer) w)
        (move-At x (kicking targets) answer w (w.phase x) other refl there) (ground arith)
  first_turn x answer later rest_through true same [] w there enough =
      stays_done later (turn (x, answer) w)
        (own-At x done (kicking []) answer w same there (rw same refl))
  first_turn x answer later rest_through true same (u ∷ rest) w there enough =
      rest_through rest (turn (x, answer) w)
        (own-At x (kicking rest) (kicking (u ∷ rest)) answer w same there (rw same refl))
        (ground arith)

  -- With more turns than threads to signal, the request gets through.
  request_ends : (schedule : List (ℕ × Answer)) → Through schedule
  unfolding run
  request_ends [] targets w there enough = absurd (omega arith)
  request_ends ((x, answer) ∷ later) targets w there enough =
      first_turn x answer later (request_ends later) (x == r) refl targets w there enough

-- Where the request leaves the world when the flag is stored.
record Asked (t r : ℕ) (w w₁ : World) : Type 0 where
  set : w₁.shutdown.flag ≡ true
  same_targets : w₁.shutdown.kick_threads ≡ w.shutdown.kick_threads
  same_lock : w₁.locked ≡ w.locked
  waiting : w₁.phase r ≡ locking
  away : w₁.phase t ≢ entering

same_as_itself : (r : ℕ) → (r == r) ≡ true
same_as_itself r = ground arith

update-entering :
    (phase : ℕ → Phase) (r t : ℕ) → phase t ≢ entering → update phase r locking t ≢ entering
update-entering phase r t away e = elim (Bool-cases (r == t)) [
  | inl same ↦ let bad : ◌≡◌ {A = Phase} locking entering = rw same at e in absurd (cc)
  | inr other ↦ away (rw other at e)
]

turn-Asked :
    (t r : ℕ) (a : Answer) (w : World)
    → w.phase r ≡ leaving
    → w.phase t ≢ entering
    → Asked t r w (turn (r, a) w)
unfolding turn move
turn-Asked t r a w asks away =
    let stored : World = record w {
      shutdown = record w.shutdown { flag = true };
      phase = update w.phase r locking;
    } in
    let asked : move r a w (w.phase r) ≡ stored = ap (move r a w) asks in
    rw asked (record {
      set = refl;
      same_targets = refl;
      same_lock = refl;
      waiting = rw (same_as_itself r) refl;
      away = update-entering w.phase r t away;
    })

-- With the lock free, the next turn takes it.
turn-kicking :
    (r : ℕ) (b : Answer) (w : World)
    → w.phase r ≡ locking
    → w.locked ≡ false
    → (turn (r, b) w).phase r ≡ kicking (w.shutdown.kick_threads)
unfolding move
turn-kicking r b w waiting free =
    own-At r r (kicking (w.shutdown.kick_threads)) locking b w (same_as_itself r) waiting
      (rw (free, same_as_itself r) refl)

-- From the start of the program, however the threads have taken turns: when a thread `r` leaves its loop
-- and asks for the shutdown, and thread `t` has registered itself and is not just then between its look at
-- the flag and its entry into the guest, then `t` is neither in the guest nor about to enter it once `r` is
-- through. When the lock is free and `r` takes it next, `r` is through once it had more turns than there
-- are registered threads.
pub run-request :
    (phases : ℕ → Phase) (before later : List (ℕ × Answer)) (w : World) (t r : ℕ) (a b : Answer)
    → run before (initial phases) ≡ w
    → phases t ≡ starting
    → w.phase t ≢ starting
    → w.phase t ≢ entering
    → w.phase r ≡ leaving
    → ((run ((r, a) ∷ later) w).phase r ≡ done → outside ((run ((r, a) ∷ later) w).phase t) ≡ true)
      × (w.locked ≡ false
          → length (w.shutdown.kick_threads) < turns_of r later
          → ((run ((r, a) ∷ (r, b) ∷ later) w).phase r ≡ done)
            × (outside ((run ((r, a) ∷ (r, b) ∷ later) w).phase t) ≡ true))
unfolding run
run-request phases before later w t r a b reached first begun away asks =
    let listed : lists t (w.shutdown.kick_threads) ≡ true =
      rw reached at (run-lists t phases before first (rw reached begun)) in
    let asked = turn-Asked t r a w asks away in
    let w₁ = turn (r, a) w in
    let out = λ (schedule : List (ℕ × Answer)).
      run-kicked w₁ t r schedule (asked.set) (ap (lists t) (asked.same_targets) ∙ listed)
        (asked.waiting) (asked.away) in
    (
      out later,
      λ free enough.
          let through =
            request_ends r later (w₁.shutdown.kick_threads) (turn (r, b) w₁)
              (turn-kicking r b w₁ (asked.waiting) (asked.same_lock ∙ free))
              (rw (asked.same_targets) enough) in
          (through, out ((r, b) ∷ later) through),
    )
