-- ===== src/Shutdown/Registered.antt =====
-- Which threads src/input.rs has registered: those that have started.
use ferrvm.Prelude.{
  arith, ℕ, ◌≡◌, ◌≢◌, inl, inr, refl, sym, ap, ◌∙◌, Bool, true, false, Bool-cases, ◌||◌, List, [],
  ◌∷◌, ◌++◌, ◌==◌, if_keeps, update,
}
use ferrvm.Shutdown.{
  new, World, Phase, reading, starting, at_check, entering, in_guest, leaving, locking, done,
  kicking, Answer, runs_on, goes_on, stops, kicked, answered, move, turn, run,
}
use ferrvm.Shutdown.Kicks.{lists, same_thread, lists-append, lists-last}

-- Before any thread has run: none is registered, and no shutdown is asked for.
abbrev pub initial : (ℕ → Phase) → World
initial phases = record { shutdown = new; locked = false; phase = phases }

abbrev fresh : Phase → Bool
fresh starting = true
fresh p = false

kicked-fresh : (p : Phase) → fresh (kicked p) ≡ fresh p
unfolding kicked
kicked-fresh in_guest = refl
kicked-fresh entering = refl
kicked-fresh reading = refl
kicked-fresh starting = refl
kicked-fresh at_check = refl
kicked-fresh leaving = refl
kicked-fresh locking = refl
kicked-fresh done = refl
kicked-fresh (kicking rest) = refl

module _ (t : ℕ) where
  -- Thread `t` has not started, or it is registered.
  abbrev Known : World → Type 0
  Known w = (fresh (w.phase t) || lists t (w.shutdown.kick_threads)) ≡ true

  registered_stays :
      (w : World) (x : ℕ) (p p' : Phase)
      → w.phase x ≡ p
      → fresh p ≡ false
      → Known w
      → (fresh (update w.phase x p' t) || lists t (w.shutdown.kick_threads)) ≡ true
  registered_stays w x p p' here old known = elim (Bool-cases (x == t)) [
    | inl same ↦
        let was : fresh (w.phase t) ≡ false =
          ap fresh (sym (ap w.phase (same_thread x t same)) ∙ here) ∙ old in
        let listed : lists t (w.shutdown.kick_threads) ≡ true = ground arith in
        rw (same, listed) (ground arith)
    | inr other ↦ rw other known
  ]

  answered-Known :
      (x : ℕ) (p back : Phase) (answer : Answer) (w : World)
      → w.phase x ≡ p
      → fresh p ≡ false
      → Known w
      → Known (answered x back answer w)
  answered-Known x p back runs_on w here old known = known
  answered-Known x p back goes_on w here old known = registered_stays w x p back here old known
  answered-Known x p back stops w here old known = registered_stays w x p leaving here old known

  signal_knows :
      (w : World) (x u : ℕ) (rest : List ℕ)
      → w.phase x ≡ kicking (u ∷ rest)
      → Known w
      → (fresh (update (update w.phase u (kicked (w.phase u))) x (kicking rest) t)
          || lists t (w.shutdown.kick_threads))
        ≡ true
  signal_knows w x u rest here known = elim (Bool-cases (u == t)) [
    | inl hit ↦
        let same : fresh (kicked (w.phase u)) ≡ fresh (w.phase t) =
          kicked-fresh (w.phase u) ∙ ap (λ x. fresh (w.phase x)) (same_thread u t hit) in
        elim (Bool-cases (x == t)) [
          | inl own ↦
              let was : fresh (w.phase t) ≡ false =
                ap fresh (sym (ap w.phase (same_thread x t own)) ∙ here) in
              let listed : lists t (w.shutdown.kick_threads) ≡ true = ground arith in
              rw (own, listed) (ground arith)
          | inr other ↦ rw (other, hit, same) known
        ]
    | inr miss ↦ elim (Bool-cases (x == t)) [
      | inl own ↦
          let was : fresh (w.phase t) ≡ false =
            ap fresh (sym (ap w.phase (same_thread x t own)) ∙ here) in
          let listed : lists t (w.shutdown.kick_threads) ≡ true = ground arith in
          rw (own, listed) (ground arith)
      | inr other ↦ rw (other, miss) known
    ]
  ]

  started :
      (w : World) (x : ℕ)
      → Known w
      → (fresh (update w.phase x at_check t) || lists t (w.shutdown.kick_threads ++ x ∷ [])) ≡ true
  started w x known = elim (Bool-cases (x == t)) [
    | inl same ↦
        let listed : lists t (w.shutdown.kick_threads ++ x ∷ []) ≡ true =
          ap (λ y. lists t (w.shutdown.kick_threads ++ y ∷ [])) (same_thread x t same)
          ∙ lists-last t w.shutdown.kick_threads in
        rw (same, listed) (ground arith)
    | inr other ↦ elim (Bool-cases (fresh (w.phase t))) [
      | inl still ↦ rw (other, still) refl
      | inr old ↦
          let listed : lists t (w.shutdown.kick_threads) ≡ true = ground arith in
          rw (other, lists-append t w.shutdown.kick_threads (x ∷ []) listed) (ground arith)
    ]
  ]

  move-Known :
      (x : ℕ) (answer : Answer) (w : World) (p : Phase)
      → w.phase x ≡ p
      → Known w
      → Known (move x answer w p)
  unfolding move
  move-Known x answer w reading here known =
      answered-Known x reading reading answer w here refl known
  move-Known x answer w starting here known = if_keeps Known w.locked _ _ known (started w x known)
  move-Known x answer w at_check here known =
      if_keeps Known w.shutdown.flag _ _ (registered_stays w x at_check leaving here refl known)
        (registered_stays w x at_check entering here refl known)
  move-Known x answer w entering here known = registered_stays w x entering in_guest here refl known
  move-Known x answer w in_guest here known =
      answered-Known x in_guest at_check answer w here refl known
  move-Known x answer w leaving here known = registered_stays w x leaving locking here refl known
  move-Known x answer w locking here known =
      if_keeps Known w.locked _ _ known
        (registered_stays w x locking (kicking (w.shutdown.kick_threads)) here refl known)
  move-Known x answer w (kicking []) here known =
      registered_stays w x (kicking []) done here refl known
  move-Known x answer w (kicking (u ∷ rest)) here known = signal_knows w x u rest here known
  move-Known x answer w done here known = known

  run-Known : (schedule : List (ℕ × Answer)) (w : World) → Known w → Known (run schedule w)
  unfolding run turn
  run-Known [] w known = known
  run-Known ((x, answer) ∷ later) w known =
      run-Known later (turn (x, answer) w) (move-Known x answer w (w.phase x) refl known)

  fresh_start : (p : Phase) → fresh p ≡ true → p ≡ starting
  fresh_start starting h = refl
  fresh_start in_guest h = absurd (cc)
  fresh_start entering h = absurd (cc)
  fresh_start reading h = absurd (cc)
  fresh_start at_check h = absurd (cc)
  fresh_start leaving h = absurd (cc)
  fresh_start locking h = absurd (cc)
  fresh_start done h = absurd (cc)
  fresh_start (kicking rest) h = absurd (cc)

  -- A thread that was to start and has done so is registered.
  pub run-lists :
      (phases : ℕ → Phase) (schedule : List (ℕ × Answer))
      → phases t ≡ starting
      → (run schedule (initial phases)).phase t ≢ starting
      → lists t ((run schedule (initial phases)).shutdown.kick_threads) ≡ true
  run-lists phases schedule first begun =
      let w = run schedule (initial phases) in
      let known : Known w = run-Known schedule (initial phases) (rw first refl) in
      elim (Bool-cases (fresh (w.phase t))) [
        | inl still ↦ absurd (begun (fresh_start (w.phase t) still))
        | inr old ↦ ground arith
      ]
