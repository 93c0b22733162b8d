-- ===== src/Shutdown/Kicks.antt =====
-- What `request` of src/input.rs achieves for the threads that it signals.
use ferrvm.Prelude.{
  arith, ℕ, ◌≡◌, ◌≢◌, ◌⊎◌, inl, inr, refl, sym, ap, ◌∙◌, Bool, true, false, Bool-cases, ◌&&◌, ◌||◌,
  List, [], ◌∷◌, ◌++◌, ◌==◌, ==_iff, if◌then◌else◌, if_keeps, update,
}
use ferrvm.Shutdown.{
  World, Phase, reading, starting, at_check, entering, in_guest, leaving, locking, done, kicking,
  Answer, runs_on, goes_on, stops, kicked, answered, move, turn, run,
}

abbrev pub lists : ℕ → List ℕ → Bool
lists t [] = false
lists t (u ∷ rest) = u == t || lists t rest

pub lists-append : (t : ℕ) (xs ys : List ℕ) → lists t xs ≡ true → lists t (xs ++ ys) ≡ true
lists-append t [] ys h = absurd (cc)
lists-append t (u ∷ xs) ys h = ground (arith, lists-append t xs ys)

pub lists-last : (t : ℕ) (xs : List ℕ) → lists t (xs ++ t ∷ []) ≡ true
lists-last t [] = ground arith
lists-last t (u ∷ xs) = rw (lists-last t xs) (ground arith)

-- Neither in the guest nor about to enter it.
abbrev pub outside : Phase → Bool
outside entering = false
outside in_guest = false
outside p = true

abbrev inside : Phase → Bool
inside in_guest = true
inside p = false

-- The thread is still to be signalled, if it is registered.
abbrev waits : ℕ → Phase → Bool
waits t (kicking rest) = lists t rest
waits t locking = true
waits t p = false

abbrev safe : ℕ → Phase → Phase → Bool
safe t p q = outside p || (inside p && waits t q)

kicked-waits : (t : ℕ) (p : Phase) → waits t (kicked p) ≡ waits t p
unfolding kicked
kicked-waits t in_guest = refl
kicked-waits t entering = refl
kicked-waits t reading = refl
kicked-waits t starting = refl
kicked-waits t at_check = refl
kicked-waits t leaving = refl
kicked-waits t locking = refl
kicked-waits t done = refl
kicked-waits t (kicking rest) = refl

pub same_thread : (a b : ℕ) → (a == b) ≡ true → a ≡ b
same_thread a b = (==_iff a b).0

module _ (t r : ℕ) where
  abbrev Kept : World → Type 0
  Kept w =
      (w.shutdown.flag ≡ true)
      × (lists t (w.shutdown.kick_threads) ≡ true)
      × (safe t (w.phase t) (w.phase r) ≡ true)

  calm : (p p' : Phase) → waits t p ≡ false → waits t p ≡ true → waits t p' ≡ true
  calm p p' quiet waiting = absurd (cc)

  safe_out : (p q : Phase) → outside p ≡ true → safe t p q ≡ true
  safe_out p q h = ground arith

  out_unless : (p q : Phase) → waits t q ≡ false → safe t p q ≡ true → outside p ≡ true
  out_unless p q quiet h = ground arith

  unsafe : (p q : Phase) → p ≡ entering → safe t p q ≡ true → ⊥
  unsafe p q e h = let bad : false ≡ true = ap (λ p. safe t p q) (sym e) ∙ h in absurd (cc)

  still_safe :
      (p q q' : Phase)
      → (waits t q ≡ true → waits t q' ≡ true)
      → safe t p q ≡ true
      → safe t p q' ≡ true
  still_safe p q q' goes h = elim (Bool-cases (waits t q)) [
    | inl waiting ↦ let waits_on = goes waiting in ground arith
    | inr quiet ↦ safe_out p q' (out_unless p q quiet h)
  ]

  -- A thread that ends outside, or was about to enter, leaves `t` safe, unless it stops to wait for it.
  step_keeps :
      (phase : ℕ → Phase) (x : ℕ) (p p' : Phase)
      → phase x ≡ p
      → (waits t p ≡ true → waits t p' ≡ true)
      → (p ≡ entering) ⊎ (outside p' ≡ true)
      → safe t (phase t) (phase r) ≡ true
      → safe t (update phase x p' t) (update phase x p' r) ≡ true
  step_keeps phase x p p' here goes how h = elim (Bool-cases (x == t)) [
    | inl same ↦ elim how [
      | inl about ↦
          absurd
            (unsafe (phase t) (phase r) (ap phase (sym (same_thread x t same)) ∙ here ∙ about) h)
      | inr out ↦ rw same (safe_out p' _ out)
    ]
    | inr other ↦ elim (Bool-cases (x == r)) [
      | inl same ↦
          rw (other, same)
            (still_safe (phase t) p p' goes
              (ap (safe t (phase t)) (sym here ∙ ap phase (same_thread x r same)) ∙ h))
      | inr apart ↦ rw (other, apart) h
    ]
  ]

  kicked_out : (p q : Phase) → safe t p q ≡ true → outside (kicked p) ≡ true
  unfolding kicked
  kicked_out in_guest q h = refl
  kicked_out entering q h = h
  kicked_out reading q h = refl
  kicked_out starting q h = refl
  kicked_out at_check q h = refl
  kicked_out leaving q h = refl
  kicked_out locking q h = refl
  kicked_out done q h = refl
  kicked_out (kicking rest) q h = refl

  signalled_safe :
      (phase : ℕ → Phase) (u : ℕ) (p : Phase)
      → safe t p (phase r) ≡ true
      → safe t p (if u == r then kicked (phase u) else phase r) ≡ true
  signalled_safe phase u p h = elim (Bool-cases (u == r)) [
    | inl same ↦
        let waiting : waits t (kicked (phase u)) ≡ waits t (phase r) =
          kicked-waits t (phase u) ∙ ap (λ x. waits t (phase x)) (same_thread u r same) in
        rw (same, waiting) h
    | inr other ↦ rw other h
  ]

  -- A signal takes `t` out of the guest, or another thread is signalled first.
  signal_keeps :
      (phase : ℕ → Phase) (x u : ℕ) (rest : List ℕ)
      → phase x ≡ kicking (u ∷ rest)
      → safe t (phase t) (phase r) ≡ true
      → safe t
          (update (update phase u (kicked (phase u))) x (kicking rest) t)
          (update (update phase u (kicked (phase u))) x (kicking rest) r)
        ≡ true
  signal_keeps phase x u rest here h = elim (Bool-cases (x == t)) [
    | inl same ↦ rw same refl
    | inr other ↦ elim (Bool-cases (u == t)) [
      | inl hit ↦
          rw (other, hit)
            (safe_out (kicked (phase u)) _ (
              kicked_out (phase u) (phase r)
                (ap (λ p. safe t p (phase r)) (ap phase (same_thread u t hit)) ∙ h)))
      | inr miss ↦ elim (Bool-cases (x == r)) [
        | inl own ↦
            let seen : safe t (phase t) (kicking (u ∷ rest)) ≡ true =
              ap (safe t (phase t)) (sym here ∙ ap phase (same_thread x r own)) ∙ h in
            let left : safe t (phase t) (kicking rest) ≡ safe t (phase t) (kicking (u ∷ rest)) =
              rw miss refl in
            rw (other, miss, own) (left ∙ seen)
        | inr apart ↦ rw (other, miss, apart) (signalled_safe phase u (phase t) h)
      ]
    ]
  ]

  answered-Kept :
      (x : ℕ) (p back : Phase) (answer : Answer) (w : World)
      → w.phase x ≡ p
      → waits t p ≡ false
      → outside back ≡ true
      → Kept w
      → Kept (answered x back answer w)
  answered-Kept x p back runs_on w here quiet out kept = kept
  answered-Kept x p back goes_on w here quiet out (set, listed, h) =
      (set, listed, step_keeps w.phase x p back here (calm p back quiet) (inr out) h)
  answered-Kept x p back stops w here quiet out (set, listed, h) =
      (set, listed, step_keeps w.phase x p leaving here (calm p leaving quiet) (inr refl) h)

  taken : (b : Bool) (x y : World) → b ≡ true → Kept x → Kept (if b then x else y)
  taken true x y e kept = kept
  taken false x y e kept = absurd (cc)

  move-Kept :
      (x : ℕ) (answer : Answer) (w : World) (p : Phase)
      → w.phase x ≡ p
      → Kept w
      → Kept (move x answer w p)
  unfolding move
  move-Kept x answer w reading here kept =
      answered-Kept x reading reading answer w here refl refl kept
  move-Kept x answer w starting here (set, listed, h) =
      if_keeps Kept w.locked _ _ (set, listed, h)
        (
          set,
          lists-append t w.shutdown.kick_threads (x ∷ []) listed,
          step_keeps w.phase x starting at_check here (calm starting at_check refl) (inr refl) h,
        )
  move-Kept x answer w at_check here (set, listed, h) = taken w.shutdown.flag _ _ set (
    set,
    listed,
    step_keeps w.phase x at_check leaving here (calm at_check leaving refl) (inr refl) h,
  )
  move-Kept x answer w entering here (set, listed, h) = (
    set,
    listed,
    step_keeps w.phase x entering in_guest here (calm entering in_guest refl) (inl refl) h,
  )
  move-Kept x answer w in_guest here kept =
      answered-Kept x in_guest at_check answer w here refl refl kept
  move-Kept x answer w leaving here (set, listed, h) = (
    refl,
    listed,
    step_keeps w.phase x leaving locking here (calm leaving locking refl) (inr refl) h,
  )
  move-Kept x answer w locking here (set, listed, h) =
      if_keeps Kept w.locked _ _ (set, listed, h)
        (
          set,
          listed,
          step_keeps w.phase x locking (kicking (w.shutdown.kick_threads)) here (λ _. listed)
              (inr refl) h,
        )
  move-Kept x answer w (kicking []) here (set, listed, h) = (
    set,
    listed,
    step_keeps w.phase x (kicking []) done here (calm (kicking []) done refl) (inr refl) h,
  )
  move-Kept x answer w (kicking (u ∷ rest)) here (set, listed, h) =
      (set, listed, signal_keeps w.phase x u rest here h)
  move-Kept x answer w done here kept = kept

  run-Kept : (schedule : List (ℕ × Answer)) (w : World) → Kept w → Kept (run schedule w)
  unfolding run turn
  run-Kept [] w kept = kept
  run-Kept ((x, answer) ∷ later) w kept =
      run-Kept later (turn (x, answer) w) (move-Kept x answer w (w.phase x) refl kept)

  safe_at_start : (p : Phase) → p ≢ entering → safe t p locking ≡ true
  safe_at_start in_guest away = refl
  safe_at_start entering away = absurd (away refl)
  safe_at_start reading away = refl
  safe_at_start starting away = refl
  safe_at_start at_check away = refl
  safe_at_start leaving away = refl
  safe_at_start locking away = refl
  safe_at_start done away = refl
  safe_at_start (kicking rest) away = refl

-- Once the flag is stored and `r` waits for the lock, a registered thread that is not about to enter the
-- guest is out of it when `r` is through.
pub run-kicked :
    (w : World) (t r : ℕ) (schedule : List (ℕ × Answer))
    → w.shutdown.flag ≡ true
    → lists t (w.shutdown.kick_threads) ≡ true
    → w.phase r ≡ locking
    → w.phase t ≢ entering
    → (run schedule w).phase r ≡ done
    → outside ((run schedule w).phase t) ≡ true
run-kicked w t r schedule set listed requests away through =
    let start : safe t (w.phase t) (w.phase r) ≡ true =
      ap (safe t (w.phase t)) requests ∙ safe_at_start t r (w.phase t) away in
    let kept = run-Kept t r schedule w (set, listed, start) in
    out_unless t r ((run schedule w).phase t) ((run schedule w).phase r) (ap (waits t) through)
      kept.2
