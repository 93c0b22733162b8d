-- ===== src/Shutdown/Entries.antt =====
-- How often a vCPU's thread still enters the guest once src/input.rs has stored the flag.
use ferrvm.Prelude.{
  arith, ℕ, ◌+◌, ◌≤◌, ◌≡◌, inl, inr, refl, sym, ap, ◌∙◌, Bool, true, false, Bool-cases, List, [],
  ◌∷◌, ◌==◌, if◌then◌else◌, if_keeps, update,
}
use ferrvm.Shutdown.{
  World, Phase, reading, starting, at_check, entering, in_guest, leaving, locking, done, kicking,
  Answer, runs_on, goes_on, stops, kicked, answered, move, turn,
}
use ferrvm.Shutdown.Kicks.{same_thread}

abbrev pub about : Phase → ℕ
about entering = 1
about p = 0

-- How often thread `t` goes from its look at the flag into the guest.
abbrev pub entries : ℕ → List (ℕ × Answer) → World → ℕ
entries t [] w = 0
entries t ((x, answer) ∷ later) w =
    (if x == t then about (w.phase x) else 0) + entries t later (turn (x, answer) w)

kicked-about : (p : Phase) → about (kicked p) ≡ about p
unfolding kicked
kicked-about in_guest = refl
kicked-about entering = refl
kicked-about reading = refl
kicked-about starting = refl
kicked-about at_check = refl
kicked-about leaving = refl
kicked-about locking = refl
kicked-about done = refl
kicked-about (kicking rest) = refl

module _ (t x : ℕ) (w : World) where
  -- After a step of `x` from `p` the flag is still set, and `t` has no more entries left than before,
  -- counting this one.
  abbrev Spends : Phase → World → Type 0
  Spends p w' =
      (w'.shutdown.flag ≡ true)
      × ((if x == t then about p else 0) + about (w'.phase t) ≤ about (w.phase t))

  moved-about :
      (p p' : Phase)
      → w.phase x ≡ p
      → about p' ≡ 0
      → (if x == t then about p else 0) + about (update w.phase x p' t) ≤ about (w.phase t)
  moved-about p p' here out = elim (Bool-cases (x == t)) [
    | inl same ↦
        let own : about p ≡ about (w.phase t) =
          ap about (sym here ∙ ap w.phase (same_thread x t same)) in
        rw (same, out) (omega (arith, own))
    | inr other ↦ rw other (omega arith)
  ]

  still : (p : Phase) → about p ≡ 0 → w.shutdown.flag ≡ true → Spends p w
  still p out set = (
    set,
    elim (Bool-cases (x == t)) [
      | inl same ↦ rw (same, out) (omega arith)
      | inr other ↦ rw other (omega arith)
    ],
  )

  answered-Spends :
      (p back : Phase) (answer : Answer)
      → w.phase x ≡ p
      → about p ≡ 0
      → about back ≡ 0
      → w.shutdown.flag ≡ true
      → Spends p (answered x back answer w)
  answered-Spends p back runs_on here out left set = still p out set
  answered-Spends p back goes_on here out left set = (set, moved-about p back here left)
  answered-Spends p back stops here out left set = (set, moved-about p leaving here refl)

  taken :
      (p : Phase) (b : Bool) (w₁ w₂ : World)
      → b ≡ true
      → Spends p w₁
      → Spends p (if b then w₁ else w₂)
  taken p true w₁ w₂ e kept = kept
  taken p false w₁ w₂ e kept = absurd (cc)

  kicked_spends :
      (u : ℕ) (rest : List ℕ)
      → (if x == t then 0 else 0)
          + about (update (update w.phase u (kicked (w.phase u))) x (kicking rest) t)
        ≤ about (w.phase t)
  kicked_spends u rest = elim (Bool-cases (x == t)) [
    | inl same ↦ rw same (omega arith)
    | inr other ↦ elim (Bool-cases (u == t)) [
      | inl hit ↦
          let own : about (kicked (w.phase u)) ≡ about (w.phase t) =
            kicked-about (w.phase u) ∙ ap (λ x. about (w.phase x)) (same_thread u t hit) in
          rw (other, hit) (omega (arith, own))
      | inr miss ↦ rw (other, miss) (omega arith)
    ]
  ]

  move-Spends :
      (answer : Answer) (p : Phase)
      → w.phase x ≡ p
      → w.shutdown.flag ≡ true
      → Spends p (move x answer w p)
  unfolding move
  move-Spends answer reading here set = answered-Spends reading reading answer here refl refl set
  move-Spends answer starting here set =
      if_keeps (Spends starting) w.locked _ _ (still starting refl set)
        (set, moved-about starting at_check here refl)
  move-Spends answer at_check here set =
      taken at_check w.shutdown.flag _ _ set (set, moved-about at_check leaving here refl)
  move-Spends answer entering here set = (set, moved-about entering in_guest here refl)
  move-Spends answer in_guest here set = answered-Spends in_guest at_check answer here refl refl set
  move-Spends answer leaving here set = (refl, moved-about leaving locking here refl)
  move-Spends answer locking here set =
      if_keeps (Spends locking) w.locked _ _ (still locking refl set)
        (set, moved-about locking (kicking (w.shutdown.kick_threads)) here refl)
  move-Spends answer (kicking []) here set = (set, moved-about (kicking []) done here refl)
  move-Spends answer (kicking (u ∷ rest)) here set = (set, kicked_spends u rest)
  move-Spends answer done here set = still done refl set

-- Once the flag is set, a thread enters the guest at most once more, and not at all unless it is just then
-- between its look at the flag and its entry.
pub entries-le :
    (schedule : List (ℕ × Answer)) (t : ℕ) (w : World)
    → w.shutdown.flag ≡ true
    → entries t schedule w ≤ about (w.phase t)
unfolding turn
entries-le [] t w set = omega arith
entries-le ((x, answer) ∷ later) t w set =
    let (stays, spent) = move-Spends t x w answer (w.phase x) refl set in
    omega (arith, spent, entries-le later t (turn (x, answer) w) stays)
