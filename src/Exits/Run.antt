-- ===== src/Exits/Run.antt =====
-- `run_vcpu` of src/vcpu.rs: the loop that runs one vCPU.
-- `W` is everything outside the loop: the devices, guest memory, the other threads and the shutdown
-- flag. `requested` reads the flag and `request` sets it (src/input.rs); `step_run` is the backend's. The
-- loop may not end, so that it runs on fuel, one for each time round.
use ferrvm.Prelude.{
  arith, ℕ, zero, suc, ◌≡◌, refl, inl, inr, ◌⊎◌, ◌<◌, ◌↔◌, Bool, true, false, Bool-cases, Option,
  none, some, if◌then◌else◌, Result, ok, err,
}
use ferrvm.Exits.{ExitStats, new}

-- What `step_run` returned: whether to go on, or the error's kind.
pub data Stepped (E : Type 0) : Type 0 where
  go_on halt interrupted would_block : Stepped E
  failed : E → Stepped E

-- The end of a time round: `next` for another one, unless the vCPU halted or failed.
abbrev pub continue_with :
    {W E : Type 0}
    → (ExitStats → W → Option (Result E (Unit {0}) × ExitStats × W))
    → Stepped E × ExitStats × W
    → Option (Result E (Unit {0}) × ExitStats × W)
continue_with next (go_on, stats, w) = next stats w
continue_with next (interrupted, stats, w) = next stats w
continue_with next (would_block, stats, w) = next stats w
continue_with next (halt, stats, w) = some (ok tt, stats, w)
continue_with next (failed e, stats, w) = some (err e, stats, w)

module _ {W E : Type 0} (requested : W → Bool) (request : W → W)
    (step_run : ExitStats → W → Stepped E × ExitStats × W) where
  unfoldable pub run_loop : ℕ → ExitStats → W → Option (Result E (Unit {0}) × ExitStats × W)
  run_loop zero stats w = none
  run_loop (suc fuel) stats w =
      if requested w
      then some (ok tt, stats, w)
      else continue_with (run_loop fuel) (step_run stats w)

  -- The request to shut down, whatever the loop's result.
  abbrev pub shut_down :
      Option (Result E (Unit {0}) × ExitStats × W) → Option (Result E ExitStats × W)
  shut_down none = none
  shut_down (some (ok _, stats, w)) = some (ok stats, request w)
  shut_down (some (err e, stats, w)) = some (err e, request w)

  unfoldable pub run_vcpu : ℕ → W → Option (Result E ExitStats × W)
  run_vcpu fuel w = shut_down (run_loop fuel new w)

  -- The loop as a relation: how a run from one state ends, with its number of steps.
  pub data Runs : ExitStats → W → ℕ → Result E (Unit {0}) → ExitStats → W → Type 0 where
    kicked : {stats : ExitStats} {w : W} → requested w ≡ true → Runs stats w 0 (ok tt) stats w
    halted :
        {stats stats' : ExitStats} {w w' : W}
        → requested w ≡ false
        → step_run stats w ≡ (halt, stats', w')
        → Runs stats w 0 (ok tt) stats' w'
    broken :
        {stats stats' : ExitStats} {w w' : W} {e : E}
        → requested w ≡ false
        → step_run stats w ≡ (failed e, stats', w')
        → Runs stats w 0 (err e) stats' w'
    stepped :
        {stats stats' end_stats : ExitStats} {w w' end : W} {n : ℕ} {result : Result E (Unit {0})}
        (how : Stepped E)
        → (how ≡ go_on) ⊎ (how ≡ interrupted) ⊎ (how ≡ would_block)
        → requested w ≡ false
        → step_run stats w ≡ (how, stats', w')
        → Runs stats' w' n result end_stats end
        → Runs stats w (suc n) result end_stats end

  Runs-run_loop :
      (fuel n : ℕ) (stats stats' : ExitStats) (w w' : W) (result : Result E (Unit {0}))
      → Runs stats w n result stats' w'
      → n < fuel
      → run_loop fuel stats w ≡ some (result, stats', w')
  unfolding run_loop
  Runs-run_loop zero n stats stats' w w' result r h = absurd (omega arith)
  Runs-run_loop (suc fuel) _ stats _ w _ _ (kicked k) h = rw k refl
  Runs-run_loop (suc fuel) _ stats _ w _ _ (halted q e) h = rw (q, e) refl
  Runs-run_loop (suc fuel) _ stats _ w _ _ (broken q e) h = rw (q, e) refl
  Runs-run_loop (suc fuel) _ stats stats' w w' result
        (stepped {stats' = stats₁} {w' = w₁} {n = n} how on q e r) h =
      let rest = Runs-run_loop fuel n stats₁ stats' w₁ w' result r (omega arith) in
      elim on [
        | inl same ↦ rw (q, e, same) rest
        | inr (inl same) ↦ rw (q, e, same) rest
        | inr (inr same) ↦ rw (q, e, same) rest
      ]

  -- A time round that did not end the loop.
  one_step :
      (fuel : ℕ) (how : Stepped E) {stats stats₁ stats' : ExitStats} {w w₁ w' : W}
      {result : Result E (Unit {0})}
      → (how ≡ go_on) ⊎ (how ≡ interrupted) ⊎ (how ≡ would_block)
      → requested w ≡ false
      → step_run stats w ≡ (how, stats₁, w₁)
      → ((n : ℕ) × (n < fuel) × Runs stats₁ w₁ n result stats' w')
      → (n : ℕ) × (n < suc fuel) × Runs stats w n result stats' w'
  one_step fuel how on q e (n, small, r) = (suc n, omega arith, stepped how on q e r)

  -- The last step of a run, or its first one with the rest.
  continue_with-Runs :
      (fuel : ℕ) (stats stats' : ExitStats) (w w' : W) (result : Result E (Unit {0}))
      (out : Stepped E × ExitStats × W)
      → ((stats₁ : ExitStats) (w₁ : W)
          → run_loop fuel stats₁ w₁ ≡ some (result, stats', w')
          → (n : ℕ) × (n < fuel) × Runs stats₁ w₁ n result stats' w')
      → requested w ≡ false
      → step_run stats w ≡ out
      → continue_with (run_loop fuel) out ≡ some (result, stats', w')
      → (n : ℕ) × (n < suc fuel) × Runs stats w n result stats' w'
  continue_with-Runs fuel stats stats' w w' result (go_on, stats₁, w₁) again q e g =
      one_step fuel go_on (inl refl) q e (again stats₁ w₁ g)
  continue_with-Runs fuel stats stats' w w' result (interrupted, stats₁, w₁) again q e g =
      one_step fuel interrupted (inr (inl refl)) q e (again stats₁ w₁ g)
  continue_with-Runs fuel stats stats' w w' result (would_block, stats₁, w₁) again q e g =
      one_step fuel would_block (inr (inr refl)) q e (again stats₁ w₁ g)
  continue_with-Runs fuel stats stats' w w' result (halt, stats₁, w₁) again q e g =
      let r : ok tt ≡ result = cc in
      let s : stats₁ ≡ stats' = cc in
      let v : w₁ ≡ w' = cc in (0, omega arith, rw (← r, ← s, ← v) (halted q e))
  continue_with-Runs fuel stats stats' w w' result (failed f, stats₁, w₁) again q e g =
      let r : err f ≡ result = cc in
      let s : stats₁ ≡ stats' = cc in
      let v : w₁ ≡ w' = cc in (0, omega arith, rw (← r, ← s, ← v) (broken q e))

  run_loop-Runs :
      (fuel : ℕ) (stats stats' : ExitStats) (w w' : W) (result : Result E (Unit {0}))
      → run_loop fuel stats w ≡ some (result, stats', w')
      → (n : ℕ) × (n < fuel) × Runs stats w n result stats' w'
  unfolding run_loop
  run_loop-Runs zero stats stats' w w' result h = absurd (cc)
  run_loop-Runs (suc fuel) stats stats' w w' result h = elim (Bool-cases (requested w)) [
    | inl k ↦
        let done : ◌≡◌ {A = Option (Result E (Unit {0}) × ExitStats × W)} (some (ok tt, stats, w))
            (some (result, stats', w')) =
          rw k at h in
        let r : ok tt ≡ result = cc in
        let s : stats ≡ stats' = cc in
        let v : w ≡ w' = cc in (0, omega arith, rw (← r, ← s, ← v) (kicked k))
    | inr q ↦
        continue_with-Runs fuel stats stats' w w' result (step_run stats w)
          (λ stats₁ w₁ g. run_loop-Runs fuel stats₁ stats' w₁ w' result g) q refl (rw q at h)
  ]

  -- With fuel for more rounds than a run has steps, and only then, the loop ends as the run does.
  pub run_loop_iff :
      (fuel : ℕ) (stats stats' : ExitStats) (w w' : W) (result : Result E (Unit {0}))
      → (run_loop fuel stats w ≡ some (result, stats', w'))
        ↔ ((n : ℕ) × (n < fuel) × Runs stats w n result stats' w')
  run_loop_iff fuel stats stats' w w' result = (
    run_loop-Runs fuel stats stats' w w' result,
    λ (n, small, r). Runs-run_loop fuel n stats stats' w w' result r small,
  )
