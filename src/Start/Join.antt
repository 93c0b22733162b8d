-- ===== src/Start/Join.antt =====
-- The end of src/main.rs: the threads are joined in the order of their CPUs.
use ferrvm.Prelude.{
  arith, ℕ, ◌+◌, ◌≡◌, refl, ◌∙◌, Option, none, some, List, [], ◌∷◌, Result, ok, err, u64,
}
use ferrvm.Exits.{ExitStats, new, add_assign}

-- How a thread ended: what `run_vcpu` returned, or a panic.
pub data Joined (E : Type 0) : Type 0 where
  returned : Result E ExitStats → Joined E
  panicked : Joined E

-- `run_error`: the error of a vCPU, or "a vCPU thread panicked".
pub data RunError (E : Type 0) : Type 0 where
  failed : E → RunError E
  thread_panicked : RunError E

-- `get_or_insert`
abbrev pub get_or_insert : {A : Type 0} → Option A → A → Option A
get_or_insert none a = some a
get_or_insert (some b) a = some b

abbrev pub wrapped : ExitStats → ExitStats
wrapped s = record {
  io_exits = u64 s.io_exits;
  mmio_exits = u64 s.mmio_exits;
  hlt_exits = u64 s.hlt_exits;
  shutdown_exits = u64 s.shutdown_exits;
  other_exits = u64 s.other_exits;
}

abbrev pub plus : ExitStats → ExitStats → ExitStats
plus s other = record {
  io_exits = s.io_exits + other.io_exits;
  mmio_exits = s.mmio_exits + other.mmio_exits;
  hlt_exits = s.hlt_exits + other.hlt_exits;
  shutdown_exits = s.shutdown_exits + other.shutdown_exits;
  other_exits = s.other_exits + other.other_exits;
}

add_assign-wrapped : (t s : ExitStats) → add_assign (wrapped t) s ≡ wrapped (plus t s)
add_assign-wrapped t s = ground arith

abbrev or_else : {A : Type 0} → Option A → Option A → Option A
or_else none later = later
or_else (some a) later = some a

module _ {E : Type 0} where
  pub join_one : Joined E → ExitStats × Option (RunError E) → ExitStats × Option (RunError E)
  join_one (returned (ok stats)) (totals, run_error) = (add_assign totals stats, run_error)
  join_one (returned (err e)) (totals, run_error) = (totals, get_or_insert run_error (failed e))
  join_one panicked (totals, run_error) = (totals, get_or_insert run_error thread_panicked)

  pub join_all : List (Joined E) → ExitStats × Option (RunError E) → ExitStats × Option (RunError E)
  join_all [] acc = acc
  join_all (handle ∷ handles) acc = join_all handles (join_one handle acc)

  abbrev pub report : ExitStats × Option (RunError E) → Result (RunError E) (Unit {0}) × ExitStats
  report (totals, none) = (ok tt, totals)
  report (totals, some e) = (err e, totals)

  -- What `main` returns, and the totals that it prints.
  pub finish : List (Joined E) → Result (RunError E) (Unit {0}) × ExitStats
  finish handles = report (join_all handles (new, none))

  -- An independent account: the sums of each counter, and the first thread that did not end well.
  abbrev pub stats_of : Joined E → ExitStats
  stats_of (returned (ok stats)) = stats
  stats_of (returned (err e)) = new
  stats_of panicked = new

  abbrev pub sum_of : (ExitStats → ℕ) → List (Joined E) → ℕ
  sum_of counter [] = 0
  sum_of counter (handle ∷ handles) = counter (stats_of handle) + sum_of counter handles

  abbrev pub first_error : List (Joined E) → Option (RunError E)
  first_error [] = none
  first_error (returned (ok stats) ∷ handles) = first_error handles
  first_error (returned (err e) ∷ handles) = some (failed e)
  first_error (panicked ∷ handles) = some thread_panicked

  abbrev pub sums : List (Joined E) → ExitStats
  sums handles = record {
    io_exits = sum_of (λ s. s.io_exits) handles;
    mmio_exits = sum_of (λ s. s.mmio_exits) handles;
    hlt_exits = sum_of (λ s. s.hlt_exits) handles;
    shutdown_exits = sum_of (λ s. s.shutdown_exits) handles;
    other_exits = sum_of (λ s. s.other_exits) handles;
  }

  join_all_lem :
      (handles : List (Joined E)) (t : ExitStats) (e : Option (RunError E))
      → join_all handles (wrapped t, e)
        ≡ (wrapped (plus t (sums handles)), or_else e (first_error handles))
  unfolding join_all join_one
  join_all_lem [] t none = ground arith
  join_all_lem [] t (some e) = ground arith
  join_all_lem (returned (ok stats) ∷ handles) t e =
      rw (add_assign-wrapped t stats, join_all_lem handles (plus t stats) e) (ground arith)
  join_all_lem (returned (err f) ∷ handles) t none =
      join_all_lem handles t (some (failed f)) ∙ ground arith
  join_all_lem (returned (err f) ∷ handles) t (some e) =
      join_all_lem handles t (some e) ∙ ground arith
  join_all_lem (panicked ∷ handles) t none =
      join_all_lem handles t (some thread_panicked) ∙ ground arith
  join_all_lem (panicked ∷ handles) t (some e) = join_all_lem handles t (some e) ∙ ground arith

  reported :
      (totals : ExitStats) (e : Option (RunError E))
      → report (totals, e) ≡ (elim e [ none ↦ ok tt | some e ↦ err e ], totals)
  reported totals none = refl
  reported totals (some e) = refl

  -- The program ends well exactly when every vCPU did, else with the error of the first one that did
  -- not; the totals are the sums of the counters of those that did, modulo 2^64.
  pub finish_lem :
      (handles : List (Joined E))
      → finish handles
        ≡ (elim (first_error handles) [ none ↦ ok tt | some e ↦ err e ], wrapped (sums handles))
  unfolding finish
  finish_lem handles =
      let joined : join_all handles (new, none) ≡ (wrapped (sums handles), first_error handles) =
        join_all_lem handles new none ∙ ground arith in
      rw joined (reported (wrapped (sums handles)) (first_error handles))
