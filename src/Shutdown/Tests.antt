-- ===== src/Shutdown/Tests.antt =====
-- The theorems on the shutdown at two threads, and a signal that comes too early.
use ferrvm.Prelude.{ℕ, ◌≤◌, ◌<◌, ◌≡◌, ◌≢◌, refl, true, false, List, [], ◌∷◌, update}
use ferrvm.Shutdown.{
  World, Phase, reading, starting, at_check, leaving, entering, in_guest, done, kicking, Answer,
  runs_on, stops, kicked, turn, move, run,
}
use ferrvm.Shutdown.Kicks.{outside}
use ferrvm.Shutdown.Registered.{initial}
use ferrvm.Shutdown.Through.{turns_of, run-request}
use ferrvm.Shutdown.Entries.{about, entries, entries-le}

-- Thread 0 has stored the flag and holds the lock, thread 1 is in the guest.
abbrev requesting : World
requesting = record {
  shutdown = record { flag = true; kick_threads = 0 ∷ 1 ∷ [] };
  locked = true;
  phase = update (λ _. in_guest) 0 (kicking (0 ∷ 1 ∷ []));
}

abbrev turns : List (ℕ × Answer)
turns = (0, runs_on) ∷ (1, runs_on) ∷ (0, runs_on) ∷ (0, runs_on) ∷ []

in_guest_apart : in_guest ≢ entering
in_guest_apart e = absurd (cc)

-- Thread 0 reads the terminal, thread 1 is a vCPU's; the vCPU is in the guest when the user quits.
abbrev two_threads : ℕ → Phase
two_threads = update (λ _. reading) 1 starting

abbrev quits : List (ℕ × Answer)
quits = (1, runs_on) ∷ (1, runs_on) ∷ (1, runs_on) ∷ (0, stops) ∷ []

abbrev later : List (ℕ × Answer)
later = (0, runs_on) ∷ (1, runs_on) ∷ (0, runs_on) ∷ []

abbrev leaves : World
leaves = record {
  shutdown = record { flag = false; kick_threads = 1 ∷ [] };
  locked = false;
  phase = update (update (update (update two_threads 1 at_check) 1 entering) 1 in_guest) 0 leaving;
}

not_starting : in_guest ≢ starting
not_starting e = absurd (cc)

run-request_example :
    ((run ((0, runs_on) ∷ later) leaves).phase 0 ≡ done
      → outside ((run ((0, runs_on) ∷ later) leaves).phase 1) ≡ true)
    × (leaves.locked ≡ false
        → 1 < turns_of 0 later
        → ((run ((0, runs_on) ∷ (0, runs_on) ∷ later) leaves).phase 0 ≡ done)
          × (outside ((run ((0, runs_on) ∷ (0, runs_on) ∷ later) leaves).phase 1) ≡ true))
unfolding run turn move
run-request_example =
    run-request two_threads quits later leaves 1 0 runs_on runs_on refl refl not_starting
      in_guest_apart refl

entries-le_example : entries 1 turns requesting ≤ about (requesting.phase 1)
entries-le_example = entries-le turns 1 requesting refl

-- Thread 0 reads the terminal, thread 1 is a vCPU's.
abbrev before : World
before = initial two_threads

abbrev early : List (ℕ × Answer)
early =
    (1, runs_on)
    ∷ (1, runs_on)
    ∷ (0, stops)
    ∷ (0, runs_on)
    ∷ (0, runs_on)
    ∷ (0, runs_on)
    ∷ (0, runs_on)
    ∷ (1, runs_on)
    ∷ (1, runs_on)
    ∷ []

-- The vCPU looks at the flag, is signalled, and only then enters the guest, where it stays.
lost_kick :
    ((run early before).phase 0 ≡ done)
    × ((run early before).phase 1 ≡ in_guest)
    × ((run early before).shutdown.flag ≡ true)
unfolding run turn move kicked
lost_kick = (refl, refl, refl)
