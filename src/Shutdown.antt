-- ===== src/Shutdown.antt =====
-- `Shutdown` of src/input.rs, and the threads of src/main.rs that use it: each vCPU's thread, with the
-- loop of src/vcpu.rs, and the reader of the terminal. A thread is a number, a run is a schedule: which
-- thread takes its next step, and how the guest or the user behaves then. A signal is handled at once: it
-- makes `KVM_RUN` return, and does nothing to a thread that is not in the guest.
mod Kicks
mod Registered
mod Through
mod Entries
mod Tests
use ferrvm.Prelude.{ℕ, Bool, true, false, List, [], ◌∷◌, ◌++◌, if◌then◌else◌, update}

pub record Shutdown : Type 0 where
  pub flag : Bool
  pub kick_threads : List ℕ

abbrev pub new : Shutdown
new = record { flag = false; kick_threads = [] }

abbrev pub add_kick_target : ℕ → Shutdown → Shutdown
add_kick_target thread s = record s { kick_threads = s.kick_threads ++ thread ∷ [] }

-- Where a thread is. `leaving` is the call of `request`, `locking` is behind its store of the flag, and
-- `kicking` holds the lock and has the threads that it still has to signal.
pub data Phase : Type 0 where
  reading starting at_check entering in_guest leaving locking done : Phase
  kicking : List ℕ → Phase

-- How the guest answers an entry: it runs on, exits and is to be entered again, or ends the loop. For the
-- reader, `stops` is the user's wish to quit.
pub data Answer : Type 0 where
  runs_on goes_on stops : Answer

pub record World : Type 0 where
  pub shutdown : Shutdown
  pub locked : Bool
  pub phase : ℕ → Phase

-- What SIGUSR1 does to a thread.
pub kicked : Phase → Phase
kicked in_guest = at_check
kicked p = p

abbrev pub moved : ℕ → Phase → World → World
moved t p w = record w { phase = update w.phase t p }

-- The exit of the guest, or the end of the reader.
abbrev pub answered : ℕ → Phase → Answer → World → World
answered t back runs_on w = w
answered t back goes_on w = moved t back w
answered t back stops w = moved t leaving w

-- The next step of thread `t`, from where it is.
unfoldable pub move : ℕ → Answer → World → Phase → World
move t answer w reading = answered t reading answer w
move t answer w starting =
    if w.locked
    then w
    else record w { shutdown = add_kick_target t w.shutdown; phase = update w.phase t at_check }
move t answer w at_check = if w.shutdown.flag then moved t leaving w else moved t entering w
move t answer w entering = moved t in_guest w
move t answer w in_guest = answered t at_check answer w
move t answer w leaving = record w {
  shutdown = record w.shutdown { flag = true };
  phase = update w.phase t locking;
}
move t answer w locking =
    if w.locked
    then w
    else record w { locked = true; phase = update w.phase t (kicking (w.shutdown.kick_threads)) }
move t answer w (kicking []) = record w { locked = false; phase = update w.phase t done }
move t answer w (kicking (u ∷ rest)) = record w {
  phase = update (update w.phase u (kicked (w.phase u))) t (kicking rest);
}
move t answer w done = w

unfoldable pub turn : ℕ × Answer → World → World
turn (t, answer) w = move t answer w (w.phase t)

unfoldable pub run : List (ℕ × Answer) → World → World
run [] w = w
run (now ∷ later) w = run later (turn now w)
