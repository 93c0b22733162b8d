-- ===== src/Console.antt =====
-- src/terminal.rs and src/input.rs: the escape keys and the reader of the host's terminal.
-- A round of the reader's loop is what `poll` and `read` gave, with the host clock; the raw mode of the
-- terminal is not modelled. `requested` is the shutdown flag, `helps` counts the help texts printed.
mod Tests
pub mod Escape
pub mod Heard
use ferrvm.Prelude.{
  ℕ, Bool, true, false, ◌||◌, List, [], ◌∷◌, ◌==◌, if◌then◌else◌, length, ltb, ◌+◌,
}
use ferrvm.Serial.{Serial, inject_rx, tick_cti}

abbrev pub ctrl_a : ℕ
ctrl_a = 1

pub data EscapeAction : Type 0 where
  forward : ℕ → EscapeAction
  quit help swallowed : EscapeAction

pub record EscapeState : Type 0 where
  pub prefix_seen : Bool

-- The actions after the prefix: `x` or `X`, `?`, any other byte.
pub after_prefix : ℕ → EscapeAction
after_prefix byte =
    if byte == 120 || byte == 88 then quit else if byte == 63 then help else forward byte

pub feed : ℕ → EscapeState → EscapeAction × EscapeState
feed byte s =
    if s.prefix_seen
    then (after_prefix byte, record { prefix_seen = false })
    else if byte == ctrl_a
    then (swallowed, record { prefix_seen = true })
    else (forward byte, s)

-- What a batch of bytes comes to.
pub record Batch : Type 0 where
  pub forwarded : List ℕ
  pub wants_quit : Bool
  pub wants_help : Bool
  pub escape : EscapeState

-- The work on one action, with the state after it and the batch of the bytes that follow.
pub absorb : EscapeAction → EscapeState → Batch → Batch
absorb (forward b) s rest = record rest { forwarded = b ∷ rest.forwarded }
absorb swallowed s rest = rest
absorb help s rest = record rest { wants_help = true }
absorb quit s rest = record { forwarded = []; wants_quit = true; wants_help = false; escape = s }

-- The loop over the bytes read, which a quit ends.
pub scan : EscapeState → List ℕ → Batch
scan s [] = record { forwarded = []; wants_quit = false; wants_help = false; escape = s }
scan s (byte ∷ bytes) = let (action, s') = feed byte s in absorb action s' (scan s' bytes)

-- What `poll` and `read` gave in one round.
pub data Polled : Type 0 where
  interrupted timed_out failed end_of_input : Polled
  received : List ℕ → Polled

pub record Console : Type 0 where
  pub state : EscapeState
  pub serial : Serial
  pub requested : Bool
  pub helps : ℕ

-- The work on a batch.
pub deliver : ℕ → Console → Batch → Console
deliver now c batch = record {
  state = batch.escape;
  serial =
      if ltb 0 (length batch.forwarded) then inject_rx batch.forwarded now c.serial else c.serial;
  requested = if batch.wants_quit then true else c.requested;
  helps = if batch.wants_help then c.helps + 1 else c.helps;
}

pub round : ℕ → Polled → Console → Console
round now interrupted c = c
round now timed_out c = record c { serial = (tick_cti now c.serial).1 }
round now failed c = record c { requested = true }
round now end_of_input c = record c { requested = true }
round now (received bytes) c = deliver now c (scan c.state bytes)

-- `reader_loop` over the rounds to come; it stops once shutdown is requested.
pub reader_loop : List (ℕ × Polled) → Console → Console
reader_loop [] c = c
reader_loop ((now, polled) ∷ rounds) c =
    let rest = reader_loop rounds (round now polled c) in if c.requested then c else rest
