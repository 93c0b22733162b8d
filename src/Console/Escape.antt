-- ===== src/Console/Escape.antt =====
-- What the escape keys of src/terminal.rs let through to the guest.
use ferrvm.Prelude.{
  arith, ℕ, true, false, ◌||◌, List, [], ◌∷◌, ◌++◌, ◌==◌, ◌≡◌, ◌⊎◌, refl, ap, ap₂, if◌then◌else◌,
  Bool-cases, inl, inr,
}
use ferrvm.Console.{
  EscapeAction, EscapeState, Batch, forward, quit, help, swallowed, after_prefix, feed, absorb,
  scan, ctrl_a,
}

-- The state before any prefix.
abbrev pub plain : EscapeState
plain = record { prefix_seen = false }

-- What a user types to send a text: each Ctrl-A twice.
unfoldable pub typed : List ℕ → List ℕ
typed [] = []
typed (b ∷ text) = let rest = typed text in if b == 1 then 1 ∷ 1 ∷ rest else b ∷ rest

-- Two batches, one after the other.
abbrev pub join : Batch → Batch → Batch
join first second = record {
  forwarded = first.forwarded ++ second.forwarded;
  wants_quit = second.wants_quit;
  wants_help = first.wants_help || second.wants_help;
  escape = second.escape;
}

-- A batch without a quit: its rest has none, and its rest's state is its own.
absorb_wants_quit :
    (action : EscapeAction) (s : EscapeState) (rest : Batch)
    → (absorb action s rest).wants_quit ≡ false
    → (rest.wants_quit ≡ false) × ((absorb action s rest).escape ≡ rest.escape)
unfolding absorb
absorb_wants_quit (forward b) s rest h = (h, refl)
absorb_wants_quit swallowed s rest h = (h, refl)
absorb_wants_quit help s rest h = (h, refl)
absorb_wants_quit quit s rest h = absurd (cc)

absorb-join :
    (action : EscapeAction) (s : EscapeState) (first second : Batch)
    → (absorb action s first).wants_quit ≡ false
    → absorb action s (join first second) ≡ join (absorb action s first) second
unfolding absorb
absorb-join (forward b) s first second h = refl
absorb-join swallowed s first second h = refl
absorb-join help s first second h = refl
absorb-join quit s first second h = absurd (cc)

-- Where the reads cut the input does not matter: two batches one after the other forward and ask for
-- what their bytes do in one batch, when the first does not quit.
pub scan-append :
    (s : EscapeState) (xs ys : List ℕ)
    → (scan s xs).wants_quit ≡ false
    → scan s (xs ++ ys) ≡ join (scan s xs) (scan (scan s xs).escape ys)
unfolding scan
scan-append s [] ys h = refl
scan-append s (b ∷ xs) ys h =
    let action = (feed b s).0 in
    let s' = (feed b s).1 in
    let more = absorb_wants_quit action s' (scan s' xs) h in
    rw
      (
        scan-append s' xs ys more.0,
        absorb-join action s' (scan s' xs) (scan (scan s' xs).escape ys) h,
        more.1,
      )
      refl

-- Nothing after a quit counts.
absorb-quit :
    (action : EscapeAction) (s : EscapeState) (rest more : Batch)
    → ((rest.wants_quit ≡ true) → more ≡ rest)
    → (absorb action s rest).wants_quit ≡ true
    → absorb action s more ≡ absorb action s rest
unfolding absorb
absorb-quit (forward b) s rest more same h = ap (absorb (forward b) s) (same h)
absorb-quit swallowed s rest more same h = same h
absorb-quit help s rest more same h = ap (absorb help s) (same h)
absorb-quit quit s rest more same h = refl

pub scan_stops :
    (s : EscapeState) (xs ys : List ℕ)
    → (scan s xs).wants_quit ≡ true
    → scan s (xs ++ ys) ≡ scan s xs
unfolding scan
scan_stops s [] ys h = absurd (cc)
scan_stops s (b ∷ xs) ys h =
    let action = (feed b s).0 in
    let s' = (feed b s).1 in
    absorb-quit action s' (scan s' xs) (scan s' (xs ++ ys)) (scan_stops s' xs ys) h

-- A text typed with each Ctrl-A twice is forwarded as it is and asks for nothing; typed before Ctrl-A
-- and x or X it is forwarded as it is too, the batch asks to quit, and the bytes after it are dropped.
pub scan-typed :
    (text after : List ℕ) (key : ℕ)
    → (key ≡ 120) ⊎ (key ≡ 88)
    → ((scan plain (typed text)).forwarded ≡ text)
      × ((scan plain (typed text)).wants_quit ≡ false)
      × ((scan plain (typed text ++ 1 ∷ key ∷ after)).forwarded ≡ text)
      × ((scan plain (typed text ++ 1 ∷ key ∷ after)).wants_quit ≡ true)
unfolding scan typed feed after_prefix absorb
scan-typed [] after key (inl x) = rw x (refl, refl, refl, refl)
scan-typed [] after key (inr x) = rw x (refl, refl, refl, refl)
scan-typed (b ∷ text) after key quits = elim (Bool-cases (b == ctrl_a)) [
  | inl same ↦
      let is : ctrl_a ≡ b = ground arith in
      let rest = scan-typed text after key quits in
      rw same (ap₂ (λ x xs. x ∷ xs) is rest.0, rest.1, ap₂ (λ x xs. x ∷ xs) is rest.2, rest.3)
  | inr other ↦
      let rest = scan-typed text after key quits in
      rw (other, other) (ap (λ xs. b ∷ xs) rest.0, rest.1, ap (λ xs. b ∷ xs) rest.2, rest.3)
]
