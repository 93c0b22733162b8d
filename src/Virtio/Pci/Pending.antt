-- ===== src/Virtio/Pci/Pending.antt =====
-- The pending MSI-X vectors of src/virtio/pci.rs: the delivery loop of `deliver_pending_msix`.
use ferrvm.Prelude.{
  arith, ℕ, zero, suc, Bool, true, false, not, ◌&&◌, ◌≡◌, refl, some, List, [], ◌∷◌, map, get_elem?,
  set, Bool-cases, replicate, inl, inr,
}
use ferrvm.Virtio.Pci.State.{MsixEntry, masked, deliver}
use ferrvm.Virtio.Pci.Common.{modify}

-- No vector is both pending and unmasked.
unfoldable pub quiet : List MsixEntry → List Bool → Bool
quiet [] pending = true
quiet (e ∷ table) [] = true
quiet (e ∷ table) (p ∷ pending) = not (p && not (masked e)) && quiet table pending

pub and_split : (a b : Bool) → (a && b) ≡ true → (a ≡ true) × (b ≡ true)
and_split true b h = (refl, h)
and_split false b h = absurd (cc)

pub and_join : (a b : Bool) → a ≡ true → b ≡ true → (a && b) ≡ true
and_join a b ha hb = rw (ha, hb)

-- A pending bit that is not due stays as it is.
not_due : (p m : Bool) → not (p && not m) ≡ true → (p && not m) ≡ false
not_due true true h = refl
not_due true false h = absurd (cc)
not_due false m h = refl

-- A delivery leaves no vector both pending and unmasked.
pub deliver-quiet :
    (table : List MsixEntry) (pending : List Bool) (log : List (ℕ × ℕ))
    → quiet table (deliver table pending log).0 ≡ true
unfolding quiet deliver
deliver-quiet [] pending log = refl
deliver-quiet (e ∷ table) [] log = refl
deliver-quiet (e ∷ table) (p ∷ pending) log = elim (Bool-cases (p && not (masked e))) [
  | inl due ↦ rw (due, deliver-quiet table pending ((e.address, e.word) ∷ log))
  | inr kept ↦ rw (kept, kept, deliver-quiet table pending log)
]

-- With nothing both pending and unmasked, a delivery sends nothing and keeps the pending bits.
pub deliver_idle :
    (table : List MsixEntry) (pending : List Bool) (log : List (ℕ × ℕ))
    → quiet table pending ≡ true
    → deliver table pending log ≡ (pending, log)
unfolding quiet deliver
deliver_idle [] pending log h = refl
deliver_idle (e ∷ table) [] log h = refl
deliver_idle (e ∷ table) (p ∷ pending) log h =
    let split = and_split (not (p && not (masked e))) (quiet table pending) h in
    rw (not_due p (masked e) split.0, deliver_idle table pending log split.1)

pub quiet-map-false :
    (table : List MsixEntry) (pending : List Bool) → quiet table (map (λ p. false) pending) ≡ true
unfolding quiet
quiet-map-false [] pending = refl
quiet-map-false (e ∷ table) [] = refl
quiet-map-false (e ∷ table) (p ∷ pending) = quiet-map-false table pending

pub quiet-replicate-false :
    (table : List MsixEntry) (n : ℕ) → quiet table (replicate n false) ≡ true
unfolding quiet
quiet-replicate-false [] n = refl
quiet-replicate-false (e ∷ table) zero = refl
quiet-replicate-false (e ∷ table) (suc n) = quiet-replicate-false table n

-- A masked entry may become pending.
pub quiet-set :
    (table : List MsixEntry) (pending : List Bool) (i : ℕ) (e : MsixEntry)
    → quiet table pending ≡ true
    → get_elem? table i ≡ some e
    → masked e ≡ true
    → quiet table (set pending i true) ≡ true
unfolding quiet
quiet-set [] pending i e h found m = refl
quiet-set (x ∷ table) [] i e h found m = refl
quiet-set (x ∷ table) (p ∷ pending) zero e h found m =
    let split = and_split (not (p && not (masked x))) (quiet table pending) h in
    let here : x ≡ e = grind arith in rw (here, m, split.1)
quiet-set (x ∷ table) (p ∷ pending) (suc i) e h found m =
    let split = and_split (not (p && not (masked x))) (quiet table pending) h in
    rw (split.0, quiet-set table pending i e split.1 found m)

-- A change of an entry that keeps its mask bit keeps the table quiet.
pub quiet-modify :
    (table : List MsixEntry) (pending : List Bool) (i : ℕ) (f : MsixEntry → MsixEntry)
    → ((e : MsixEntry) → masked (f e) ≡ masked e)
    → quiet table pending ≡ true
    → quiet (modify table i f) pending ≡ true
unfolding quiet
quiet-modify [] pending i f same h = refl
quiet-modify (x ∷ table) [] zero f same h = refl
quiet-modify (x ∷ table) [] (suc i) f same h = refl
quiet-modify (x ∷ table) (p ∷ pending) zero f same h = rw (same, h)
quiet-modify (x ∷ table) (p ∷ pending) (suc i) f same h =
    let split = and_split (not (p && not (masked x))) (quiet table pending) h in
    rw (split.0, quiet-modify table pending i f same split.1)

-- When the only pending vector that is unmasked is the one whose entry has just been written, it is
-- the one message of the delivery, with the entry's address and data, and it is pending no more.
pub deliver_one :
    (table : List MsixEntry) (pending : List Bool) (log : List (ℕ × ℕ)) (i : ℕ)
    → (old new : MsixEntry) → quiet table pending ≡ true
    → get_elem? table i ≡ some old
    → get_elem? pending i ≡ some true
    → masked new ≡ false
    → deliver (modify table i (λ e. new)) pending log
      ≡ (set pending i false, (new.address, new.word) ∷ log)
unfolding quiet deliver
deliver_one [] pending log i old new h at_i p_i m = absurd (cc)
deliver_one (x ∷ table) [] log i old new h at_i p_i m = absurd (cc)
deliver_one (x ∷ table) (p ∷ pending) log zero old new h at_i p_i m =
    let split = and_split (not (p && not (masked x))) (quiet table pending) h in
    let set_here : p ≡ true = grind arith in
    rw (set_here, m, deliver_idle table pending ((new.address, new.word) ∷ log) split.1)
deliver_one (x ∷ table) (p ∷ pending) log (suc i) old new h at_i p_i m =
    let split = and_split (not (p && not (masked x))) (quiet table pending) h in
    rw (not_due p (masked x) split.0, deliver_one table pending log i old new split.1 at_i p_i m)
