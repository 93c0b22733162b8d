-- ===== src/Bus/Registration.antt =====
-- `Bus::register` of src/bus.rs: which registrations succeed, and the map that they build.
use ferrvm.Prelude.{
  ℕ, ◌+◌, ◌^◌, ◌≤◌, ◌<◌, ◌≡◌, refl, ◌⊎◌, inl, inr, Bool, ◌&&◌, none, some, List, [], ◌∷◌, ltb, leb,
  if◌then◌else◌, ok, err, arith, ◌↔◌, Option-cases,
}
use ferrvm.Bus.{
  BusRange, zero_length, overflow, overlap, max_addr, new, cmp, get_key_value, insert, register,
  lookup,
}

-- The ranges of a map stand in order from `lo` on, none empty, none past the address space, and no
-- two overlap.
abbrev pub IsLaid : {H : Type 0} → ℕ → List (BusRange × H) → Type 0
IsLaid lo [] = Unit
IsLaid lo ((k, d) ∷ devices) =
    (lo ≤ k.base) × (0 < k.len) × (k.base + k.len < 2 ^ 64) × IsLaid (k.base + k.len) devices

abbrev pub within : BusRange → ℕ → Bool
within r addr = leb r.base addr && ltb addr (r.base + r.len)

pub IsLaid-weaken :
    {H : Type 0} (lo lo' : ℕ) (m : List (BusRange × H)) → lo' ≤ lo → IsLaid lo m → IsLaid lo' m
IsLaid-weaken lo lo' [] h l = tt
IsLaid-weaken lo lo' ((k, d) ∷ m) h l = (omega arith, l.1, l.2, l.3)

-- Below the first range nothing is found.
lookup_below :
    {H : Type 0} (lo addr : ℕ) (m : List (BusRange × H))
    → IsLaid lo m
    → addr < lo
    → lookup addr m ≡ none
unfolding lookup get_key_value cmp
lookup_below lo addr [] l h = refl
lookup_below lo addr ((k, d) ∷ m) l h = ground arith

-- `get_key_value` finds nothing exactly when no range of the map overlaps the key.
abbrev pub Free : {H : Type 0} → BusRange → List (BusRange × H) → Type 0
Free key [] = Unit
Free key ((k, d) ∷ m) = ((key.base + key.len ≤ k.base) ⊎ (k.base + k.len ≤ key.base)) × Free key m

Free-above :
    {H : Type 0} (key : BusRange) (lo : ℕ) (m : List (BusRange × H))
    → IsLaid lo m
    → key.base + key.len ≤ lo
    → Free key m
Free-above key lo [] l h = tt
Free-above key lo ((k, d) ∷ m) l h =
    (inl (omega arith), Free-above key (k.base + k.len) m l.3 (omega arith))

pub get_key_value-Free :
    {H : Type 0} (key : BusRange) (lo : ℕ) (m : List (BusRange × H))
    → 0 < key.len
    → key.base + key.len < 2 ^ 64
    → IsLaid lo m
    → get_key_value key m ≡ none
    → Free key m
unfolding get_key_value cmp
get_key_value-Free key lo [] pos fits l h = tt
get_key_value-Free key lo ((k, d) ∷ m) pos fits l h = ground (
  arith,
  Free-above key (k.base + k.len) m l.3,
  get_key_value-Free key (k.base + k.len) m pos fits l.3,
)

pub Free-get_key_value :
    {H : Type 0} (key : BusRange) (lo : ℕ) (m : List (BusRange × H))
    → 0 < key.len
    → key.base + key.len < 2 ^ 64
    → IsLaid lo m
    → Free key m
    → get_key_value key m ≡ none
unfolding get_key_value cmp
Free-get_key_value key lo [] pos fits l h = refl
Free-get_key_value key lo ((k, d) ∷ m) pos fits l h =
    ground (arith, Free-get_key_value key (k.base + k.len) m pos fits l.3)

insert-IsLaid :
    {H : Type 0} (key : BusRange) (dev : H) (lo : ℕ) (m : List (BusRange × H))
    → 0 < key.len
    → key.base + key.len < 2 ^ 64
    → lo ≤ key.base
    → IsLaid lo m
    → Free key m
    → IsLaid lo (insert key dev m)
unfolding insert cmp
insert-IsLaid key dev lo [] pos fits low l f = (low, pos, fits, tt)
insert-IsLaid key dev lo ((k, d) ∷ m) pos fits low l f =
    ground (arith, insert-IsLaid key dev (k.base + k.len) m pos fits)

-- A lookup at the first range: there, below it, or above it.
pub lookup-cons :
    {H : Type 0} (k : BusRange) (d : H) (m : List (BusRange × H)) (addr : ℕ)
    → 0 < k.len
    → k.base + k.len < 2 ^ 64
    → lookup addr ((k, d) ∷ m)
      ≡ (if within k addr then some (k, d) else if ltb addr k.base then none else lookup addr m)
unfolding lookup get_key_value cmp
lookup-cons k d m addr pos fits = ground arith

insert_first :
    {H : Type 0} (key : BusRange) (dev : H) (k : BusRange) (d : H) (m : List (BusRange × H))
    → 0 < key.len
    → 0 < k.len
    → k.base + k.len < 2 ^ 64
    → key.base + key.len ≤ k.base
    → insert key dev ((k, d) ∷ m) ≡ (key, dev) ∷ (k, d) ∷ m
unfolding insert cmp
insert_first key dev k d m pos k_pos fits h = ground arith

insert_later :
    {H : Type 0} (key : BusRange) (dev : H) (k : BusRange) (d : H) (m : List (BusRange × H))
    → 0 < key.len
    → key.base + key.len < 2 ^ 64
    → 0 < k.len
    → k.base + k.len ≤ key.base
    → insert key dev ((k, d) ∷ m) ≡ (k, d) ∷ insert key dev m
unfolding insert cmp
insert_later key dev k d m pos fits k_pos h = ground arith

lookup-insert :
    {H : Type 0} (key : BusRange) (dev : H) (lo : ℕ) (m : List (BusRange × H)) (addr : ℕ)
    → 0 < key.len
    → key.base + key.len < 2 ^ 64
    → IsLaid lo m
    → Free key m
    → lookup addr (insert key dev m) ≡ (if within key addr then some (key, dev) else lookup addr m)
lookup-insert key dev lo [] addr pos fits l f =
    unfold insert in
    rw (lookup-cons key dev [] addr pos fits) (unfold lookup get_key_value in ground arith)
lookup-insert key dev lo ((k, d) ∷ m) addr pos fits l (inl before, rest) =
    rw
      (
        insert_first key dev k d m pos l.1 l.2 before,
        lookup-cons key dev ((k, d) ∷ m) addr pos fits,
        lookup-cons k d m addr l.1 l.2,
      )
      (ground arith)
lookup-insert key dev lo ((k, d) ∷ m) addr pos fits l (inr after, rest) =
    rw
      (
        insert_later key dev k d m pos fits l.1 after,
        lookup-cons k d (insert key dev m) addr l.1 l.2,
        lookup-cons k d m addr l.1 l.2,
        lookup-insert key dev (k.base + k.len) m addr pos fits l.3 rest,
      )
      (ground arith)

-- A registration of a free range inside the address space succeeds.
register-ok :
    {H : Type 0} (base len : ℕ) (dev : H) (lo : ℕ) (m : List (BusRange × H))
    → 0 < len
    → base + len < 2 ^ 64
    → IsLaid lo m
    → Free (record { base = base; len = len }) m
    → register base len dev m ≡ ok (insert (record { base = base; len = len }) dev m)
unfolding register new
register-ok base len dev lo m pos fits l f =
    ground (arith, Free-get_key_value (record { base = base; len = len }) lo m pos fits l f)

-- A registration succeeds exactly for a range that is not empty, ends inside the address space and
-- overlaps no registered range; the map is then ordered again, and an address looks up the new
-- device inside the range and what it did before outside.
register_inversion :
    {H : Type 0} (base len : ℕ) (dev : H) (m m' : List (BusRange × H))
    → IsLaid 0 m
    → register base len dev m ≡ ok m'
    → (0 < len)
      × (base + len < 2 ^ 64)
      × Free (record { base = base; len = len }) m
      × (m' ≡ insert (record { base = base; len = len }) dev m)
unfolding register new
register_inversion base len dev m m' l h =
    let key : BusRange = record { base = base; len = len } in
    let pos : 0 < len = ground arith in
    let fits : base + len < 2 ^ 64 = ground arith in
    let missing : get_key_value key m ≡ none = ground arith in
    (pos, fits, get_key_value-Free key 0 m pos fits l missing, ground arith)

-- `register` accepts a range exactly when it is not empty, ends inside the address space and
-- overlaps none of the registered ranges.
pub register_iff :
    {H : Type 0} (base len : ℕ) (dev : H) (m : List (BusRange × H))
    → IsLaid 0 m
    → ((m' : List (BusRange × H)) × (register base len dev m ≡ ok m'))
      ↔ ((0 < len) × (base + len < 2 ^ 64) × Free (record { base = base; len = len }) m)
register_iff base len dev m l = (
  λ r. let f = register_inversion base len dev m r.0 l r.1 in (f.0, f.1, f.2),
  λ f. (
    insert (record { base = base; len = len }) dev m,
    register-ok base len dev 0 m f.0 f.1 l f.2,
  ),
)

-- After an accepted registration the ranges are in order and disjoint again, and an address finds
-- the new device inside its range and what it found before everywhere else.
pub register_lem :
    {H : Type 0} (base len : ℕ) (dev : H) (m m' : List (BusRange × H))
    → IsLaid 0 m
    → register base len dev m ≡ ok m'
    → IsLaid 0 m'
      × ((addr : ℕ)
          → lookup addr m' ≡ (
              if within (record { base = base; len = len }) addr
              then some (record { base = base; len = len }, dev)
              else lookup addr m))
register_lem base len dev m m' l h =
    let key : BusRange = record { base = base; len = len } in
    let f = register_inversion base len dev m m' l h in
    rw f.3 (
      insert-IsLaid key dev 0 m f.0 f.1 (omega arith) l f.2,
      λ addr. lookup-insert key dev 0 m addr f.0 f.1 l f.2,
    )

-- The error says what is wrong: an empty range first, then one that passes the end of the address
-- space, then an overlap.
pub register_errors :
    {H : Type 0} (base len : ℕ) (dev : H) (m : List (BusRange × H))
    → IsLaid 0 m
    → (len ≡ 0 → register base len dev m ≡ err (zero_length base))
      × (0 < len → 2 ^ 64 ≤ base + len → register base len dev m ≡ err (overflow base max_addr))
      × (0 < len
          → base + len < 2 ^ 64
          → ¬ Free (record { base = base; len = len }) m
          → register base len dev m ≡ err (overlap base len))
unfolding register new
register_errors base len dev m l = (
  λ e. ground arith,
  λ p q. ground arith,
  λ p q taken. ground (
    arith,
    Option-cases (get_key_value (record { base = base; len = len }) m),
    λ (e : get_key_value (record { base = base; len = len }) m ≡ none).
        absurd {A = ⊥} (taken (get_key_value-Free (record { base = base; len = len }) 0 m p q l e)),
  ),
)
