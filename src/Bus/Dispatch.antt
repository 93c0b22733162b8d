-- ===== src/Bus/Dispatch.antt =====
-- `Bus::read` and `Bus::write` of src/bus.rs: which device serves an access.
use ferrvm.Prelude.{
  ℕ, suc, ◌+◌, ◌-◌, ◌^◌, ◌≤◌, ◌<◌, ◌≡◌, ◌⊎◌, ◌↔◌, ◌∙◌, inl, inr, true, false, none, some, List, [],
  ◌∷◌, ltb, if◌then◌else◌, arith, length, replicate, Bool-cases, Option-cases,
}
use ferrvm.Bus.{BusRange, BusDevice, lookup, get_key_value, contains_range, read, write}
use ferrvm.Bus.Registration.{IsLaid, within, lookup-cons}

module _ {H : Type 0} (k : BusRange) (e : H) (m : List (BusRange × H)) (pos : 0 < k.len)
    (fits : k.base + k.len < 2 ^ 64) where
  lookup_hit : (a : ℕ) → k.base ≤ a → a < k.base + k.len → lookup a ((k, e) ∷ m) ≡ some (k, e)
  lookup_hit a p q = rw (lookup-cons k e m a pos fits) (ground arith)

  lookup_above : (a : ℕ) → k.base + k.len ≤ a → lookup a ((k, e) ∷ m) ≡ lookup a m
  lookup_above a p = rw (lookup-cons k e m a pos fits) (ground arith)

  lookup_found :
      (a : ℕ) (r : BusRange) (d : H)
      → lookup a ((k, e) ∷ m) ≡ some (r, d)
      → ((k ≡ r) × (e ≡ d) × (k.base ≤ a) × (a < k.base + k.len))
        ⊎ ((k.base + k.len ≤ a) × (lookup a m ≡ some (r, d)))
  lookup_found a r d h = go (rw (lookup-cons k e m a pos fits) at h)
    where
      go :
          (if within k a then some (k, e) else if ltb a k.base then none else lookup a m)
            ≡ some (r, d)
          → ((k ≡ r) × (e ≡ d) × (k.base ≤ a) × (a < k.base + k.len))
            ⊎ ((k.base + k.len ≤ a) × (lookup a m ≡ some (r, d)))
      go g = ground arith

-- What a lookup that finds `r` and `d` says of the map.
pub record Found {H : Type 0} (lo addr : ℕ) (m : List (BusRange × H)) (r : BusRange) (d : H)
    : Type 0 where
  pub above : lo ≤ r.base
  pub from_base : r.base ≤ addr
  pub to_end : addr < r.base + r.len
  pub in_space : r.base + r.len < 2 ^ 64
  pub whole : (a : ℕ) → r.base ≤ a → a < r.base + r.len → lookup a m ≡ some (r, d)

-- An address that finds a range lies in it, the range ends inside the address space, and every
-- address of the range finds the same device.
pub lookup-Found :
    {H : Type 0} (lo addr : ℕ) (m : List (BusRange × H)) (r : BusRange) (d : H)
    → IsLaid lo m
    → lookup addr m ≡ some (r, d)
    → Found lo addr m r d
lookup-Found lo addr [] r d l h = absurd (unfold lookup get_key_value in cc)
lookup-Found lo addr ((k, e) ∷ m) r d l h = elim (lookup_found k e m l.1 l.2 addr r d h) [
  | inl (same, dev, p, q) ↦
      rw (← same, ← dev)
        (record {
          above = l.0;
          from_base = p;
          to_end = q;
          in_space = l.2;
          whole = lookup_hit k e m l.1 l.2;
        })
  | inr (p, later) ↦
      let f : Found (k.base + k.len) addr m r d =
        lookup-Found (k.base + k.len) addr m r d l.3 later in
      record {
        above = omega (arith, l.0, f.above);
        from_base = f.from_base;
        to_end = f.to_end;
        in_space = f.in_space;
        whole = λ a u v. lookup_above k e m l.1 l.2 a (omega (arith, f.above)) ∙ f.whole a u v;
      }
]

-- The whole access `[addr, addr + len)` falls on one device.
abbrev pub Serves : {H : Type 0} → List (BusRange × H) → ℕ → ℕ → BusRange → H → Type 0
Serves m addr len r d = (i : ℕ) → i < len → lookup (addr + i) m ≡ some (r, d)

contains_range_iff :
    (r : BusRange) (addr len : ℕ)
    → r.base + r.len < 2 ^ 64
    → (contains_range r addr len ≡ true) ↔ ((r.base ≤ addr) × (addr + len ≤ r.base + r.len))
unfolding contains_range
contains_range_iff r addr len fits = (λ h. (ground arith, ground arith), λ h. ground arith)

module _ {H S : Type 0} (device : BusDevice H S) (m : List (BusRange × H)) (laid : IsLaid 0 m) where
  -- An access that one device serves entirely goes to that device, at the offset from its base.
  pub access_claimed :
      (addr : ℕ) (bytes : List ℕ) (s : S) (r : BusRange) (d : H)
      → 0 < length bytes
      → Serves m addr (length bytes) r d
      → (read device m addr bytes s ≡ (
        true,
        (device.read d (addr - r.base) bytes s).0,
        (device.read d (addr - r.base) bytes s).1,
      ))
        × (write device m addr bytes s ≡ (true, device.write d (addr - r.base) bytes s))
  unfolding read write
  access_claimed addr [] s r d pos serves = absurd (omega arith)
  access_claimed addr (b ∷ rest) s r d pos serves =
      let add_zero : addr + 0 ≡ addr = omega arith in
      let found : lookup addr m ≡ some (r, d) = rw add_zero at (serves 0 (omega arith)) in
      let first : Found 0 addr m r d = lookup-Found 0 addr m r d laid found in
      let last : Found 0 (addr + length rest) m r d =
        lookup-Found 0 (addr + length rest) m r d laid (serves (length rest) (omega arith)) in
      let inside : contains_range r addr (suc (length rest)) ≡ true =
        (contains_range_iff r addr (suc (length rest)) first.in_space).1
          (first.from_base, omega (arith, last.to_end)) in
      (rw (read, found, inside), rw (write, found, inside))

  -- An access that no single device serves entirely is not claimed: a read gives `0xff` in every
  -- byte, and no device state changes.
  pub access_unclaimed :
      (addr : ℕ) (bytes : List ℕ) (s : S)
      → 0 < length bytes
      → ((r : BusRange) (d : H) → ¬ Serves m addr (length bytes) r d)
      → (read device m addr bytes s ≡ (false, replicate (length bytes) 0xff, s))
        × (write device m addr bytes s ≡ (false, s))
  unfolding read write
  access_unclaimed addr [] s pos none_serves = absurd (omega arith)
  access_unclaimed addr (b ∷ rest) s pos none_serves = elim (Option-cases (lookup addr m)) [
    | inl missing ↦ (rw (read, missing), rw (write, missing))
    | inr ((r, d), found) ↦ elim (Bool-cases (contains_range r addr (suc (length rest)))) [
      | inl inside ↦ absurd (none_serves r d (served r d found inside))
      | inr outside ↦ (rw (read, found, outside), rw (write, found, outside))
    ]
  ]
    where
      served :
          (r : BusRange) (d : H)
          → lookup addr m ≡ some (r, d)
          → contains_range r addr (suc (length rest)) ≡ true
          → Serves m addr (suc (length rest)) r d
      served r d found inside i h =
          let f : Found 0 addr m r d = lookup-Found 0 addr m r d laid found in
          let bounds = (contains_range_iff r addr (suc (length rest)) f.in_space).0 inside in
          f.whole (addr + i) (omega (arith, f.from_base)) (omega (arith, bounds.1))
