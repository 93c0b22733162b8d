-- ===== src/Prelude/Bits.antt =====
-- Laws of `&` and `|` at variables: both work digit by digit, so a word splits at any bit.
use Prim.Native.Nat.{ℕ, zero, suc, ◌+◌, ◌-◌, ◌*◌, ◌/◌, ◌%◌, ◌^◌, ◌≤◌, ◌<◌, min, max}
use Prim.Native.Nat.{bit_and, bit_or, digits, bitwise, bit_and-bitwise, bit_or-bitwise}
use mathlib.Core.Path.{◌≡◌, refl, sym, ap, ap₂, ◌∙◌}
use native.Mathlib.Omega.{arith}
use native.Mathlib.Nat.{pow-suc, one-le-pow, div-div-eq-div-mul}

-- The result does not depend on the fuel of `digits`, once that covers the first number.
digits_fuel :
    (z : ℕ → ℕ) (f : ℕ → ℕ → ℕ) (n m a b : ℕ) → a ≤ n → a ≤ m → digits z f n a b ≡ digits z f m a b
digits_fuel z f zero zero a b p q = refl
digits_fuel z f zero (suc m) zero b p q = refl
digits_fuel z f zero (suc m) (suc a) b p q = absurd (omega arith)
digits_fuel z f (suc n) zero zero b p q = refl
digits_fuel z f (suc n) zero (suc a) b p q = absurd (omega arith)
digits_fuel z f (suc n) (suc m) zero b p q = refl
digits_fuel z f (suc n) (suc m) (suc a) b p q =
    omega (arith, digits_fuel z f n m (suc a / 2) (b / 2) (omega arith) (omega arith))

bitwise_step :
    (z : ℕ → ℕ) (f : ℕ → ℕ → ℕ) (a b : ℕ)
    → bitwise z f (suc a) b ≡ bitwise z f (suc a / 2) (b / 2) * 2 + f (suc a % 2) (b % 2)
bitwise_step z f a b =
    omega (arith, digits_fuel z f a (suc a / 2) (suc a / 2) (b / 2) (omega arith) (omega arith))

pub bit_and-digit : (a b : ℕ) → bit_and a b ≡ bit_and (a / 2) (b / 2) * 2 + min (a % 2) (b % 2)
bit_and-digit zero b = simp bit_and-bitwise (omega arith)
bit_and-digit (suc a) b = simp bit_and-bitwise (bitwise_step (λ y. 0) min a b)

pub bit_or-digit : (a b : ℕ) → bit_or a b ≡ bit_or (a / 2) (b / 2) * 2 + max (a % 2) (b % 2)
bit_or-digit zero b = simp bit_or-bitwise (omega arith)
bit_or-digit (suc a) b = simp bit_or-bitwise (bitwise_step (λ y. y) max a b)

pub zero-bit_and : (b : ℕ) → bit_and 0 b ≡ 0
zero-bit_and b = bit_and-bitwise 0 b

pub zero-bit_or : (b : ℕ) → bit_or 0 b ≡ b
zero-bit_or b = bit_or-bitwise 0 b

-- With 0 the digits of the other number are lost, or kept.
bit_and-zero_fuel : (n a : ℕ) → a ≤ n → bit_and a 0 ≡ 0
bit_and-zero_fuel zero a h = rw (zero_of h)
  where
    zero_of : a ≤ 0 → a ≡ 0
    zero_of p = omega arith
bit_and-zero_fuel (suc n) zero h = refl
bit_and-zero_fuel (suc n) (suc a) h =
    omega (arith, bit_and-digit (suc a) 0, bit_and-zero_fuel n (suc a / 2) (omega arith))

pub bit_and-zero : (a : ℕ) → bit_and a 0 ≡ 0
bit_and-zero a = bit_and-zero_fuel a a (omega arith)

bit_or-zero_fuel : (n a : ℕ) → a ≤ n → bit_or a 0 ≡ a
bit_or-zero_fuel zero a h = rw (zero_of h)
  where
    zero_of : a ≤ 0 → a ≡ 0
    zero_of p = omega arith
bit_or-zero_fuel (suc n) zero h = refl
bit_or-zero_fuel (suc n) (suc a) h =
    omega (arith, bit_or-digit (suc a) 0, bit_or-zero_fuel n (suc a / 2) (omega arith))

pub bit_or-zero : (a : ℕ) → bit_or a 0 ≡ a
bit_or-zero a = bit_or-zero_fuel a a (omega arith)

double_power : (q k : ℕ) → q * 2 ^ suc k ≡ 2 * (q * 2 ^ k)
double_power q k = omega (arith, ap (λ (t : ℕ). q * t) (pow-suc 2 k))

halve : (k q r : ℕ) → (q * 2 ^ suc k + r) / 2 ≡ q * 2 ^ k + r / 2
halve k q r = omega (arith, double_power q k)

low_digit : (k q r : ℕ) → (q * 2 ^ suc k + r) % 2 ≡ r % 2
low_digit k q r = omega (arith, double_power q k)

-- Both operations on words cut at bit `k`.
pub bit_and_split :
    (k q r p s : ℕ)
    → r < 2 ^ k
    → s < 2 ^ k
    → bit_and (q * 2 ^ k + r) (p * 2 ^ k + s) ≡ bit_and q p * 2 ^ k + bit_and r s
bit_and_split zero q r p s hr hs =
    let r_zero : r ≡ 0 = omega arith in
    let s_zero : s ≡ 0 = omega arith in
    let q_one : q * 2 ^ 0 + 0 ≡ q = omega arith in
    let p_one : p * 2 ^ 0 + 0 ≡ p = omega arith in rw (r_zero, s_zero, q_one, p_one) (omega arith)
bit_and_split (suc k) q r p s hr hs = ground (
  arith,
  bit_and-digit (q * 2 ^ suc k + r) (p * 2 ^ suc k + s),
  bit_and-digit r s,
  halve k q r,
  halve k p s,
  low_digit k q r,
  low_digit k p s,
  double_power (bit_and q p) k,
  pow-suc 2 k,
  bit_and_split k q (r / 2) p (s / 2),
)

pub bit_or_split :
    (k q r p s : ℕ)
    → r < 2 ^ k
    → s < 2 ^ k
    → bit_or (q * 2 ^ k + r) (p * 2 ^ k + s) ≡ bit_or q p * 2 ^ k + bit_or r s
bit_or_split zero q r p s hr hs =
    let r_zero : r ≡ 0 = omega arith in
    let s_zero : s ≡ 0 = omega arith in
    let q_one : q * 2 ^ 0 + 0 ≡ q = omega arith in
    let p_one : p * 2 ^ 0 + 0 ≡ p = omega arith in rw (r_zero, s_zero, q_one, p_one) (omega arith)
bit_or_split (suc k) q r p s hr hs = ground (
  arith,
  bit_or-digit (q * 2 ^ suc k + r) (p * 2 ^ suc k + s),
  bit_or-digit r s,
  halve k q r,
  halve k p s,
  low_digit k q r,
  low_digit k p s,
  double_power (bit_or q p) k,
  pow-suc 2 k,
  bit_or_split k q (r / 2) p (s / 2),
)

-- A number below `2 ^ k` keeps all its digits under `k` ones.
bit_and_ones_small : (k r : ℕ) → r < 2 ^ k → bit_and r (2 ^ k - 1) ≡ r
bit_and_ones_small zero r h = rw (bit_and-zero r) (omega arith)
bit_and_ones_small (suc k) r h = ground (
  arith,
  bit_and-digit r (2 ^ suc k - 1),
  pow-suc 2 k,
  one-le-pow k 2,
  bit_and_ones_small k (r / 2),
)

bit_and_ones_fields : (k q r : ℕ) → r < 2 ^ k → bit_and (q * 2 ^ k + r) (2 ^ k - 1) ≡ r
bit_and_ones_fields k q r h = ground (
  arith,
  bit_and_split k q r 0 (2 ^ k - 1),
  bit_and-zero q,
  bit_and_ones_small k r,
  one-le-pow k 2,
)

-- `a & (2 ^ k - 1)` is the remainder.
pub bit_and_ones : (k a : ℕ) → bit_and a (2 ^ k - 1) ≡ a % 2 ^ k
bit_and_ones k a = ground (arith, one-le-pow k 2, bit_and_ones_fields k (a / 2 ^ k) (a % 2 ^ k))

-- `(q << k) | r` is the sum when `r` fits `k` bits.
pub bit_or_fields : (k q r : ℕ) → r < 2 ^ k → bit_or (q * 2 ^ k) r ≡ q * 2 ^ k + r
bit_or_fields k q r h =
    ground (arith, bit_or_split k q 0 0 r, bit_or-zero q, zero-bit_or r, one-le-pow k 2)

-- A mask of `j` ones above `k` zeros clears the low `k` bits of a number of `j + k` bits.
pub bit_and_high :
    (k j a : ℕ) → a / 2 ^ k < 2 ^ j → bit_and a ((2 ^ j - 1) * 2 ^ k) ≡ a / 2 ^ k * 2 ^ k
bit_and_high k j a h = ground (
  arith,
  bit_and_split k (a / 2 ^ k) (a % 2 ^ k) (2 ^ j - 1) 0,
  bit_and-zero (a % 2 ^ k),
  bit_and_ones_small j (a / 2 ^ k),
  one-le-pow k 2,
)

-- A field of `j` bits above bit `k`, in a number of any size.
pub bit_and_field : (k j a : ℕ) → bit_and a ((2 ^ j - 1) * 2 ^ k) ≡ a / 2 ^ k % 2 ^ j * 2 ^ k
bit_and_field k j a = ground (
  arith,
  bit_and_split k (a / 2 ^ k) (a % 2 ^ k) (2 ^ j - 1) 0,
  bit_and-zero (a % 2 ^ k),
  bit_and_ones j (a / 2 ^ k),
  one-le-pow k 2,
)

-- A field of `j` bits put where a number has zeros.
pub bit_or_gap :
    (k j a m : ℕ) → a / 2 ^ k % 2 ^ j ≡ 0 → m < 2 ^ j → bit_or a (m * 2 ^ k) ≡ a + m * 2 ^ k
bit_or_gap k j a m gap fits =
    let q = a / 2 ^ k / 2 ^ j in
    let high : a / 2 ^ k ≡ q * 2 ^ j = ground (arith, one-le-pow j 2) in
    let whole : a ≡ q * 2 ^ j * 2 ^ k + a % 2 ^ k = ground (arith, one-le-pow k 2, high) in
    let low : a % 2 ^ k < 2 ^ k = ground (arith, one-le-pow k 2) in
    let zero_low : m * 2 ^ k ≡ m * 2 ^ k + 0 = omega arith in
    let positive : 0 < 2 ^ k = ground (arith, one-le-pow k 2) in
    let sum : (q * 2 ^ j + m) * 2 ^ k + a % 2 ^ k ≡ a + m * 2 ^ k = ground (arith, whole) in
    ap₂ bit_or whole zero_low
    ∙ bit_or_split k (q * 2 ^ j) (a % 2 ^ k) m 0 low positive
    ∙ rw (bit_or_fields j q m fits, bit_or-zero (a % 2 ^ k)) sum

-- A field put below a number with zeros there.
pub bit_or_low : (k a r : ℕ) → a % 2 ^ k ≡ 0 → r < 2 ^ k → bit_or a r ≡ a + r
bit_or_low k a r zeros fits =
    let whole : a ≡ a / 2 ^ k * 2 ^ k = ground (arith, one-le-pow k 2) in
    ap (λ x. bit_or x r) whole ∙ bit_or_fields k (a / 2 ^ k) r fits ∙ ap (λ x. x + r) (sym whole)

halve_power : (a k : ℕ) → a / 2 ^ suc k ≡ a / 2 / 2 ^ k
halve_power a k =
    let twice : 2 ^ suc k ≡ 2 * 2 ^ k = omega (arith, pow-suc 2 k) in
    rw twice (sym (div-div-eq-div-mul a 2 (2 ^ k)))

-- Bit `k` of a disjunction and of a conjunction.
pub bit_or_bit : (k a b : ℕ) → bit_or a b / 2 ^ k % 2 ≡ max (a / 2 ^ k % 2) (b / 2 ^ k % 2)
bit_or_bit zero a b = omega (arith, bit_or-digit a b)
bit_or_bit (suc k) a b =
    let half : bit_or a b / 2 ≡ bit_or (a / 2) (b / 2) = omega (arith, bit_or-digit a b) in
    rw (halve_power (bit_or a b) k, halve_power a k, halve_power b k, half)
      (bit_or_bit k (a / 2) (b / 2))

pub bit_and_bit : (k a b : ℕ) → bit_and a b / 2 ^ k % 2 ≡ min (a / 2 ^ k % 2) (b / 2 ^ k % 2)
bit_and_bit zero a b = omega (arith, bit_and-digit a b)
bit_and_bit (suc k) a b =
    let half : bit_and a b / 2 ≡ bit_and (a / 2) (b / 2) = omega (arith, bit_and-digit a b) in
    rw (halve_power (bit_and a b) k, halve_power a k, halve_power b k, half)
      (bit_and_bit k (a / 2) (b / 2))

-- A disjunction needs no more bits than its parts, and a conjunction is at most its mask.
pub bit_or-lt : (k a b : ℕ) → a < 2 ^ k → b < 2 ^ k → bit_or a b < 2 ^ k
bit_or-lt zero a b h g =
    let none_left : a ≡ 0 = omega arith in
    let none_right : b ≡ 0 = omega arith in rw (none_left, none_right) (omega arith)
bit_or-lt (suc k) a b h g = omega (
  arith,
  pow-suc 2 k,
  bit_or-digit a b,
  bit_or-lt k (a / 2) (b / 2) (omega (arith, pow-suc 2 k)) (omega (arith, pow-suc 2 k)),
)

pub bit_and-le : (k a b : ℕ) → b < 2 ^ k → bit_and a b ≤ b
bit_and-le zero a b h =
    let nothing : b ≡ 0 = omega arith in rw (nothing, bit_and-zero a) (omega arith)
bit_and-le (suc k) a b h =
    omega (arith, bit_and-digit a b, bit_and-le k (a / 2) (b / 2) (omega (arith, pow-suc 2 k)))
