-- ===== src/Prelude/Bits.antt =====
-- Shifts, and `|` and `&` on numbers as arithmetic: `|` of disjoint fields is a sum, `&` with a
-- mask of low ones is a remainder. Both hold at every width.
use Prim.Native.Nat.{ℕ, zero, suc, ◌+◌, ◌-◌, ◌*◌, ◌/◌, ◌%◌, ◌^◌, ◌≤◌, ◌<◌, min, max}
use Prim.Native.Nat.{bit_and, bit_or, digits, bit_and-bitwise, bit_or-bitwise}
use mathlib.Core.Path.{◌≡◌, refl, ap}
use native.Mathlib.Nat.{pow-suc, one-le-pow}
use native.Mathlib.Omega.{arith}

-- `x << k` on an unsigned word of `w` bits, and `x >> k`.
abbrev pub shl : ℕ → ℕ → ℕ → ℕ
shl w x k = x * 2 ^ k % 2 ^ w

abbrev pub shr : ℕ → ℕ → ℕ
shr x k = x / 2 ^ k

-- The bitwise operations run on fuel: from enough of it the digits are the same.
same_digits :
    (padding : ℕ → ℕ) (digit : ℕ → ℕ → ℕ) (fuel more x y : ℕ)
    → x ≤ fuel
    → x ≤ more
    → digits padding digit fuel x y ≡ digits padding digit more x y
same_digits _ _ zero zero x y _ _ = refl
same_digits _ _ zero (suc more) zero y _ _ = refl
same_digits _ _ zero (suc more) (suc x) y short _ = absurd (omega arith)
same_digits _ _ (suc fuel) zero zero y _ _ = refl
same_digits _ _ (suc fuel) zero (suc x) y _ short = absurd (omega arith)
same_digits _ _ (suc fuel) (suc more) zero y _ _ = refl
same_digits padding digit (suc fuel) (suc more) (suc x) y fits also =
    rw (same_digits padding digit fuel more (suc x / 2) (y / 2) (omega arith) (omega arith))

-- The lowest digit of `|` and of `&`.
bit_or_step : (x y : ℕ) → max (x % 2) (y % 2) + 2 * bit_or (x / 2) (y / 2) ≡ bit_or x y
bit_or_step zero y = simp bit_or-bitwise (omega arith)
bit_or_step (suc x) y = omega (
  arith,
  same_digits (λ t. t) max x (suc x / 2) (suc x / 2) (y / 2) (omega arith) (omega arith),
  bit_or-bitwise (suc x / 2) (y / 2),
  bit_or-bitwise (suc x) y,
)

bit_and_step : (x y : ℕ) → min (x % 2) (y % 2) + 2 * bit_and (x / 2) (y / 2) ≡ bit_and x y
bit_and_step zero y = simp bit_and-bitwise (omega arith)
bit_and_step (suc x) y = omega (
  arith,
  same_digits (λ t. 0) min x (suc x / 2) (suc x / 2) (y / 2) (omega arith) (omega arith),
  bit_and-bitwise (suc x / 2) (y / 2),
  bit_and-bitwise (suc x) y,
)

bit_or-zero_below : (n a : ℕ) → a ≤ n → bit_or a 0 ≡ a
bit_or-zero_below n zero h = refl
bit_or-zero_below zero (suc a) h = absurd (omega arith)
bit_or-zero_below (suc n) (suc a) h =
    omega (arith, bit_or_step (suc a) 0, bit_or-zero_below n (suc a / 2) (omega arith))

bit_and-zero_below : (n a : ℕ) → a ≤ n → bit_and a 0 ≡ 0
bit_and-zero_below n zero h = refl
bit_and-zero_below zero (suc a) h = absurd (omega arith)
bit_and-zero_below (suc n) (suc a) h =
    omega (arith, bit_and_step (suc a) 0, bit_and-zero_below n (suc a / 2) (omega arith))

double-pow : (q k : ℕ) → q * 2 ^ suc k ≡ 2 * (q * 2 ^ k)
double-pow q k = omega (arith, ap (λ (t : ℕ). q * t) (pow-suc 2 k))

-- `(q << k) | r` is a sum where `r` fits in `k` bits.
pub bit_or-disjoint : (k q r : ℕ) → r < 2 ^ k → bit_or (q * 2 ^ k) r ≡ q * 2 ^ k + r
bit_or-disjoint zero q r fits = ground (arith, bit_or-zero_below q q)
bit_or-disjoint (suc k) q r fits = ground (
  arith,
  bit_or_step (q * 2 ^ suc k) r,
  double-pow q k,
  bit_or-disjoint k q (r / 2) (omega arith),
)

-- The same with the low field on the left.
pub bit_or-disjoint_left : (k q r : ℕ) → r < 2 ^ k → bit_or r (q * 2 ^ k) ≡ q * 2 ^ k + r
bit_or-disjoint_left zero q r fits = ground (arith, zero_or q)
  where
    zero_or : (b : ℕ) → bit_or 0 b ≡ b
    zero_or b = simp bit_or-bitwise (omega arith)
bit_or-disjoint_left (suc k) q r fits = ground (
  arith,
  bit_or_step r (q * 2 ^ suc k),
  double-pow q k,
  bit_or-disjoint_left k q (r / 2) (omega arith),
)

bit_and-fields : (k q r : ℕ) → r < 2 ^ k → bit_and (q * 2 ^ k + r) (2 ^ k - 1) ≡ r
bit_and-fields zero q r fits =
    omega (arith, bit_and-zero_below (q * 1 + r) (q * 1 + r) (omega arith))
bit_and-fields (suc k) q r fits = ground (
  arith,
  bit_and_step (q * 2 ^ suc k + r) (2 ^ suc k - 1),
  double-pow q k,
  pow-suc 2 k,
  bit_and-fields k q (r / 2) (omega arith),
)

-- A mask of the low `k` bits is the remainder by `2 ^ k`.
pub bit_and-mask : (k a : ℕ) → bit_and a (2 ^ k - 1) ≡ a % 2 ^ k
bit_and-mask k a = ground (arith, one-le-pow k 2, bit_and-fields k (a / 2 ^ k) (a % 2 ^ k))
