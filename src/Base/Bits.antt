-- ===== src/Base/Bits.antt =====
-- The bit operations on fields that share no bit, as sums and remainders.
use Prim.Native.Nat.{
  ℕ, zero, suc, ◌+◌, ◌-◌, ◌*◌, ◌/◌, ◌%◌, ◌^◌, ◌≤◌, ◌<◌, min, max, digits, bit_and, bit_or,
  bit_and-bitwise, bit_or-bitwise,
}
use mathlib.Core.Path.{◌≡◌, refl, ap, ◌∙◌, sym}
use native.Mathlib.Nat.{pow-suc, one-le-pow}
use native.Mathlib.Omega.{arith}

at_zero : (z : ℕ → ℕ) (f : ℕ → ℕ → ℕ) (n b : ℕ) → digits z f n 0 b ≡ digits z f 0 0 b
at_zero z f zero b = refl
at_zero z f (suc n) b = refl

-- Enough fuel is as good as more.
enough :
    (z : ℕ → ℕ) (f : ℕ → ℕ → ℕ) (n m a b : ℕ) → a ≤ n → a ≤ m → digits z f n a b ≡ digits z f m a b
enough z f n m zero b h k = at_zero z f n b ∙ sym (at_zero z f m b)
enough z f zero m (suc a) b h k = absurd (omega arith)
enough z f (suc n) zero (suc a) b h k = absurd (omega arith)
enough z f (suc n) (suc m) (suc a) b h k =
    ap (λ (t : ℕ). t * 2 + f (suc a % 2) (b % 2))
      (enough z f n m (suc a / 2) (b / 2) (omega arith) (omega arith))

zero-bit_or : (b : ℕ) → bit_or 0 b ≡ b
zero-bit_or b = bit_or-bitwise 0 b

or_low_digit : (a b : ℕ) → bit_or a b ≡ bit_or (a / 2) (b / 2) * 2 + max (a % 2) (b % 2)
or_low_digit zero b = omega (arith, zero-bit_or b, zero-bit_or (b / 2))
or_low_digit (suc a) b = omega (
  arith,
  bit_or-bitwise (suc a) b,
  bit_or-bitwise (suc a / 2) (b / 2),
  enough (λ y. y) max a (suc a / 2) (suc a / 2) (b / 2) (omega arith) (omega arith),
)

zero-bit_and : (b : ℕ) → bit_and 0 b ≡ 0
zero-bit_and b = bit_and-bitwise 0 b

and_low_digit : (a b : ℕ) → bit_and a b ≡ bit_and (a / 2) (b / 2) * 2 + min (a % 2) (b % 2)
and_low_digit zero b = omega (arith, zero-bit_and b, zero-bit_and (b / 2))
and_low_digit (suc a) b = omega (
  arith,
  bit_and-bitwise (suc a) b,
  bit_and-bitwise (suc a / 2) (b / 2),
  enough (λ y. 0) min a (suc a / 2) (suc a / 2) (b / 2) (omega arith) (omega arith),
)

or_nothing : (n a : ℕ) → a ≤ n → bit_or a 0 ≡ a
or_nothing n zero h = zero-bit_or 0
or_nothing zero (suc a) h = absurd (omega arith)
or_nothing (suc n) (suc a) h =
    omega (arith, or_low_digit (suc a) 0, or_nothing n (suc a / 2) (omega arith))

double_shift : (q k : ℕ) → q * 2 ^ suc k ≡ 2 * (q * 2 ^ k)
double_shift q k = omega (arith, ap (λ (t : ℕ). q * t) (pow-suc 2 k))

-- A field of `k` bits, joined to one shifted by `k`.
pub or_fields : (k q r : ℕ) → r < 2 ^ k → bit_or (q * 2 ^ k) r ≡ q * 2 ^ k + r
or_fields zero q r h = ground (arith, or_nothing q q (omega arith))
or_fields (suc k) q r h = ground (
  arith,
  double_shift q k,
  pow-suc 2 k,
  or_low_digit (q * 2 ^ suc k) r,
  or_fields k q (r / 2) (omega (arith, pow-suc 2 k)),
)

and_nothing : (n a : ℕ) → a ≤ n → bit_and a 0 ≡ 0
and_nothing n zero h = zero-bit_and 0
and_nothing zero (suc a) h = absurd (omega arith)
and_nothing (suc n) (suc a) h =
    omega (arith, and_low_digit (suc a) 0, and_nothing n (suc a / 2) (omega arith))

-- A mask keeps the low field.
pub and_fields : (k q r : ℕ) → r < 2 ^ k → bit_and (q * 2 ^ k + r) (2 ^ k - 1) ≡ r
and_fields zero q r h = rw (and_nothing (q * 1 + r) (q * 1 + r) (omega arith)) (omega arith)
and_fields (suc k) q r h = ground (
  arith,
  double_shift q k,
  pow-suc 2 k,
  one-le-pow k 2,
  and_low_digit (q * 2 ^ suc k + r) (2 ^ suc k - 1),
  and_fields k q (r / 2) (omega (arith, pow-suc 2 k)),
)
