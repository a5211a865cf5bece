-- ===== src/Base/Bits.antt =====
-- Bit operations as arithmetic: a mask of low bits, disjoint fields, and the complement of a word.
-- Each comes from one equation for the lowest digit.
use Prim.Native.Nat.{
  ℕ, zero, suc, ◌+◌, ◌-◌, ◌*◌, ◌/◌, ◌%◌, ◌^◌, ◌≤◌, ◌<◌, min, max, bit_and, bit_or, bit_xor, digits,
  differ, bitwise, bit_and-bitwise, bit_or-bitwise, bit_xor-bitwise,
}
use mathlib.Core.Path.{◌≡◌, refl, ap, ◌∙◌}
use native.Mathlib.Nat.{pow-suc, one-le-pow}
use native.Mathlib.Omega.{arith}

module _ (z : ℕ → ℕ) (f : ℕ → ℕ → ℕ) where
  -- The count of rounds does not matter once it covers the first number.
  digits_rounds : (n m a b : ℕ) → a ≤ n → a ≤ m → digits z f n a b ≡ digits z f m a b
  digits_rounds zero zero zero b p q = refl
  digits_rounds zero zero (suc a) b p q = refl
  digits_rounds zero (suc m) zero b p q = refl
  digits_rounds zero (suc m) (suc a) b p q = absurd (omega arith)
  digits_rounds (suc n) zero zero b p q = refl
  digits_rounds (suc n) zero (suc a) b p q = absurd (omega arith)
  digits_rounds (suc n) (suc m) zero b p q = refl
  digits_rounds (suc n) (suc m) (suc a) b p q =
      ap (λ t. t * 2 + f (suc a % 2) (b % 2))
        (digits_rounds n m (suc a / 2) (b / 2) (omega arith) (omega arith))

  bitwise_lowest :
      (a b : ℕ)
      → bitwise z f (suc a) b ≡ bitwise z f (suc a / 2) (b / 2) * 2 + f (suc a % 2) (b % 2)
  bitwise_lowest a b =
      ap (λ t. t * 2 + f (suc a % 2) (b % 2))
        (digits_rounds a (suc a / 2) (suc a / 2) (b / 2) (omega arith) (omega arith))

bit_and_lowest : (a b : ℕ) → bit_and a b ≡ bit_and (a / 2) (b / 2) * 2 + min (a % 2) (b % 2)
bit_and_lowest zero b = omega (arith, bit_and-bitwise 0 b, bit_and-bitwise 0 (b / 2))
bit_and_lowest (suc a) b = omega (
  arith,
  bit_and-bitwise (suc a) b,
  bit_and-bitwise (suc a / 2) (b / 2),
  bitwise_lowest (λ y. 0) min a b,
)

bit_or_lowest : (a b : ℕ) → bit_or a b ≡ bit_or (a / 2) (b / 2) * 2 + max (a % 2) (b % 2)
bit_or_lowest zero b = omega (arith, bit_or-bitwise 0 b, bit_or-bitwise 0 (b / 2))
bit_or_lowest (suc a) b = omega (
  arith,
  bit_or-bitwise (suc a) b,
  bit_or-bitwise (suc a / 2) (b / 2),
  bitwise_lowest (λ y. y) max a b,
)

-- Beyond `k` digits of the mask there is nothing.
bit_and_none : (n a : ℕ) → a ≤ n → bit_and a 0 ≡ 0
bit_and_none n zero h = refl
bit_and_none zero (suc a) h = absurd (omega arith)
bit_and_none (suc n) (suc a) h =
    omega (arith, bit_and_lowest (suc a) 0, bit_and_none n (suc a / 2) (omega arith))

half_mask : (k : ℕ) → (2 ^ suc k - 1) / 2 ≡ 2 ^ k - 1
half_mask k = omega (arith, pow-suc 2 k, one-le-pow k 2)

doubled : (q k : ℕ) → q * 2 ^ suc k ≡ 2 * (q * 2 ^ k)
doubled q k = omega (arith, ap (λ (t : ℕ). q * t) (pow-suc 2 k))

bit_and_below : (k q r : ℕ) → r < 2 ^ k → bit_and (q * 2 ^ k + r) (2 ^ k - 1) ≡ r
bit_and_below zero q r h = omega (arith, bit_and_none (q * 1 + r) (q * 1 + r) (omega arith))
bit_and_below (suc k) q r h = ground (
  arith,
  bit_and_lowest (q * 2 ^ suc k + r) (2 ^ suc k - 1),
  doubled q k,
  pow-suc 2 k,
  one-le-pow k 2,
  bit_and_below k q (r / 2) (omega (arith, pow-suc 2 k)),
)

-- `v & 0x7f` and `v & 1` keep the low bits.
pub bit_and_7f : (v : ℕ) → bit_and v 0x7f ≡ v % 128
bit_and_7f v = ground (arith, bit_and_below 7 (v / 128) (v % 128))

pub bit_and_one : (v : ℕ) → bit_and v 1 ≡ v % 2
bit_and_one v = ground (arith, bit_and_below 1 (v / 2) (v % 2))

bit_or_none : (n a : ℕ) → a ≤ n → bit_or a 0 ≡ a
bit_or_none n zero h = refl
bit_or_none zero (suc a) h = absurd (omega arith)
bit_or_none (suc n) (suc a) h =
    omega (arith, bit_or_lowest (suc a) 0, bit_or_none n (suc a / 2) (omega arith))

bit_or_zero_left : (b : ℕ) → bit_or 0 b ≡ b
bit_or_zero_left b = bit_or-bitwise 0 b

-- `r | (q << k)` is a sum where `r` fits `k` bits.
pub bit_or_above : (k q r : ℕ) → r < 2 ^ k → bit_or r (q * 2 ^ k) ≡ r + q * 2 ^ k
bit_or_above zero q r h = ground (arith, bit_or_zero_left (q * 1))
bit_or_above (suc k) q r h = ground (
  arith,
  bit_or_lowest r (q * 2 ^ suc k),
  doubled q k,
  bit_or_above k q (r / 2) (omega (arith, pow-suc 2 k)),
)

-- `v | 0x80` sets a bit that a group of seven bits does not have.
pub bit_or_80 : (v : ℕ) → v < 128 → bit_or v 0x80 ≡ v + 128
bit_or_80 v h = bit_or_above 7 1 v h

differ_zero : (x : ℕ) → differ x 0 ≡ x
differ_zero zero = refl
differ_zero (suc x) = refl

differ_one : (x : ℕ) → x < 2 → differ x 1 ≡ 1 - x
differ_one zero h = refl
differ_one (suc zero) h = refl
differ_one (suc (suc x)) h = absurd (omega arith)

bit_xor_lowest : (a b : ℕ) → bit_xor a b ≡ bit_xor (a / 2) (b / 2) * 2 + differ (a % 2) (b % 2)
bit_xor_lowest zero b = bit_xor-bitwise 0 b ∙ omega (arith, bit_xor-bitwise 0 (b / 2))
bit_xor_lowest (suc a) b = omega (
  arith,
  bit_xor-bitwise (suc a) b,
  bit_xor-bitwise (suc a / 2) (b / 2),
  bitwise_lowest (λ y. y) differ a b,
)

bit_xor_none : (n a : ℕ) → a ≤ n → bit_xor a 0 ≡ a
bit_xor_none n zero h = refl
bit_xor_none zero (suc a) h = absurd (omega arith)
bit_xor_none (suc n) (suc a) h = omega (
  arith,
  bit_xor_lowest (suc a) 0,
  differ_zero (suc a % 2),
  bit_xor_none n (suc a / 2) (omega arith),
)

pub bit_xor_zero : (a : ℕ) → bit_xor a 0 ≡ a
bit_xor_zero a = bit_xor_none a a (omega arith)

-- `v ^ ~0` in `k` bits is the complement.
pub bit_xor_ones : (k v : ℕ) → v < 2 ^ k → bit_xor v (2 ^ k - 1) ≡ 2 ^ k - 1 - v
bit_xor_ones zero v h = omega (arith, bit_xor_zero v)
bit_xor_ones (suc k) v h = ground (
  arith,
  bit_xor_lowest v (2 ^ suc k - 1),
  pow-suc 2 k,
  one-le-pow k 2,
  differ_one (v % 2),
  bit_xor_ones k (v / 2) (omega (arith, pow-suc 2 k)),
)
