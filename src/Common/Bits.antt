-- ===== src/Common/Bits.antt =====
-- `|` of disjoint fields and `&` with a mask, as arithmetic.
use Prim.Native.Nat.{digits, bitwise, bit_and-bitwise, bit_or-bitwise}
use Prim.Native.Nat.{
  ℕ, zero, suc, ◌+◌, ◌-◌, ◌*◌, ◌/◌, ◌%◌, ◌^◌, ◌≤◌, ◌<◌, min, max, bit_and, bit_or,
}
use mathlib.Core.Path.{◌≡◌, refl, sym, ap, ◌∙◌}
use native.Mathlib.Omega.{arith}
use native.Mathlib.Nat.{pow-suc, one-le-pow, div-div-eq-div-mul, div-add-mod, mod-lt, mod-eq_of_lt}
use native.Mathlib.Nat.{add-mul-mod_self_right, div-eq_of_eq-mul_left}

-- Fuel that covers the first number does not matter.
module _ (z : ℕ → ℕ) (f : ℕ → ℕ → ℕ) where
  spare_fuel : (n m a b : ℕ) → a ≤ n → a ≤ m → digits z f n a b ≡ digits z f m a b
  spare_fuel zero zero zero b p q = refl
  spare_fuel zero (suc m) zero b p q = refl
  spare_fuel (suc n) zero zero b p q = refl
  spare_fuel (suc n) (suc m) zero b p q = refl
  spare_fuel zero m (suc a) b p q = absurd (omega arith)
  spare_fuel (suc n) zero (suc a) b p q = absurd (omega arith)
  spare_fuel (suc n) (suc m) (suc a) b p q =
      omega (arith, spare_fuel n m (suc a / 2) (b / 2) (omega arith) (omega arith))

  lowest_digit :
      (a b : ℕ)
      → bitwise z f (suc a) b ≡ 2 * bitwise z f (suc a / 2) (b / 2) + f (suc a % 2) (b % 2)
  lowest_digit a b =
      omega (arith, spare_fuel a (suc a / 2) (suc a / 2) (b / 2) (omega arith) (omega arith))

-- The lowest binary digit of `a | b` and of `a & b`, and the others.
pub bit_or_low : (a b : ℕ) → bit_or a b ≡ 2 * bit_or (a / 2) (b / 2) + max (a % 2) (b % 2)
bit_or_low zero b = omega (arith, bit_or-bitwise 0 b, bit_or-bitwise 0 (b / 2))
bit_or_low (suc a) b = omega (
  arith,
  bit_or-bitwise (suc a) b,
  bit_or-bitwise (suc a / 2) (b / 2),
  lowest_digit (λ y. y) max a b,
)

pub bit_and_low : (a b : ℕ) → bit_and a b ≡ 2 * bit_and (a / 2) (b / 2) + min (a % 2) (b % 2)
bit_and_low zero b = omega (arith, bit_and-bitwise 0 b, bit_and-bitwise 0 (b / 2))
bit_and_low (suc a) b = omega (
  arith,
  bit_and-bitwise (suc a) b,
  bit_and-bitwise (suc a / 2) (b / 2),
  lowest_digit (λ y. 0) min a b,
)

-- Numbers below a power of two are halved step by step.
bit_or-zero_below : (n a : ℕ) → a ≤ n → bit_or a 0 ≡ a
bit_or-zero_below n zero h = refl
bit_or-zero_below zero (suc a) h = absurd (omega arith)
bit_or-zero_below (suc n) (suc a) h =
    omega (arith, bit_or_low (suc a) 0, bit_or-zero_below n (suc a / 2) (omega arith))

pub bit_or-zero : (a : ℕ) → bit_or a 0 ≡ a
bit_or-zero a = bit_or-zero_below a a (omega arith)

bit_and-zero_below : (n a : ℕ) → a ≤ n → bit_and a 0 ≡ 0
bit_and-zero_below n zero h = refl
bit_and-zero_below zero (suc a) h = absurd (omega arith)
bit_and-zero_below (suc n) (suc a) h =
    omega (arith, bit_and_low (suc a) 0, bit_and-zero_below n (suc a / 2) (omega arith))

pub bit_and-zero : (a : ℕ) → bit_and a 0 ≡ 0
bit_and-zero a = bit_and-zero_below a a (omega arith)

pub bit_and-one : (a : ℕ) → bit_and a 1 ≡ a % 2
bit_and-one a = omega (arith, bit_and_low a 1, bit_and-zero (a / 2))

double_scaled : (q k : ℕ) → q * 2 ^ suc k ≡ 2 * (q * 2 ^ k)
double_scaled q k = omega (arith, ap (λ (t : ℕ). q * t) (pow-suc 2 k))

-- A value that fits into the `k` low bits, which are 0 in the other one, is added by `|`.
pub bit_or-add : (k q r : ℕ) → r < 2 ^ k → bit_or (q * 2 ^ k) r ≡ q * 2 ^ k + r
bit_or-add zero q r h = ground (arith, bit_or-zero q)
bit_or-add (suc k) q r h = ground (
  arith,
  double_scaled q k,
  pow-suc 2 k,
  bit_or_low (q * 2 ^ suc k) r,
  bit_or-add k q (r / 2) (omega (arith, pow-suc 2 k)),
)

-- The low `k + 1` bits are twice the low `k` bits of the half, and the lowest bit.
pub mod-two-pow_suc : (a k : ℕ) → a % 2 ^ suc k ≡ 2 * (a / 2 % 2 ^ k) + a % 2
mod-two-pow_suc a k = ground (
  arith,
  pow-suc 2 k,
  one-le-pow k 2,
  mod-lt (a / 2) {m = 2 ^ k} (one-le-pow k 2 (omega arith)),
  ap (λ (t : ℕ). t % 2 ^ suc k) regrouped,
  add-mul-mod_self_right (2 * (a / 2 % 2 ^ k) + a % 2) (a / 2 / 2 ^ k) (2 ^ suc k),
  mod-eq_of_lt {n = 2 * (a / 2 % 2 ^ k) + a % 2} {m = 2 ^ suc k} low,
)
  where
    low : 2 * (a / 2 % 2 ^ k) + a % 2 < 2 ^ suc k
    low = omega (arith, pow-suc 2 k, mod-lt (a / 2) {m = 2 ^ k} (one-le-pow k 2 (omega arith)))

    regrouped : a ≡ 2 * (a / 2 % 2 ^ k) + a % 2 + a / 2 / 2 ^ k * 2 ^ suc k
    regrouped = omega (arith, div-add-mod (a / 2) (2 ^ k), double_scaled (a / 2 / 2 ^ k) k)

pub div-two-pow_suc : (a k : ℕ) → a / 2 ^ suc k ≡ a / 2 / 2 ^ k
div-two-pow_suc a k =
    ap (λ (t : ℕ). a / t) (omega (arith, pow-suc 2 k)) ∙ sym (div-div-eq-div-mul a 2 (2 ^ k))

-- A mask of `k` low ones is the remainder by `2 ^ k`.
pub bit_and-mask : (k a : ℕ) → bit_and a (2 ^ k - 1) ≡ a % 2 ^ k
bit_and-mask zero a = ground (arith, bit_and-zero a)
bit_and-mask (suc k) a = ground (
  arith,
  bit_and_low a (2 ^ suc k - 1),
  pow-suc 2 k,
  one-le-pow k 2,
  bit_and-mask k (a / 2),
  mod-two-pow_suc a k,
)

-- A mask that is shifted left selects from the number shifted right.
pub bit_and-shifted : (s a m : ℕ) → bit_and a (m * 2 ^ s) ≡ bit_and (a / 2 ^ s) m * 2 ^ s
bit_and-shifted zero a m = ground arith
bit_and-shifted (suc s) a m = ground (
  arith,
  bit_and_low a (m * 2 ^ suc s),
  double_scaled m s,
  double_scaled (bit_and (a / 2 / 2 ^ s) m) s,
  div-two-pow_suc a s,
  bit_and-shifted s (a / 2) m,
)

pub two_pow-add : (a b : ℕ) → 2 ^ (a + b) ≡ 2 ^ a * 2 ^ b
two_pow-add a zero = ground arith
two_pow-add a (suc b) =
    let e : a + suc b ≡ suc (a + b) = omega arith in
    rw e (
      omega (
        arith,
        two_pow-add a b,
        pow-suc 2 (a + b),
        pow-suc 2 b,
        ap (λ (t : ℕ). 2 ^ a * t) (pow-suc 2 b),
      ))

-- Shifting a field of `s` zeros right by less than `s` shifts it left by the difference.
pub shift_back : (v r e : ℕ) → v * 2 ^ (r + e) / 2 ^ e ≡ v * 2 ^ r
shift_back v r e =
    div-eq_of_eq-mul_left (one-le-pow e 2 (omega arith))
      (omega (arith, ap (λ (t : ℕ). v * t) (two_pow-add r e)))

-- The low `k` bits of a number are bits of the number.
pub mod_bit : (j k a : ℕ) → j < k → a % 2 ^ k / 2 ^ j % 2 ≡ a / 2 ^ j % 2
mod_bit j zero a h = absurd (omega arith)
mod_bit zero (suc k) a h = ground (arith, mod-two-pow_suc a k)
mod_bit (suc j) (suc k) a h =
    let half : a % 2 ^ suc k / 2 ≡ a / 2 % 2 ^ k = omega (arith, mod-two-pow_suc a k) in
    rw (div-two-pow_suc (a % 2 ^ suc k) j, div-two-pow_suc a j, half)
      (mod_bit j k (a / 2) (omega arith))

pub div-two_pow-add : (w a j : ℕ) → w / 2 ^ a / 2 ^ j ≡ w / 2 ^ (a + j)
div-two_pow-add w a j = rw (two_pow-add a j) (div-div-eq-div-mul w (2 ^ a) (2 ^ j))

pub bit_or_bit : (j a b : ℕ) → bit_or a b / 2 ^ j % 2 ≡ max (a / 2 ^ j % 2) (b / 2 ^ j % 2)
bit_or_bit zero a b = ground (arith, bit_or_low a b)
bit_or_bit (suc j) a b =
    let half : bit_or a b / 2 ≡ bit_or (a / 2) (b / 2) = ground (arith, bit_or_low a b) in
    rw (div-two-pow_suc (bit_or a b) j, div-two-pow_suc a j, div-two-pow_suc b j, half)
      (bit_or_bit j (a / 2) (b / 2))
