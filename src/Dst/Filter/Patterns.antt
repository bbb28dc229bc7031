-- ===== src/Dst/Filter/Patterns.antt =====
-- Sums of 16-bit integers, as sums of their bit patterns.
use sacd_extract.Common.{
  ℕ, zero, suc, ◌+◌, ◌%◌, ◌^◌, ◌<◌, ◌≡◌, ap, arith, if◌then◌else◌, ◌/◌, ltb, Bool-cases, inl, inr,
}
use sacd_extract.Common.Int.{ℤ, pos, negsuc, ◌+ℤ◌, ◌-ℤ◌, ◌*ℤ◌, ltb_ℤ}
use native.Mathlib.Nat.{add-zero, zero-add}
use sacd_extract.Dst.Fio.{signed}
use sacd_extract.Dst.Filter.{pattern16, int16}

pub pattern16-lt : (a : ℤ) → pattern16 a < 2 ^ 16
pattern16-lt (pos m) = omega arith
pattern16-lt (negsuc m) = omega arith

pub pattern16-add : (a b : ℤ) → pattern16 (a +ℤ b) ≡ (pattern16 a + pattern16 b) % 2 ^ 16
unfolding ◌+ℤ◌
pattern16-add (pos m) (pos n) = ground arith
pattern16-add (pos m) (negsuc n) = ground arith
pattern16-add (negsuc m) (pos n) = ground arith
pattern16-add (negsuc m) (negsuc n) = ground arith

pub pattern16-int16 : (a : ℤ) → pattern16 (int16 a) ≡ pattern16 a
unfolding int16 signed
pattern16-int16 (pos n) = ground arith
pattern16-int16 (negsuc n) = ground arith

pub int16-same : (a b : ℤ) → pattern16 a ≡ pattern16 b → int16 a ≡ int16 b
unfolding int16
int16-same a b e = ap (signed 16) e

-- The highest bit is the sign.
pub int16_sign : (z : ℤ) → pattern16 (int16 z) / 2 ^ 15 ≡ (if ltb_ℤ (int16 z) (pos 0) then 1 else 0)
unfolding int16 signed
int16_sign z = elim (Bool-cases (ltb (pattern16 z % 2 ^ 16) (2 ^ 15))) [
  | inl low ↦ rw low (ground (arith, low))
  | inr high ↦ rw high (ground (arith, high))
]

pub one-times : (a : ℤ) → pos 1 *ℤ a ≡ a
unfolding ◌*ℤ◌
one-times (pos n) = ground arith
one-times (negsuc n) = ground arith

pub minus_one-times : (a : ℤ) → negsuc 0 *ℤ a ≡ pos 0 -ℤ a
unfolding ◌*ℤ◌ ◌-ℤ◌
minus_one-times (pos n) = ground arith
minus_one-times (negsuc n) = ground arith

-- f n + f (n + 1) + ... of `left` numbers
abbrev pub sum_from : ℕ → ℕ → (ℕ → ℕ) → ℕ
sum_from zero n f = 0
sum_from (suc left) n f = f n + sum_from left (n + 1) f

pub sum_from-add :
    (a b n : ℕ) (f : ℕ → ℕ) → sum_from (a + b) n f ≡ sum_from a n f + sum_from b (n + a) f
sum_from-add zero b n f = rw (zero-add b, add-zero n, zero-add (sum_from b n f))
sum_from-add (suc a) b n f =
    let e : n + 1 + a ≡ n + suc a = omega arith in
    let step : f n + sum_from (a + b) (n + 1) f
        ≡ f n + sum_from a (n + 1) f + sum_from b (n + suc a) f =
      omega (arith, sum_from-add a b (n + 1) f, ap (λ (i : ℕ). sum_from b i f) e) in
    let s : suc a + b ≡ suc (a + b) = omega arith in rw s step
