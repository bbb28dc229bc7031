-- ===== src/Dst/Rice/Log2.antt =====
-- Log2RoundUp counts the binary digits of its argument.
use sacd_extract.Common.{
  ℕ, zero, suc, ◌+◌, ◌^◌, ◌≤◌, ◌<◌, ◌≡◌, arith, Bool-cases, leb, leb→le, leb→lt, inl, inr,
}
use sacd_extract.Dst.Rice.{log2_round_up_loop, log2_round_up}
use native.Mathlib.Nat.{pow-suc, add-zero, zero-add, add_assoc}
use native.Mathlib.Decide.{dec_lt}

suc-le-two_pow : (n : ℕ) → suc n ≤ 2 ^ n
suc-le-two_pow zero = omega arith
suc-le-two_pow (suc n) = omega (arith, suc-le-two_pow n, pow-suc 2 n)

log2_loop_lem :
    (left x y : ℕ)
    → x < 2 ^ (y + left)
    → ((z : ℕ) → z < y → 2 ^ z ≤ x)
    → (x < 2 ^ log2_round_up_loop left x y)
      × ((z : ℕ) → z < log2_round_up_loop left x y → 2 ^ z ≤ x)
unfolding log2_round_up_loop
log2_loop_lem zero x y h below = (rw (← add-zero y) h, below)
log2_loop_lem (suc left) x y h below = elim (Bool-cases (leb (2 ^ y) x)) [
  | inl e ↦ rw e (
      log2_loop_lem left x (y + 1) (rw (add_assoc y 1 left, one_more) h) (λ z hz.
        elim (dec_lt z y) [
          | yes low ↦ below z low
          | no top ↦ let here : z ≡ y = omega arith in rw here (leb→le _ _ e)
        ]))
  | inr e ↦ rw e (leb→lt _ _ e, below)
]
  where
    one_more : 1 + left ≡ suc left
    one_more = omega arith

pub log2_round_up_lem :
    (x : ℕ) → (x < 2 ^ log2_round_up x) × ((z : ℕ) → z < log2_round_up x → 2 ^ z ≤ x)
unfolding log2_round_up
log2_round_up_lem x =
    log2_loop_lem x x 0 (rw zero-add (suc-le-two_pow x)) (λ z h. absurd (omega arith))
