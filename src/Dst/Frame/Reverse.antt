-- ===== src/Dst/Frame/Reverse.antt =====
-- The table of Reverse7LSBs.
use sacd_extract.Common.{
  ℕ, ◌+◌, ◌*◌, ◌/◌, ◌%◌, ◌^◌, ◌≤◌, ◌<◌, ◌≡◌, refl, ap, ◌∙◌, arith, bit_and, get_or, same_below_lem,
}
use sacd_extract.Common.Int.{ℤ, pos, ◌+ℤ◌}
use sacd_extract.Common.Bits.{bit_and-mask}
use sacd_extract.Dst.Filter.{pattern16}
use sacd_extract.Dst.Filter.Patterns.{pattern16-add}
use sacd_extract.Dst.Frame.{reverse, reverse7lsbs}

-- the seven lowest bits of `n`, the lowest first
pub reversed7 : ℕ → ℕ
reversed7 n =
    n % 2 * 64
    + n / 2 % 2 * 32
    + n / 4 % 2 * 16
    + n / 8 % 2 * 8
    + n / 16 % 2 * 4
    + n / 32 % 2 * 2
    + n / 64 % 2

reverse_table : (n : ℕ) → n < 128 → get_or reverse n 0 ≡ 1 + reversed7 n
unfolding reversed7
reverse_table = same_below_lem 128 (λ n. get_or reverse n 0) (λ n. 1 + reversed7 n) refl

-- Reverse7LSBs reverses the seven lowest bits of a coefficient and adds 1, so that the result is a
-- probability from 1 to 128.
pub reverse7lsbs_lem :
    (c : ℤ)
    → (reverse7lsbs c ≡ 1 + reversed7 (pattern16 c)) × (1 ≤ reverse7lsbs c) × (reverse7lsbs c ≤ 128)
unfolding reverse7lsbs
reverse7lsbs_lem c =
    let low : bit_and (pattern16 (c +ℤ pos (2 ^ 9))) 127 ≡ pattern16 c % 128 =
      omega (arith, bit_and-mask 7 (pattern16 (c +ℤ pos (2 ^ 9))), pattern16-add c (pos (2 ^ 9))) in
    let value : get_or reverse (bit_and (pattern16 (c +ℤ pos (2 ^ 9))) 127) 0
        ≡ 1 + reversed7 (pattern16 c) =
      ap (λ (n : ℕ). get_or reverse n 0) low
      ∙ reverse_table (pattern16 c % 128) (omega arith)
      ∙ unfold reversed7 in omega arith in
    let most : reversed7 (pattern16 c) ≤ 127 = unfold reversed7 in omega arith in
    (value, omega (arith, value), omega (arith, value, most))
