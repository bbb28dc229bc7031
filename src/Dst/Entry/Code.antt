-- ===== src/Dst/Entry/Code.antt =====
-- The arithmetic code of a frame: its bits, one in each byte.
use sacd_extract.Common.{
  ℕ, zero, suc, ◌+◌, ◌-◌, ◌*◌, ◌/◌, ◌%◌, ◌^◌, ◌≤◌, ◌<◌, ◌≡◌, ap, ◌∙◌, arith, if◌then◌else◌, update,
  ◌==◌, Bool-cases, inl, inr, true, false,
}
use native.Mathlib.Nat.{add-zero, add-mul-div_right, div-eq_of_lt, one-le-pow}
use sacd_extract.Dst.Stream.{Memory}
use sacd_extract.Dst.Stream.Cursor.{at, bit_at, word_at, word_at-lt, word_at-add}
use sacd_extract.Dst.Unpack.{ok}
use sacd_extract.Dst.Unpack.Steps.{unchecked_held, read_chr_held}
use sacd_extract.Dst.Entry.{spread_loop, word_loop, rest_loop, read_arithmetic_coded_data}
use sacd_extract.Dst.Entry.Spread.{inside, spread_loop_lem}

last_bit : (m : Memory) (p k : ℕ) → word_at m p (suc k) % 2 ≡ bit_at m (p + k)
unfolding word_at
last_bit m p k = omega arith

high_part : (x r e : ℕ) → r < 2 ^ e → (x * 2 ^ e + r) / 2 ^ e ≡ x
high_part x r e h =
    let power : 0 < 2 ^ e = one-le-pow e 2 (omega arith) in
    ap (λ (n : ℕ). n / 2 ^ e) (omega arith)
    ∙ add-mul-div_right r x power
    ∙ omega (arith, div-eq_of_lt h)

word_bit : (m : Memory) (p k : ℕ) → k < 32 → word_at m p 32 / 2 ^ (31 - k) % 2 ≡ bit_at m (p + k)
word_bit m p k h =
    let e : 32 ≡ suc k + (31 - k) = omega arith in
    ap (λ (n : ℕ). word_at m p n / 2 ^ (31 - k) % 2) e
    ∙ ap (λ (x : ℕ). x / 2 ^ (31 - k) % 2) (word_at-add m p (suc k) (31 - k))
    ∙ ap (λ (x : ℕ). x % 2)
        (high_part (word_at m p (suc k)) (word_at m (p + suc k) (31 - k)) (31 - k)
          (word_at-lt m (p + suc k) (31 - k)))
    ∙ last_bit m p k

module _ (m : Memory) (t : ℕ) where
  -- `n` bytes of `a'` from `j` on are the bits of the frame from `p` on; the rest is as in `a`.
  abbrev pub HasBits : ℕ → ℕ → ℕ → Memory → Memory → Type 0
  HasBits p j n a a' = (i : ℕ) → a' i ≡ (if inside j n i then bit_at m (p + (i - j)) else a i)

  word_loop-HasBits :
      (left p j : ℕ) (a : Memory)
      → p + 32 * left ≤ 8 * t
      → (a' : Memory) × (word_loop left j a (at m t p) ≡ ok a' (at m t (p + 32 * left)))
        × HasBits p j (32 * left) a a'
  unfolding word_loop
  word_loop-HasBits zero p j a h = (a, rw (add-zero p), (λ i. ground arith))
  word_loop-HasBits (suc left) p j a h =
      let val : ℕ = word_at m p 32 in
      let a1 : Memory = spread_loop 8 j val a in
      let (a', e, bits) = word_loop-HasBits left (p + 32) (j + 32) a1 (omega arith) in
      let f : p + 32 + 32 * left ≡ p + 32 * suc left = omega arith in
      (
        a',
        rw (unchecked_held m t p 32 (omega arith) (omega arith))
            (e ∙ ap (λ (q : ℕ). ok a' (at m t q)) f),
        (λ i. bits i ∙ elim (Bool-cases (inside j 32 i)) [
          | inl here ↦
              let out : inside (j + 32) (32 * left) i ≡ false = ground (arith, here) in
              let whole : inside j (32 * suc left) i ≡ true = ground (arith, here) in
              rw (out, whole)
                (spread_loop_lem 8 j val a i
                  ∙ rw here (word_bit m p (i - j) (ground (arith, here))))
          | inr off ↦ elim (Bool-cases (inside (j + 32) (32 * left) i)) [
            | inl later ↦
                let whole : inside j (32 * suc left) i ≡ true = ground (arith, later) in
                let g : p + 32 + (i - (j + 32)) ≡ p + (i - j) = ground (arith, later) in
                rw (later, whole) (ap (bit_at m) g)
            | inr out ↦
                let none_of : inside j (32 * suc left) i ≡ false = ground (arith, off, out) in
                rw (out, none_of) (spread_loop_lem 8 j val a i ∙ rw off)
          ]
        ]),
      )

  rest_loop-HasBits :
      (left p j : ℕ) (a : Memory)
      → p + left ≤ 8 * t
      → (a' : Memory) × (rest_loop left j a (at m t p) ≡ ok a' (at m t (p + left)))
        × HasBits p j left a a'
  unfolding rest_loop
  rest_loop-HasBits zero p j a h = (a, rw (add-zero p), (λ i. ground arith))
  rest_loop-HasBits (suc left) p j a h =
      let v : ℕ = word_at m p 1 in
      let (a', e, bits) = rest_loop-HasBits left (p + 1) (j + 1) (update a j v) (omega arith) in
      let f : p + 1 + left ≡ p + suc left = omega arith in
      let g : p + 0 ≡ p = omega arith in
      let b : v ≡ bit_at m p = unfold word_at in omega (arith, ap (bit_at m) g) in
      (
        a',
        rw (read_chr_held m t p 1 (omega arith) (omega arith))
            (e ∙ ap (λ (q : ℕ). ok a' (at m t q)) f),
        (λ i. bits i ∙ elim (Bool-cases (inside (j + 1) left i)) [
          | inl later ↦
              let whole : inside j (suc left) i ≡ true = ground (arith, later) in
              let k : p + 1 + (i - (j + 1)) ≡ p + (i - j) = ground (arith, later) in
              rw (later, whole) (ap (bit_at m) k)
          | inr out ↦ elim (Bool-cases (j == i)) [
            | inl here ↦
                let whole : inside j (suc left) i ≡ true = ground (arith, here) in
                let k : p ≡ p + (i - j) = ground (arith, here) in
                rw (out, here, whole) (b ∙ ap (bit_at m) k)
            | inr off ↦
                let none_of : inside j (suc left) i ≡ false = ground (arith, off, out) in
                rw (out, off, none_of)
          ]
        ]),
      )

  -- Where the frame holds the code, each of its bits goes into a byte of AData, in order, and the
  -- bytes behind them are left as they were.
  pub read_arithmetic_coded_data-HasBits :
      (p len : ℕ) (a : Memory)
      → p + len ≤ 8 * t
      → (a' : Memory) × (read_arithmetic_coded_data len a (at m t p) ≡ ok a' (at m t (p + len)))
        × HasBits p 0 len a a'
  unfolding read_arithmetic_coded_data
  read_arithmetic_coded_data-HasBits p len a h =
      let words : ℕ = len / 32 in
      let (a1, e1, bits1) = word_loop-HasBits words p 0 a (omega arith) in
      let (a2, e2, bits2) =
        rest_loop-HasBits (len % 32) (p + 32 * words) (words * 32) a1 (omega arith) in
      let f : p + 32 * words + len % 32 ≡ p + len = omega arith in
      (
        a2,
        rw e1 (e2 ∙ ap (λ (q : ℕ). ok a2 (at m t q)) f),
        (λ i. bits2 i ∙ elim (Bool-cases (inside (words * 32) (len % 32) i)) [
          | inl later ↦
              let whole : inside 0 len i ≡ true = ground (arith, later) in
              let g : p + 32 * words + (i - words * 32) ≡ p + (i - 0) = ground (arith, later) in
              rw (later, whole) (ap (bit_at m) g)
          | inr out ↦ rw out (
              bits1 i ∙ elim (Bool-cases (inside 0 (32 * words) i)) [
                | inl here ↦
                    let whole : inside 0 len i ≡ true = ground (arith, here) in rw (here, whole)
                | inr off ↦
                    let none_of : inside 0 len i ≡ false = ground (arith, off, out) in
                    rw (off, none_of)
              ])
        ]),
      )
