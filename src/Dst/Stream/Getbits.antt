-- ===== src/Dst/Stream/Getbits.antt =====
-- What `getbits` returns, where the buffer holds the bits asked for and where it ends before them.
use sacd_extract.Common.{
  ℕ, zero, suc, ◌+◌, ◌-◌, ◌*◌, ◌/◌, ◌%◌, ◌^◌, ◌≤◌, ◌<◌, ◌≡◌, refl, ap, ap₂, ◌∙◌, false, ◌==◌,
  if◌then◌else◌, inl, inr, arith, Bool-cases,
}
use sacd_extract.Common.Bits.{bit_and-one}
use sacd_extract.Dst.Stream.{Memory, done, eof, ret, getbits_loop, getbit, getbits}
use sacd_extract.Dst.Stream.Cursor.{at, word_at, word_at_in_byte}
use sacd_extract.Dst.Stream.Reads.{
  joined, refill_ready, refill_eof, after_take, take_byte, loop_step, getbits_loop_reads,
}
use native.Mathlib.Nat.{zero-mul, zero-add}

module _ (m : Memory) (t : ℕ) where
  -- With no bit left in the buffer the loop stops as it comes to the refill.
  loop_at_end :
      (fuel n p o : ℕ)
      → 0 < n
      → p % 8 ≡ 0
      → 8 * t ≤ p
      → getbits_loop (suc fuel) (at m t p) o n ≡ ret eof o (at m t (p + 8))
  unfolding getbits_loop
  loop_at_end fuel n p o h e k =
      let some_left : (n == 0) ≡ false = ground arith in rw (some_left, refill_eof m t p e k)

  -- The loop where the buffer ends first, `a` bits on: `q` stands for the bits read before.
  getbits_loop_short :
      (fuel a e p q : ℕ)
      → a + e ≤ fuel
      → 0 < e
      → p + a ≡ 8 * t
      → getbits_loop fuel (at m t p) (q * 2 ^ (a + e)) (a + e)
        ≡ ret eof ((q * 2 ^ a + word_at m p a) * 2 ^ e) (at m t (8 * t + 8))
  getbits_loop_short zero a e p q h k s = absurd (omega arith)
  getbits_loop_short (suc fuel) zero e p q h k s =
      let here : p ≡ 8 * t = omega arith in
      let none_left : word_at m p 0 ≡ 0 = unfold word_at in refl in
      loop_at_end fuel (0 + e) p (q * 2 ^ (0 + e)) (omega arith) (omega arith) (omega arith)
      ∙ ap₂ (ret eof) (ground (arith, none_left)) (ap (λ (i : ℕ). at m t (i + 8)) here)
  getbits_loop_short (suc fuel) (suc a) e p q h k s =
      let b = 8 - p % 8 in
      let r = suc a - b in
      byte b r refl (omega arith) (
        getbits_loop_short fuel r e (p + b) (q * 2 ^ b + word_at m p b) (omega arith) k
          (omega arith))
    where
      byte :
          (b r : ℕ)
          → b ≡ 8 - p % 8
          → b + r ≡ suc a
          → getbits_loop fuel (at m t (p + b)) ((q * 2 ^ b + word_at m p b) * 2 ^ (r + e)) (r + e)
            ≡ ret eof
                (((q * 2 ^ b + word_at m p b) * 2 ^ r + word_at m (p + b) r) * 2 ^ e)
                (at m t (8 * t + 8))
          → getbits_loop (suc fuel) (at m t p) (q * 2 ^ (suc a + e)) (suc a + e)
            ≡ ret eof ((q * 2 ^ suc a + word_at m p (suc a)) * 2 ^ e) (at m t (8 * t + 8))
      byte b r eb er ih =
          let bits : suc a + e ≡ b + (r + e) = omega arith in
          let left : b + (r + e) - b ≡ r + e = omega arith in
          rw (bits, ← er)
            (rw
              (
                loop_step m t fuel (b + (r + e)) p (q * 2 ^ (b + (r + e))) b (omega arith)
                    (omega arith) (omega arith),
                take_byte m t p q b (r + e) eb,
                left,
              )
              (ih ∙ ap (λ (v : ℕ). ret eof (v * 2 ^ e) (at m t (8 * t + 8))) (joined m t p q b r)))

  getbit_reads :
      (p out : ℕ) → p < 8 * t → getbit (at m t p) out ≡ ret done (word_at m p 1) (at m t (p + 1))
  unfolding getbit
  getbit_reads p out h =
      rw (refill_ready m t p h, getbit)
        (rw (
          after_take m t p 1 (omega arith) (omega arith),
          bit_and-one (m (p / 8) / 2 ^ (8 - p % 8 - 1)),
          word_at_in_byte m p 1 (omega arith),
        ))

  getbit_short :
      (p out : ℕ) → p % 8 ≡ 0 → 8 * t ≤ p → getbit (at m t p) out ≡ ret eof out (at m t (p + 8))
  unfolding getbit
  getbit_short p out e k = rw (refill_eof m t p e k, getbit)

  -- While the buffer holds the bits asked for, `getbits` succeeds with the number that they write in
  -- binary, highest bit first, and the reader moves on by their count.
  pub getbits_lem :
      (p n out : ℕ)
      → 0 < n
      → p + n ≤ 8 * t
      → getbits (at m t p) out n ≡ ret done (word_at m p n) (at m t (p + n))
  unfolding getbits
  getbits_lem p n out h k = elim (Bool-cases (n == 1)) [
    | inl e ↦ let one : n ≡ 1 = ground arith in rw (e, one) (getbit_reads p out (omega arith))
    | inr e ↦ rw e (simp (zero-mul, zero-add) at (getbits_loop_reads m t n n p 0 (omega arith) k))
  ]

  -- Where the buffer ends before the bits asked for, `getbits` returns EOF. The bits that were left
  -- stand at the top of the out word, which a read of a single bit does not touch, and the reader
  -- has run past the buffer's end.
  pub getbits_short :
      (p a e out : ℕ)
      → 0 < e
      → p + a ≡ 8 * t
      → getbits (at m t p) out (a + e)
        ≡ ret eof (if a + e == 1 then out else word_at m p a * 2 ^ e) (at m t (8 * t + 8))
  unfolding getbits
  getbits_short p a e out h k = elim (Bool-cases (a + e == 1)) [
    | inl one ↦
        let here : p ≡ 8 * t = ground arith in
        rw (one, here) (getbit_short (8 * t) out (omega arith) (omega arith))
    | inr more ↦
        rw more
          (simp (zero-mul, zero-add) at (getbits_loop_short (a + e) a e p 0 (omega arith) h k))
  ]

  -- Behind a failed read every read fails, and leaves the reader one byte further on.
  pub getbits_past :
      (k n out : ℕ)
      → 0 < n
      → getbits (at m t (8 * (t + k))) out n
        ≡ ret eof (if n == 1 then out else 0) (at m t (8 * (t + (k + 1))))
  unfolding getbits
  getbits_past k zero out h = absurd (omega arith)
  getbits_past k (suc n) out h =
      let next : 8 * (t + (k + 1)) ≡ 8 * (t + k) + 8 = omega arith in
      rw next (elim (Bool-cases (suc n == 1)) [
        | inl one ↦ rw one (getbit_short (8 * (t + k)) out (omega arith) (omega arith))
        | inr more ↦
            rw more
              (loop_at_end n (suc n) (8 * (t + k)) 0 (omega arith) (omega arith) (omega arith))
      ])
