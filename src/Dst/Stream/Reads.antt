-- ===== src/Dst/Stream/Reads.antt =====
-- The rounds of the loop of `getbits`, while the buffer still holds the bits asked for.
use sacd_extract.Common.{
  ℕ, zero, suc, ◌+◌, ◌-◌, ◌*◌, ◌/◌, ◌%◌, ◌^◌, ◌≤◌, ◌<◌, ◌≡◌, refl, ap, ap₂, ◌∙◌, false, some, ◌==◌,
  leb, inl, inr, arith, min, get_or, bit_and, bit_or, Bool-cases, leb→le, leb→lt,
}
use sacd_extract.Common.Bits.{bit_and-mask, bit_and-shifted, bit_or-add, shift_back, two_pow-add}
use native.Mathlib.Nat.{one-le-pow, mul-lt-mul_of_pos_right, div-one, mul-one, add_assoc, add-zero}
use sacd_extract.Dst.Stream.{
  Memory, StrData, done, ret, ready, at_eof, refill, masks, align, take_bits, getbits_loop,
}
use sacd_extract.Dst.Stream.Cursor.{at, word_at, word_at-add, word_at_in_byte, word_at-lt}

module _ (m : Memory) (t : ℕ) where
  -- the reader at `p` once a byte with unread bits is loaded
  abbrev pub full : ℕ → StrData
  full p = record {
    p_dst_data = some m;
    total_bytes = t;
    byte_counter = p / 8 + 1;
    bit_position = 8 - p % 8;
    data_byte = m (p / 8);
  }

  pub refill_ready : (p : ℕ) → p < 8 * t → refill (at m t p) ≡ ready (full p)
  unfolding refill
  refill_ready p h = elim (Bool-cases (p % 8 == 0)) [
    | inl e ↦
        let same : (p + 7) / 8 ≡ p / 8 = ground arith in ground (arith, ap (λ (i : ℕ). m i) same)
    | inr e ↦
        let next : (p + 7) / 8 ≡ p / 8 + 1 = ground arith in
        let same : (p + 7) / 8 - 1 ≡ p / 8 = omega arith in ground (arith, ap (λ (i : ℕ). m i) same)
  ]

  pub refill_eof : (p : ℕ) → p % 8 ≡ 0 → 8 * t ≤ p → refill (at m t p) ≡ at_eof (at m t (p + 8))
  unfolding refill
  refill_eof p h k =
      let same : (p + 7) / 8 ≡ (p + 8 + 7) / 8 - 1 = omega arith in
      ground (arith, ap (λ (i : ℕ). m i) same)

  masks_lem : (k : ℕ) → k ≤ 8 → get_or masks k 0 ≡ 2 ^ k - 1
  masks_lem zero h = refl
  masks_lem (suc zero) h = refl
  masks_lem (suc (suc zero)) h = refl
  masks_lem (suc (suc (suc zero))) h = refl
  masks_lem (suc (suc (suc (suc zero)))) h = refl
  masks_lem (suc (suc (suc (suc (suc zero))))) h = refl
  masks_lem (suc (suc (suc (suc (suc (suc zero)))))) h = refl
  masks_lem (suc (suc (suc (suc (suc (suc (suc zero))))))) h = refl
  masks_lem (suc (suc (suc (suc (suc (suc (suc (suc zero)))))))) h = refl
  masks_lem (suc (suc (suc (suc (suc (suc (suc (suc (suc k))))))))) h = absurd (omega arith)

  -- The masked bits stand for the read of `k` bits, `s` places up.
  chunk_lem :
      (p k s : ℕ)
      → k + s ≡ 8 - p % 8
      → bit_and (m (p / 8)) (get_or masks k 0 * 2 ^ s) ≡ word_at m p k * 2 ^ s
  chunk_lem p k s e =
      rw
        (
          masks_lem k (omega arith),
          bit_and-shifted s (m (p / 8)) (2 ^ k - 1),
          bit_and-mask k (m (p / 8) / 2 ^ s),
          word_at_in_byte m p k (omega arith),
        )
        (ap (λ (i : ℕ). m (p / 8) / 2 ^ i % 2 ^ k * 2 ^ s) (omega arith))

  pub after_take :
      (p k : ℕ)
      → 0 < k
      → k ≤ 8 - p % 8
      → record (full p) { bit_position = 8 - p % 8 - k } ≡ at m t (p + k)
  after_take p k h e =
      let next : (p + k + 7) / 8 ≡ p / 8 + 1 = omega arith in
      let same : (p + k + 7) / 8 - 1 ≡ p / 8 = omega arith in
      ground (arith, ap (λ (i : ℕ). m i) same)

  join :
      (p q k r : ℕ)
      → bit_or (q * 2 ^ (k + r)) (word_at m p k * 2 ^ r) ≡ (q * 2 ^ k + word_at m p k) * 2 ^ r
  join p q k r =
      let fits : word_at m p k * 2 ^ r < 2 ^ k * 2 ^ r =
        mul-lt-mul_of_pos_right (word_at-lt m p k) (one-le-pow r 2 (omega arith)) in
      bit_or-add (k + r) q (word_at m p k * 2 ^ r) (omega (arith, two_pow-add k r))
      ∙ omega (arith, ap (λ (i : ℕ). q * i) (two_pow-add k r))

  align-zero : (v s : ℕ) → align (v * 2 ^ s) 0 s ≡ v
  unfolding align
  align-zero v s = ground (arith, shift_back v 0 s)

  align-byte : (c r : ℕ) → align c r 0 ≡ c * 2 ^ r
  unfolding align
  align-byte c zero = ground (arith, div-one c)
  align-byte c (suc r) = ground arith

  -- A round of the loop: the bits end in this byte, or the byte ends before them.
  take_last :
      (p q k : ℕ)
      → 0 < k
      → k ≤ 8 - p % 8
      → take_bits (full p) (q * 2 ^ k) k k ≡ (q * 2 ^ k + word_at m p k, at m t (p + k))
  unfolding take_bits
  take_last p q k h e =
      rw (chunk_lem p k (8 - p % 8 - k) (omega arith), after_take p k h e)
        (let none_left : k - k ≡ 0 = omega arith in
          rw (none_left, align-zero) (rw (bit_or-add k q (word_at m p k) (word_at-lt m p k))))

  pub take_byte :
      (p q k r : ℕ)
      → k ≡ 8 - p % 8
      → take_bits (full p) (q * 2 ^ (k + r)) (k + r) k
        ≡ ((q * 2 ^ k + word_at m p k) * 2 ^ r, at m t (p + k))
  unfolding take_bits
  take_byte p q k r e =
      rw (chunk_lem p k (8 - p % 8 - k) (omega arith), after_take p k (omega arith) (omega arith))
        (let byte_done : 8 - p % 8 - k ≡ 0 = omega arith in
          let left : k + r - k ≡ r = omega arith in
          rw (byte_done, left, align-byte) (rw (mul-one, join p q k r)))

  -- The bits of two rounds, behind those of `q`.
  pub joined :
      (p q b r : ℕ)
      → (q * 2 ^ b + word_at m p b) * 2 ^ r + word_at m (p + b) r
        ≡ q * 2 ^ (b + r) + word_at m p (b + r)
  joined p q b r = omega (arith, ap (λ (i : ℕ). q * i) (two_pow-add b r), word_at-add m p b r)

  loop_end : (fuel o : ℕ) (sd : StrData) → getbits_loop fuel sd o 0 ≡ ret done o sd
  unfolding getbits_loop
  loop_end zero o sd = refl
  loop_end (suc fuel) o sd = refl

  pub loop_step :
      (fuel n p o k : ℕ)
      → 0 < n
      → p < 8 * t
      → k ≡ min (8 - p % 8) n
      → getbits_loop (suc fuel) (at m t p) o n
        ≡ getbits_loop fuel (take_bits (full p) o n k).1 (take_bits (full p) o n k).0 (n - k)
  unfolding getbits_loop
  loop_step fuel n p o k h b e =
      let some_left : (n == 0) ≡ false = ground arith in rw (some_left, refill_ready p b, ← e)

  -- The loop with enough bits ahead: `q` stands for the bits read before.
  pub getbits_loop_reads :
      (fuel n p q : ℕ)
      → n ≤ fuel
      → p + n ≤ 8 * t
      → getbits_loop fuel (at m t p) (q * 2 ^ n) n
        ≡ ret done (q * 2 ^ n + word_at m p n) (at m t (p + n))
  getbits_loop_reads fuel zero p q h k =
      rw (loop_end, add-zero, mul-one) (unfold word_at in rw add-zero)
  getbits_loop_reads zero (suc n) p q h k = absurd (omega arith)
  getbits_loop_reads (suc fuel) (suc n) p q h k = elim (Bool-cases (leb (suc n) (8 - p % 8))) [
    | inl e ↦
        let none_left : suc n - suc n ≡ 0 = omega arith in
        rw (
          loop_step fuel (suc n) p (q * 2 ^ suc n) (suc n) (omega arith) (omega arith)
              (omega (arith, leb→le _ _ e)),
          take_last p q (suc n) (omega arith) (leb→le _ _ e),
          none_left,
          loop_end,
        )
    | inr e ↦
        let b = 8 - p % 8 in
        let r = suc n - b in
        byte b r refl (omega (arith, leb→lt _ _ e)) (
          getbits_loop_reads fuel r (p + b) (q * 2 ^ b + word_at m p b) (omega arith)
            (omega (arith, leb→lt _ _ e)))
  ]
    where
      byte :
          (b r : ℕ)
          → b ≡ 8 - p % 8
          → b + r ≡ suc n
          → getbits_loop fuel (at m t (p + b)) ((q * 2 ^ b + word_at m p b) * 2 ^ r) r
            ≡ ret done
                ((q * 2 ^ b + word_at m p b) * 2 ^ r + word_at m (p + b) r)
                (at m t (p + b + r))
          → getbits_loop (suc fuel) (at m t p) (q * 2 ^ suc n) (suc n)
            ≡ ret done (q * 2 ^ suc n + word_at m p (suc n)) (at m t (p + suc n))
      byte b r eb er ih =
          let left : b + r - b ≡ r = omega arith in
          rw (← er) (
            rw
              (
                loop_step fuel (b + r) p (q * 2 ^ (b + r)) b (omega arith) (omega arith)
                    (omega arith),
                take_byte p q b r eb,
                left,
              )
              (ih ∙ ap₂ (ret done) (joined p q b r) (ap (at m t) (add_assoc p b r))))
