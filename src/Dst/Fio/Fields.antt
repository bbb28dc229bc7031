-- ===== src/Dst/Fio/Fields.antt =====
-- What the FIO_BitGet functions read, as bits of the frame.
use sacd_extract.Common.{
  ℕ, zero, suc, ◌+◌, ◌-◌, ◌*◌, ◌%◌, ◌^◌, ◌≤◌, ◌<◌, ◌≡◌, ◌⊎◌, inl, inr, refl, ap, ◌∙◌, arith,
  Bool-cases, ◌==◌, if◌then◌else◌,
}
use sacd_extract.Common.Bits.{two_pow-add}
use sacd_extract.Common.Int.{ℤ, pos, negsuc, ◌+ℤ◌, ◌-ℤ◌, ◌≤ℤ◌, ◌<ℤ◌}
use sacd_extract.Dst.Stream.{Memory, StrData, ret, done, eof, getbits}
use sacd_extract.Dst.Stream.Cursor.{at, word_at, word_at-lt}
use sacd_extract.Dst.Stream.Getbits.{getbits_lem, getbits_short, getbits_past}
use sacd_extract.Dst.Fio.{
  get_field, map_out, signed, sign_extend, fio_bit_get_int_unsigned, fio_bit_get_chr_unsigned,
  fio_bit_get_int_signed, fio_bit_get_short_signed,
}
use native.Mathlib.Nat.{
  add-zero, pow-le-pow_right, mod-eq_of_lt, lt_of_lt_of_le, pow-suc, one-le-pow,
  mul-lt-mul_of_pos_right,
}

get_field_some :
    {A : Type 0} (read : ℕ → ℕ → A) (empty x : A) (sd : StrData) (n : ℕ)
    → 0 < n
    → get_field read empty sd (pos n) x ≡ map_out (read n) (getbits sd 0 n)
unfolding get_field
get_field_some read empty x sd zero h = absurd (omega arith)
get_field_some read empty x sd (suc n) h = refl

module _ (m : Memory) (t : ℕ) where
  get_field_reads :
      {A : Type 0} (read : ℕ → ℕ → A) (empty x : A) (p n : ℕ)
      → p + n ≤ 8 * t
      → 0 < n
      → get_field read empty (at m t p) (pos n) x
        ≡ ret done (read n (word_at m p n)) (at m t (p + n))
  get_field_reads read empty x p n h k =
      get_field_some read empty x (at m t p) n k ∙ ap (map_out (read n)) (getbits_lem m t p n 0 k h)

  word-lt : (p n b : ℕ) → n ≤ b → word_at m p n < 2 ^ b
  word-lt p n b h = lt_of_lt_of_le (word_at-lt m p n) (pow-le-pow_right {n = 2} (omega arith) h)

  pub int_unsigned_reads :
      (p n x : ℕ)
      → p + n ≤ 8 * t
      → n ≤ 32
      → fio_bit_get_int_unsigned (at m t p) (pos n) x ≡ ret done (word_at m p n) (at m t (p + n))
  unfolding fio_bit_get_int_unsigned get_field
  int_unsigned_reads p zero x h k = rw add-zero (unfold word_at in refl)
  int_unsigned_reads p (suc n) x h k =
      get_field_reads (λ len tmp. tmp % 2 ^ 32) 0 x p (suc n) h (omega arith)
      ∙ ap (λ (v : ℕ). ret done v (at m t (p + suc n))) (mod-eq_of_lt (word-lt p (suc n) 32 k))

  pub chr_unsigned_reads :
      (p n x : ℕ)
      → p + n ≤ 8 * t
      → n ≤ 8
      → fio_bit_get_chr_unsigned (at m t p) (pos n) x ≡ ret done (word_at m p n) (at m t (p + n))
  unfolding fio_bit_get_chr_unsigned get_field
  chr_unsigned_reads p zero x h k = rw add-zero (unfold word_at in refl)
  chr_unsigned_reads p (suc n) x h k =
      get_field_reads (λ len tmp. tmp % 2 ^ 8) 0 x p (suc n) h (omega arith)
      ∙ ap (λ (v : ℕ). ret done v (at m t (p + suc n))) (mod-eq_of_lt (word-lt p (suc n) 8 k))

  -- A field that the frame ends before: its first bits, at the top of the variable.
  pub int_unsigned_short :
      (p a e x : ℕ)
      → 0 < e
      → p + a ≡ 8 * t
      → a + e ≤ 32
      → fio_bit_get_int_unsigned (at m t p) (pos (a + e)) x
        ≡ ret eof (word_at m p a * 2 ^ e) (at m t (8 * t + 8))
  unfolding fio_bit_get_int_unsigned get_field
  int_unsigned_short p a e x h k w =
      get_field_some (λ len tmp. tmp % 2 ^ 32) 0 x (at m t p) (a + e) (omega arith)
      ∙ ap (map_out (λ tmp. tmp % 2 ^ 32)) (getbits_short m t p a e 0 h k)
      ∙ ap (λ (v : ℕ). ret eof v (at m t (8 * t + 8))) value
    where
      below : word_at m p a * 2 ^ e < 2 ^ a * 2 ^ e
      below = mul-lt-mul_of_pos_right (word_at-lt m p a) (one-le-pow e 2 (omega arith))

      fits : word_at m p a * 2 ^ e < 2 ^ 32
      fits = lt_of_lt_of_le (rw (two_pow-add a e) below) (pow-le-pow_right {n = 2} (omega arith) w)

      value : (if a + e == 1 then 0 else word_at m p a * 2 ^ e) % 2 ^ 32 ≡ word_at m p a * 2 ^ e
      value = elim (Bool-cases (a + e == 1)) [
        | inl one ↦
            let none_left : a ≡ 0 = ground arith in
            let zero_word : word_at m p 0 ≡ 0 = unfold word_at in refl in
            rw (one, none_left, zero_word) (omega arith)
        | inr more ↦ rw more (mod-eq_of_lt fits)
      ]

  -- Behind the end of the frame every field fails, and is read as 0.
  pub int_unsigned_past :
      (k n x : ℕ)
      → 0 < n
      → fio_bit_get_int_unsigned (at m t (8 * (t + k))) (pos n) x
        ≡ ret eof 0 (at m t (8 * (t + (k + 1))))
  unfolding fio_bit_get_int_unsigned get_field
  int_unsigned_past k zero x h = absurd (omega arith)
  int_unsigned_past k (suc n) x h =
      ap (map_out (λ tmp. tmp % 2 ^ 32)) (getbits_past m t k (suc n) 0 (omega arith))
      ∙ ap (λ (v : ℕ). ret eof v (at m t (8 * (t + (k + 1))))) (ground arith)

-- What `v`, read from the `n` bits of `w`, stands for: the number of `n` bits in two's complement
-- that has the bits of `w`.
pub record IsSigned (n w : ℕ) (v : ℤ) : Type 0 where
  pub above : negsuc (2 ^ (n - 1) - 1) ≤ℤ v
  pub below : v <ℤ pos (2 ^ (n - 1))
  pub bits : (v ≡ pos w) ⊎ (v +ℤ pos (2 ^ n) ≡ pos w)

sign_extend-IsSigned :
    (n h w : ℕ) → 2 ^ n ≡ 2 * h → 2 ^ (n - 1) ≡ h → w < 2 * h → IsSigned n w (sign_extend n (pos w))
unfolding sign_extend ◌-ℤ◌ ◌+ℤ◌
sign_extend-IsSigned n h w full half fits = record {
  above = ground arith;
  below = ground arith;
  bits = ground arith;
}

signed_small : (b w : ℕ) → 0 < b → w < 2 ^ (b - 1) → signed b w ≡ pos w
unfolding signed
signed_small b w h k =
    let wide : w < 2 ^ b =
      lt_of_lt_of_le k (pow-le-pow_right {n = 2} (omega arith) (omega arith)) in
    rw (mod-eq_of_lt wide) (ground arith)

module _ (m : Memory) (t : ℕ) where
  -- Both signed reads, of a field narrower than the type: `b` is its width.
  signed_field :
      (b p n : ℕ) (x : ℤ)
      → 0 < n
      → n < b
      → p + n ≤ 8 * t
      → (v : ℤ) × (get_field
            (λ len tmp. sign_extend len (signed b tmp))
            (pos 0)
            (at m t p)
            (pos n)
            x
          ≡ ret done v (at m t (p + n)))
        × IsSigned n (word_at m p n) v
  signed_field b p n x h k r =
      let count : n ≡ suc (n - 1) = omega arith in
      let double : 2 ^ n ≡ 2 * 2 ^ (n - 1) =
        ap (λ (i : ℕ). 2 ^ i) count ∙ omega (arith, pow-suc 2 (n - 1)) in
      (
        sign_extend n (pos (word_at m p n)),
        get_field_reads m t (λ len tmp. sign_extend len (signed b tmp)) (pos 0) x p n r h
            ∙ ap (λ v. ret done (sign_extend n v) (at m t (p + n)))
                (signed_small b (word_at m p n) (omega arith)
                  (word-lt m t p n (b - 1) (omega arith))),
        sign_extend-IsSigned n (2 ^ (n - 1)) (word_at m p n) double refl
            (omega (arith, double, word_at-lt m p n)),
      )

  -- A signed field that the frame holds, of 1 to 31 bits for an `int` and 1 to 15 for a `short`, is
  -- read as the number that its bits are in two's complement.
  pub get_field-IsSigned :
      (p n : ℕ) (x : ℤ)
      → 0 < n
      → p + n ≤ 8 * t
      → (n ≤ 31
          → (v : ℤ) × (fio_bit_get_int_signed (at m t p) (pos n) x ≡ ret done v (at m t (p + n)))
            × IsSigned n (word_at m p n) v)
        × (n ≤ 15
            → (v : ℤ) × (fio_bit_get_short_signed (at m t p) (pos n) x
                ≡ ret done v (at m t (p + n)))
              × IsSigned n (word_at m p n) v)
  unfolding fio_bit_get_int_signed fio_bit_get_short_signed
  get_field-IsSigned p n x h k = (
    (λ small. signed_field 32 p n x h (omega arith) k),
    (λ small. signed_field 16 p n x h (omega arith) k),
  )

  -- A signed field that the frame ends before.
  pub short_signed_eof :
      (p a e : ℕ) (x : ℤ)
      → 0 < e
      → p + a ≡ 8 * t
      → (v : ℤ) × (sd : StrData) × (fio_bit_get_short_signed (at m t p) (pos (a + e)) x
          ≡ ret eof v sd)
  unfolding fio_bit_get_short_signed
  short_signed_eof p a e x h k = (
    _,
    _,
    get_field_some (λ len tmp. sign_extend len (signed 16 tmp)) (pos 0) x (at m t p) (a + e)
          (omega arith)
        ∙ ap (map_out (λ tmp. sign_extend (a + e) (signed 16 tmp))) (getbits_short m t p a e 0 h k),
  )

  pub short_signed_past :
      (k n : ℕ) (x : ℤ)
      → 0 < n
      → (v : ℤ) × (sd : StrData) × (fio_bit_get_short_signed (at m t (8 * (t + k))) (pos n) x
          ≡ ret eof v sd)
  unfolding fio_bit_get_short_signed
  short_signed_past k n x h = (
    _,
    _,
    get_field_some (λ len tmp. sign_extend len (signed 16 tmp)) (pos 0) x (at m t (8 * (t + k))) n h
        ∙ ap (map_out (λ tmp. sign_extend n (signed 16 tmp))) (getbits_past m t k n 0 h),
  )

-- A field of no bits is 0, wherever the reader stands.
pub int_unsigned_zero :
    (sd : StrData) (x : ℕ) → fio_bit_get_int_unsigned sd (pos 0) x ≡ ret done 0 sd
unfolding fio_bit_get_int_unsigned get_field
int_unsigned_zero sd x = refl
