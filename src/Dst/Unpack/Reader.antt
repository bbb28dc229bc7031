-- ===== src/Dst/Unpack/Reader.antt =====
-- A reader of a frame stays one, whatever is read, and a field that is read fits into its bits.
use sacd_extract.Common.{
  ℕ, zero, suc, ◌+◌, ◌-◌, ◌*◌, ◌^◌, ◌≤◌, ◌<◌, ◌≡◌, ◌≢◌, ◌⊎◌, inl, inr, refl, sym, ap, ◌∙◌, arith,
}
use native.Mathlib.Decide.{dec_le}
use sacd_extract.Dst.Stream.{Memory, StrData}
use sacd_extract.Dst.Stream.Cursor.{at, word_at, word_at-lt}
use sacd_extract.Dst.Fio.Fields.{
  int_unsigned_reads, int_unsigned_short, int_unsigned_past, int_unsigned_zero,
}
use sacd_extract.Dst.Unpack.{
  DstErr, Outcome, ok, err, stuck, read_bits, read_bits_unchecked, negative_bit_allocation,
}
use sacd_extract.Dst.Unpack.Steps.{read_bits_held, read_bits_short}

pub ok-injective :
    {A : Type 0} {a b : A} {sd sd' : StrData} → ok a sd ≡ ok b sd' → (a ≡ b) × (sd ≡ sd')
ok-injective e = (cc, cc)

pub err-ok : {A : Type 0} {x : DstErr} {a : A} {sd : StrData} → err x ≢ ok a sd
err-ok e = cc

pub stuck-ok : {A : Type 0} {a : A} {sd : StrData} → stuck ≢ ok a sd
stuck-ok e = cc

module _ (m : Memory) (t : ℕ) where
  -- A reader inside the frame of `t` bytes of `m`, or at a byte behind its end.
  abbrev pub IsReader : StrData → Type 0
  IsReader sd = (p : ℕ) × (sd ≡ at m t p) × ((p ≤ 8 * t) ⊎ ((k : ℕ) × (p ≡ 8 * (t + k))))

  -- What a read of `n` bits can do.
  abbrev pub Read : ℕ → StrData → Outcome ℕ → Type 0
  Read n sd o =
      (o ≡ err negative_bit_allocation)
      ⊎ ((v : ℕ) × (sd' : StrData) × (o ≡ ok v sd') × (v < 2 ^ n) × IsReader sd')

  at_reader : (p n : ℕ) → n ≤ 32 → (p ≤ 8 * t) → Read n (at m t p) (read_bits n (at m t p))
  at_reader p n w h = elim (dec_le (p + n) (8 * t)) [
    | yes held ↦ inr (
      word_at m p n,
      at m t (p + n),
      read_bits_held m t p n held w,
      word_at-lt m p n,
      (p + n, refl, inl held),
    )
    | no short ↦
        let a : ℕ = 8 * t - p in
        let e : a + (n - a) ≡ n = omega arith in
        inl (
          ap (λ (x : ℕ). read_bits x (at m t p)) (sym e)
          ∙ read_bits_short m t p a (n - a) (omega arith) (omega arith) (omega arith))
  ]

  past_reader : (k n : ℕ) → Read n (at m t (8 * (t + k))) (read_bits n (at m t (8 * (t + k))))
  unfolding read_bits
  past_reader k zero = inr (
    0,
    at m t (8 * (t + k)),
    rw (int_unsigned_zero (at m t (8 * (t + k))) 0, read_bits),
    omega arith,
    (8 * (t + k), refl, inr (k, refl)),
  )
  past_reader k (suc n) = inl (rw (int_unsigned_past m t k (suc n) 0 (omega arith), read_bits))

  pub read_bits-Read : (n : ℕ) (sd : StrData) → n ≤ 32 → IsReader sd → Read n sd (read_bits n sd)
  read_bits-Read n sd w (p, e, inl inside) = rw e (at_reader p n w inside)
  read_bits-Read n sd w (p, e, inr (k, f)) = rw (e, f) (past_reader k n)

  -- A field that is read fits into its bits and leaves a reader.
  pub read_bits-eq-ok :
      (n : ℕ) (sd : StrData) {v : ℕ} {sd' : StrData}
      → n ≤ 32
      → IsReader sd
      → read_bits n sd ≡ ok v sd'
      → (v < 2 ^ n) × IsReader sd'
  read_bits-eq-ok n sd w r e = elim (read_bits-Read n sd w r) [
    | inl short ↦ cc
    | inr (v', sd2, e', less, r') ↦ let (a, b) = ok-injective (sym e ∙ e') in (rw a less, rw b r')
  ]

  at_unchecked :
      (p n : ℕ)
      → n ≤ 32
      → p ≤ 8 * t
      → (v : ℕ) × (sd' : StrData) × (read_bits_unchecked n (at m t p) ≡ ok v sd') × IsReader sd'
  unfolding read_bits_unchecked
  at_unchecked p n w h = elim (dec_le (p + n) (8 * t)) [
    | yes held ↦ (
      word_at m p n,
      at m t (p + n),
      rw (int_unsigned_reads m t p n 0 held w, read_bits_unchecked),
      (p + n, refl, inl held),
    )
    | no short ↦
        let a : ℕ = 8 * t - p in
        let e : a + (n - a) ≡ n = omega arith in
        let f : 8 * t + 8 ≡ 8 * (t + 1) = omega arith in
        (
          word_at m p a * 2 ^ (n - a),
          at m t (8 * t + 8),
          ap (λ (x : ℕ). read_bits_unchecked x (at m t p)) (sym e)
              ∙ rw (
                int_unsigned_short m t p a (n - a) 0 (omega arith) (omega arith) (omega arith),
                read_bits_unchecked,
              ),
          (8 * t + 8, refl, inr (1, f)),
        )
  ]

  past_unchecked :
      (k n : ℕ)
      → (v : ℕ) × (sd' : StrData) × (read_bits_unchecked n (at m t (8 * (t + k))) ≡ ok v sd')
        × IsReader sd'
  unfolding read_bits_unchecked
  past_unchecked k zero = (
    0,
    at m t (8 * (t + k)),
    rw (int_unsigned_zero (at m t (8 * (t + k))) 0, read_bits_unchecked),
    (8 * (t + k), refl, inr (k, refl)),
  )
  past_unchecked k (suc n) = (
    0,
    at m t (8 * (t + (k + 1))),
    rw (int_unsigned_past m t k (suc n) 0 (omega arith), read_bits_unchecked),
    (8 * (t + (k + 1)), refl, inr (k + 1, refl)),
  )

  -- A read that is not checked always gives a number and leaves a reader.
  pub unchecked-IsReader :
      (n : ℕ) (sd : StrData)
      → n ≤ 32
      → IsReader sd
      → (v : ℕ) × (sd' : StrData) × (read_bits_unchecked n sd ≡ ok v sd') × IsReader sd'
  unchecked-IsReader n sd w (p, e, inl inside) = rw e (at_unchecked p n w inside)
  unchecked-IsReader n sd w (p, e, inr (k, f)) = rw (e, f) (past_unchecked k n)
