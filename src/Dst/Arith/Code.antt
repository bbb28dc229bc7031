-- ===== src/Dst/Arith/Code.antt =====
-- The arithmetic code as a sequence of bits, with zeros behind its end, and how renormalisation
-- takes bits from it.
use sacd_extract.Common.{
  ℕ, zero, suc, ◌+◌, ◌*◌, ◌^◌, ◌≤◌, ◌<◌, ◌≡◌, refl, ap, ◌∙◌, some, ltb, if◌then◌else◌, inl, inr,
  arith, Bool-cases, bit_or, ltb→lt, ltb→le, lt→ltb, le→ltb,
}
use sacd_extract.Common.Bits.{bit_or-add}
use sacd_extract.Dst.Stream.{Memory}
use sacd_extract.Dst.Arith.{AcData, half, one, u32, shift_in, renormalise}
use native.Mathlib.Nat.{pow-suc, add-zero}

abbrev pub code_bit : Memory → ℕ → ℕ → ℕ
code_bit cb fs i = if ltb i fs then cb i else 0

-- The number that the `n` code bits from `p` on write in binary.
unfoldable pub code_word : Memory → ℕ → ℕ → ℕ → ℕ
code_word cb fs p zero = 0
code_word cb fs p (suc n) = 2 * code_word cb fs p n + code_bit cb fs (p + n)

module _ (cb : Memory) (fs : ℕ) where
  pub code_word_first :
      (p n : ℕ) → code_word cb fs p (suc n) ≡ code_bit cb fs p * 2 ^ n + code_word cb fs (p + 1) n
  unfolding code_word
  code_word_first p zero = ground (arith, ap (λ (k : ℕ). code_bit cb fs k) (add-zero p))
  code_word_first p (suc n) = omega (
    arith,
    code_word_first p n,
    ap (λ (k : ℕ). code_bit cb fs p * k) (pow-suc 2 n),
    ap (λ (k : ℕ). code_bit cb fs k) next,
  )
    where
      next : p + suc n ≡ p + 1 + n
      next = omega arith

module _ (cb : Memory) (fs : ℕ) (bits : (i : ℕ) → cb i < 2) where
  pub shift_in_lem : (p c : ℕ) → c < 2 ^ 31 → shift_in cb fs p c ≡ 2 * c + code_bit cb fs p
  unfolding shift_in
  shift_in_lem p c h =
      let twice : c * 2 ^ 1 ≡ 2 * c = omega arith in
      ground (arith, bits p, bit_or-add 1 c (cb p), ap (λ (k : ℕ). bit_or k (cb p)) twice)

  pub code_word-lt : (p n : ℕ) → code_word cb fs p n < 2 ^ n
  unfolding code_word
  code_word-lt p zero = omega arith
  code_word-lt p (suc n) = ground (arith, code_word-lt p n, pow-suc 2 n, bits (p + n))

  -- What renormalisation leaves: both registers are scaled, and the code register takes in as many
  -- code bits as the scale has digits.
  pub record Scaled (ac : AcData) (k : ℕ) (ac' : AcData) : Type 0 where
    pub a_scaled : ac'.a ≡ ac.a * 2 ^ k
    pub c_scaled : ac'.c ≡ ac.c * 2 ^ k + code_word cb fs ac.cbptr k
    pub moved : ac'.cbptr ≡ ac.cbptr + k
    pub started : ac'.init ≡ ac.init
    pub at_least : half ≤ ac'.a
    pub less : ac'.a < one
    pub inside : ac'.c < ac'.a

  unscaled : (ac : AcData) → half ≤ ac.a → ac.a < one → ac.c < ac.a → Scaled ac 0 ac
  unfolding code_word
  unscaled ac h k l = record {
    a_scaled = omega arith;
    c_scaled = omega arith;
    moved = omega arith;
    started = refl;
    at_least = h;
    less = k;
    inside = l;
  }

  abbrev next : AcData → AcData
  next ac = record ac { a = 2 * ac.a; c = 2 * ac.c + code_bit cb fs ac.cbptr; cbptr = ac.cbptr + 1 }

  rescale : (ac : AcData) (k : ℕ) {ac' : AcData} → Scaled (next ac) k ac' → Scaled ac (suc k) ac'
  rescale ac k {ac'} s = record {
    a_scaled = omega (arith, s.a_scaled, ap (λ (i : ℕ). ac.a * i) (pow-suc 2 k));
    c_scaled = omega (
      arith,
      s.c_scaled,
      code_word_first cb fs ac.cbptr k,
      ap (λ (i : ℕ). ac.c * i) (pow-suc 2 k),
    );
    moved = omega (arith, s.moved);
    started = s.started;
    at_least = s.at_least;
    less = s.less;
    inside = s.inside;
  }

  renormalise_step :
      (fuel : ℕ) (ac : AcData)
      → ac.a < half
      → ac.c < ac.a
      → renormalise (suc fuel) cb fs ac ≡ renormalise fuel cb fs (next ac)
  unfolding renormalise
  renormalise_step fuel ac h k =
      let narrow : u32 (2 * ac.a) ≡ 2 * ac.a = omega arith in
      rw (lt→ltb _ _ h, narrow, shift_in_lem ac.cbptr ac.c (omega arith))

  renormalise_end : (fuel : ℕ) (ac : AcData) → half ≤ ac.a → renormalise fuel cb fs ac ≡ some ac
  unfolding renormalise
  renormalise_end zero ac h = rw (le→ltb _ _ h)
  renormalise_end (suc fuel) ac h = rw (le→ltb _ _ h)

  -- The loop ends, if the fuel would scale A up to HALF.
  pub renormalise_lem :
      (fuel : ℕ) (ac : AcData)
      → 0 < ac.a
      → ac.a < one
      → ac.c < ac.a
      → half ≤ ac.a * 2 ^ fuel
      → (k : ℕ) × (ac' : AcData) × (renormalise fuel cb fs ac ≡ some ac')
        × Scaled ac k ac'
        × (k ≤ fuel)
  renormalise_lem zero ac pos_a small inside reaches =
      let big : half ≤ ac.a = omega arith in
      (0, ac, renormalise_end 0 ac big, unscaled ac big small inside, omega arith)
  renormalise_lem (suc fuel) ac pos_a small inside reaches = elim (Bool-cases (ltb ac.a half)) [
    | inr e ↦
        let big : half ≤ ac.a = ltb→le _ _ e in
        (0, ac, renormalise_end (suc fuel) ac big, unscaled ac big small inside, omega arith)
    | inl e ↦
        let (k, ac', eq, s, le) =
          renormalise_lem fuel (next ac) (omega arith) (omega (arith, ltb→lt _ _ e))
            (ground (arith, bits ac.cbptr))
            (omega (arith, ap (λ (i : ℕ). ac.a * i) (pow-suc 2 fuel))) in
        (
          suc k,
          ac',
          renormalise_step fuel ac (ltb→lt _ _ e) inside ∙ eq,
          rescale ac k s,
          omega arith,
        )
  ]
