-- ===== src/Dst/Arith/Interval.antt =====
-- Decoding one bit: the interval [0, A) is cut into a part for 1 and a part for 0, the code register
-- falls into one of them, and the part is scaled up again.
use sacd_extract.Common.{
  ℕ, ◌+◌, ◌-◌, ◌*◌, ◌/◌, ◌%◌, ◌^◌, ◌≤◌, ◌<◌, ◌≡◌, ap, some, leb, inl, inr, arith, Bool-cases,
  bit_and, bit_or, leb→le, leb→lt, lt→leb, le→leb,
}
use sacd_extract.Common.Bits.{bit_or-zero, bit_or_low, bit_and-one}
use sacd_extract.Dst.Stream.{Memory}
use sacd_extract.Dst.Arith.{
  AcData, half, one, pbits, share, u32, lt_ac_decode_bit_decode, rounds, renormalise,
}
use sacd_extract.Dst.Arith.Code.{Scaled, renormalise_lem}
use native.Mathlib.Nat.{mul-le-mul, pow-le-pow_right}

-- The decoder between two bits.
pub record IsValid (ac : AcData) : Type 0 where
  pub at_least : half ≤ ac.a
  pub less : ac.a < one
  pub inside : ac.c < ac.a

-- A / 256, its last bit taken over from the bit below it.
rounded :
    (a : ℕ)
    → half ≤ a
    → a < one
    → (8 ≤ bit_or (a / 2 ^ pbits) (bit_and (a / 2 ^ (pbits - 1)) 1))
      × (bit_or (a / 2 ^ pbits) (bit_and (a / 2 ^ (pbits - 1)) 1) ≤ 15)
rounded a h k =
    let y = a / 256 in
    let z = a / 128 % 2 in
    let top : z / 2 ≡ 0 = omega arith in
    rw (bit_and-one (a / 128))
      (omega (arith, bit_or_low y z, bit_or-zero (y / 2), ap (λ (i : ℕ). bit_or (y / 2) i) top))

-- Both parts are never empty: the part for 0 has 8 to 1920 of the 2048 or more values.
pub share_bounds :
    (a p : ℕ) → half ≤ a → a < one → 1 ≤ p → p ≤ 128 → (8 ≤ share a p) × (share a p ≤ 1920)
unfolding share
share_bounds a p h k lo hi =
    let (least, most) = rounded a h k in
    let r = bit_or (a / 2 ^ pbits) (bit_and (a / 2 ^ (pbits - 1)) 1) in
    let up : r * p ≤ 15 * 128 = mul-le-mul most hi in
    let down : 8 * 1 ≤ r * p = mul-le-mul least lo in omega arith

module _ (cb : Memory) (fs : ℕ) (bits : (i : ℕ) → cb i < 2) where
  few_rounds : {ac ac' : AcData} (k : ℕ) → Scaled cb fs bits ac k ac' → 8 ≤ ac.a → k ≤ 8
  few_rounds {ac} {ac'} k s h = elim (Bool-cases (leb k 8)) [
    | inl e ↦ leb→le _ _ e
    | inr e ↦
        let scale : 2 ^ 9 ≤ 2 ^ k = pow-le-pow_right {n = 2} (omega arith) (leb→lt _ _ e) in
        let big : 8 * 2 ^ 9 ≤ ac.a * 2 ^ k = mul-le-mul h scale in
        absurd (omega (arith, s.a_scaled, s.less, big))
  ]

  -- A part of the interval, with the code register in it, is scaled up in at most 8 rounds.
  scale_part :
      (ac : AcData)
      → 8 ≤ ac.a
      → ac.a < one
      → ac.c < ac.a
      → (k : ℕ) × (ac' : AcData) × (renormalise rounds cb fs ac ≡ some ac')
        × Scaled cb fs bits ac k ac'
        × (k ≤ 8)
  scale_part ac h less inside =
      let (k, ac', eq, s, le) =
        renormalise_lem cb fs bits rounds ac (omega arith) less inside (omega arith) in
      (k, ac', eq, s, few_rounds k s h)

  module _ (ac : AcData) (p : ℕ) (small : share ac.a p ≤ ac.a) (word : ac.a < one) where
    cut : u32 (ac.a + 2 ^ 32 - share ac.a p) ≡ ac.a - share ac.a p
    cut = omega arith

    decode_one :
        {ac' : AcData}
        → ac.c < ac.a - share ac.a p
        → renormalise rounds cb fs (record ac { a = ac.a - share ac.a p }) ≡ some ac'
        → lt_ac_decode_bit_decode ac p cb fs ≡ some (1, ac')
    unfolding lt_ac_decode_bit_decode
    decode_one below e = rw (cut, lt→leb _ _ below, e, lt_ac_decode_bit_decode)

    decode_zero :
        {ac' : AcData}
        → ac.a - share ac.a p ≤ ac.c
        → renormalise rounds cb fs
            (record ac { c = ac.c - (ac.a - share ac.a p); a = share ac.a p })
          ≡ some ac'
        → lt_ac_decode_bit_decode ac p cb fs ≡ some (0, ac')
    unfolding lt_ac_decode_bit_decode
    decode_zero above e = rw (cut, le→leb _ _ above, e, lt_ac_decode_bit_decode)

  -- In a valid state, with a probability from 1 to 128: the interval [0, A) is cut at
  -- A - share A p. A code below the cut gives a 1 bit and keeps the lower part, another gives a 0
  -- bit and keeps the upper part. The part is scaled up by the least power of two that brings A to
  -- HALF, at most by 2 ^ 8, and as many code bits are taken in, zeros behind the end of the code.
  pub decode_lem :
      (ac : AcData) (p : ℕ)
      → IsValid ac
      → 1 ≤ p
      → p ≤ 128
      → (ac.c < ac.a - share ac.a p
          → (k : ℕ) × (ac' : AcData) × (lt_ac_decode_bit_decode ac p cb fs ≡ some (1, ac'))
            × Scaled cb fs bits (record ac { a = ac.a - share ac.a p }) k ac'
            × (k ≤ 8))
        × (ac.a - share ac.a p ≤ ac.c
            → (k : ℕ) × (ac' : AcData) × (lt_ac_decode_bit_decode ac p cb fs ≡ some (0, ac'))
              × Scaled cb fs bits
                  (record ac { c = ac.c - (ac.a - share ac.a p); a = share ac.a p })
                  k
                  ac'
              × (k ≤ 8))
  decode_lem ac p v lo hi =
      let (least, most) = share_bounds ac.a p v.at_least v.less lo hi in
      (
        (λ below.
            let (k, ac', eq, s, le) =
              scale_part (record ac { a = ac.a - share ac.a p }) (omega arith) (omega arith)
                below in
            (k, ac', decode_one ac p (omega arith) v.less below eq, s, le)),
        (λ above.
            let (k, ac', eq, s, le) =
              scale_part (record ac { c = ac.c - (ac.a - share ac.a p); a = share ac.a p }) least
                (omega arith) (omega arith) in
            (k, ac', decode_zero ac p (omega arith) v.less above eq, s, le)),
      )

  Scaled-IsValid : {ac ac' : AcData} (k : ℕ) → Scaled cb fs bits ac k ac' → IsValid ac'
  Scaled-IsValid k s = record { at_least = s.at_least; less = s.less; inside = s.inside }

  -- From a valid state, with a probability from 1 to 128, decoding ends with a bit and a valid
  -- state, and takes at most 8 code bits.
  pub decode-IsValid :
      (ac : AcData) (p : ℕ)
      → IsValid ac
      → 1 ≤ p
      → p ≤ 128
      → (b : ℕ) × (ac' : AcData) × (lt_ac_decode_bit_decode ac p cb fs ≡ some (b, ac'))
        × (b ≤ 1)
        × IsValid ac'
        × (ac.cbptr ≤ ac'.cbptr)
        × (ac'.cbptr ≤ ac.cbptr + 8)
  decode-IsValid ac p v lo hi = elim (Bool-cases (leb (ac.a - share ac.a p) ac.c)) [
    | inl e ↦
        let (k, ac', eq, s, le) = (decode_lem ac p v lo hi).1 (leb→le _ _ e) in
        (
          0,
          ac',
          eq,
          omega arith,
          Scaled-IsValid k s,
          omega (arith, s.moved),
          omega (arith, s.moved),
        )
    | inr e ↦
        let (k, ac', eq, s, le) = (decode_lem ac p v lo hi).0 (leb→lt _ _ e) in
        (
          1,
          ac',
          eq,
          omega arith,
          Scaled-IsValid k s,
          omega (arith, s.moved),
          omega (arith, s.moved),
        )
  ]
