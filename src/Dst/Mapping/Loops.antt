-- ===== src/Dst/Mapping/Loops.antt =====
-- ReadTableMappingData, segment by segment and channel by channel.
use sacd_extract.Common.{
  ℕ, zero, suc, ◌+◌, ◌≤◌, ◌<◌, ◌≡◌, ◌⊎◌, inl, inr, sym, ap, ◌∙◌, arith, ◌==◌, ◌&&◌, if◌then◌else◌,
  Bool-cases,
}
use native.Mathlib.Decide.{dec_lt}
use mathlib.Core.Path.{subst}
use sacd_extract.Dst.Stream.{StrData}
use sacd_extract.Dst.Unpack.{ok, give}
use sacd_extract.Dst.Unpack.Steps.{go_on-eq-ok}
use sacd_extract.Dst.Unpack.Reader.{ok-injective, err-ok}
use sacd_extract.Dst.Segments.{Segment, cell}
use sacd_extract.Dst.Mapping.{
  Counted, set_table, read_number, number_loop, channel_numbers, copy_numbers, same_numbers,
}
use sacd_extract.Dst.Mapping.Numbers.{IsNumbered, IsRow, narrow, written, read_number-IsNumbered}

module _ (s : Segment) where
  one_number :
      {P : ℕ → Type 0} (c k : ℕ) (sc : Counted) (sd : StrData) {sc' : Counted} {sd' : StrData}
      → P (cell 0 0)
      → IsNumbered s P sc
      → (if c == 0 && k == 0 then give sc else read_number (cell c k) sc) sd ≡ ok sc' sd'
      → IsNumbered s (λ i. P i ⊎ (i ≡ cell c k)) sc'
  one_number {P = P} c k sc sd first n e = elim (Bool-cases (c == 0 && k == 0)) [
    | inl origin ↦
        let (a, b) = ok-injective (rw origin at e) in
        let at : cell 0 0 ≡ cell c k = ground (arith, origin) in
        rw (← a)
          (narrow sc (λ i q. elim q [ inl p ↦ p | inr here ↦ subst P (at ∙ sym here) first ]) n)
    | inr other ↦ read_number-IsNumbered (cell c k) sc sd n (rw other at e)
  ]

  pub number_loop-IsNumbered :
      (left : ℕ) {P : ℕ → Type 0} (c k : ℕ) (sc : Counted) (sd : StrData) {sc' : Counted}
      {sd' : StrData}
      → P (cell 0 0)
      → IsNumbered s P sc
      → number_loop left c k sc sd ≡ ok sc' sd'
      → IsNumbered s (λ i. P i ⊎ IsRow c k left i) sc'
  unfolding number_loop
  number_loop-IsNumbered zero c k sc sd first n e =
      let (a, b) = ok-injective e in
      rw (← a)
        (narrow sc (λ i q. elim q [ inl p ↦ p | inr (j, at, lo, hi) ↦ absurd (omega arith) ]) n)
  number_loop-IsNumbered (suc left) c k sc sd first n e =
      let (sc1, sd1, e1, e2) = go_on-eq-ok _ _ e in
      let n1 = one_number c k sc sd first n e1 in
      let n2 = number_loop-IsNumbered left c (k + 1) sc1 sd1 (inl first) n1 e2 in
      narrow _
        (λ i q. elim q [
          | inl p ↦ inl (inl p)
          | inr (j, at, lo, hi) ↦ elim (dec_lt k j) [
            | yes later ↦ inr (j, at, omega arith, omega arith)
            | no same ↦ let here : j ≡ k = omega arith in inl (inr (at ∙ ap (cell c) here))
          ]
        ])
        n2

  -- the segments of channels `c` to `c + left - 1`
  abbrev pub IsBlock : ℕ → ℕ → ℕ → Type 0
  IsBlock c left i = (b : ℕ) × (c ≤ b) × (b < c + left) × IsRow b 0 (s.nr_of_segments b) i

  pub channel_numbers-IsNumbered :
      (left : ℕ) {P : ℕ → Type 0} (c : ℕ) (sc : Counted) (sd : StrData) {sc' : Counted}
      {sd' : StrData}
      → P (cell 0 0)
      → IsNumbered s P sc
      → channel_numbers left c sc sd ≡ ok sc' sd'
      → IsNumbered s (λ i. P i ⊎ IsBlock c left i) sc'
  unfolding channel_numbers
  channel_numbers-IsNumbered zero c sc sd first n e =
      let (a, b) = ok-injective e in
      rw (← a)
        (narrow sc (λ i q. elim q [ inl p ↦ p | inr (b, lo, hi, row) ↦ absurd (omega arith) ]) n)
  channel_numbers-IsNumbered (suc left) c sc sd first n e =
      let (sc1, sd1, e1, e2) = go_on-eq-ok _ _ e in
      let n1 = number_loop-IsNumbered (sc.0.nr_of_segments c) c 0 sc sd first n e1 in
      let n2 = channel_numbers-IsNumbered left (c + 1) sc1 sd1 (inl first) n1 e2 in
      narrow _
        (λ i q. elim q [
          | inl p ↦ inl (inl p)
          | inr (b, lo, hi, row) ↦ elim (dec_lt c b) [
            | yes later ↦ inr (b, omega arith, omega arith, row)
            | no same ↦
                let here : b ≡ c = omega arith in
                let (j, at, from, to) = row in
                inl (
                  inr (
                    j,
                    at ∙ ap (λ (x : ℕ). cell x j) here,
                    from,
                    omega (arith, to, n.same c, ap s.nr_of_segments here),
                  ))
          ]
        ])
        n2

  copy_numbers-IsNumbered :
      (left : ℕ) {P : ℕ → Type 0} (k c : ℕ) (seg : Segment) (count : ℕ)
      → ((j : ℕ) → k ≤ j → j < k + left → P (cell 0 j))
      → IsNumbered s P (seg, count)
      → IsNumbered s (λ i. P i ⊎ IsRow c k left i) (copy_numbers left k c seg, count)
  unfolding copy_numbers
  copy_numbers-IsNumbered zero k c seg count from n =
      narrow (seg, count) (λ i q. elim q [ inl p ↦ p | inr (j, at, lo, hi) ↦ absurd (omega arith) ])
        n
  copy_numbers-IsNumbered (suc left) k c seg count from n =
      let v : ℕ = seg.table4segment (cell 0 k) in
      let less : v < count = n.below (cell 0 k) (from k (omega arith) (omega arith)) in
      let n1 = written (seg, count) (cell c k) v count n less (omega arith) in
      let n2 =
        copy_numbers-IsNumbered left (k + 1) c (set_table seg (cell c k) v) count
          (λ j lo hi. inl (from j (omega arith) (omega arith))) n1 in
      narrow _
        (λ i q. elim q [
          | inl p ↦ inl (inl p)
          | inr (j, at, lo, hi) ↦ elim (dec_lt k j) [
            | yes later ↦ inr (j, at, omega arith, omega arith)
            | no same ↦ let here : j ≡ k = omega arith in inl (inr (at ∙ ap (cell c) here))
          ]
        ])
        n2

  pub same_numbers-IsNumbered :
      (left : ℕ) {P : ℕ → Type 0} (c : ℕ) (seg : Segment) (count : ℕ) (sd : StrData)
      {seg' : Segment} {sd' : StrData}
      → ((j : ℕ) → j < s.nr_of_segments 0 → P (cell 0 j))
      → IsNumbered s P (seg, count)
      → same_numbers left c seg sd ≡ ok seg' sd'
      → IsNumbered s (λ i. P i ⊎ IsBlock c left i) (seg', count)
  unfolding same_numbers
  same_numbers-IsNumbered zero c seg count sd first n e =
      let (a, b) = ok-injective e in
      rw (← a) (
        narrow (seg, count)
          (λ i q. elim q [ inl p ↦ p | inr (b, lo, hi, row) ↦ absurd (omega arith) ]) n)
  same_numbers-IsNumbered (suc left) c seg count sd first n e =
      elim (Bool-cases (seg.nr_of_segments c == seg.nr_of_segments 0)) [
        | inr differ ↦ absurd (err-ok (rw differ at e))
        | inl equal ↦
            let n1 =
              copy_numbers-IsNumbered (seg.nr_of_segments 0) 0 c seg count
                (λ j lo hi. first j (omega (arith, hi, n.same 0))) n in
            let n2 =
              same_numbers-IsNumbered left (c + 1) (copy_numbers (seg.nr_of_segments 0) 0 c seg)
                count sd (λ j h. inl (first j h)) n1 (rw equal at e) in
            narrow _
              (λ i q. elim q [
                | inl p ↦ inl (inl p)
                | inr (b, lo, hi, row) ↦ elim (dec_lt c b) [
                  | yes later ↦ inr (b, omega arith, omega arith, row)
                  | no same ↦
                      let here : b ≡ c = omega arith in
                      let (j, at, from, to) = row in
                      let rows : seg.nr_of_segments c ≡ seg.nr_of_segments 0 =
                        ground (arith, equal) in
                      inl (
                        inr (
                          j,
                          at ∙ ap (λ (x : ℕ). cell x j) here,
                          from,
                          omega (arith, to, rows, n.same c, ap s.nr_of_segments here),
                        ))
                ]
              ])
              n2
      ]
