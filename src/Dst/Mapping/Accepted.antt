-- ===== src/Dst/Mapping/Accepted.antt =====
-- What an accepted ReadTableMappingData leaves in the segment table.
use sacd_extract.Common.{
  ℕ, ◌-◌, ◌≤◌, ◌≡◌, inl, inr, refl, ap, ◌∙◌, arith, ltb, ◌==◌, if◌then◌else◌, Bool-cases,
}
use native.Mathlib.Decide.{dec_lt}
use mathlib.Core.Path.{subst}
use sacd_extract.Dst.Stream.{StrData}
use sacd_extract.Dst.Unpack.{ok, ◌>>=◌, read_bits, give}
use sacd_extract.Dst.Unpack.Steps.{go_on-eq-ok}
use sacd_extract.Dst.Unpack.Reader.{ok-injective, err-ok}
use sacd_extract.Dst.Segments.{Segment, cell}
use sacd_extract.Dst.Mapping.{
  Counted, set_table, number_loop, channel_numbers, same_numbers, read_table_mapping_data,
}
use sacd_extract.Dst.Mapping.Numbers.{IsNumbered, narrow}
use sacd_extract.Dst.Mapping.Loops.{
  IsBlock, number_loop-IsNumbered, channel_numbers-IsNumbered, same_numbers-IsNumbered,
}

module _ (s : Segment) where
  start-IsNumbered : IsNumbered s (λ i. i ≡ cell 0 0) (set_table s (cell 0 0) 0, 1)
  start-IsNumbered = record {
    below = λ i at. elim (Bool-cases (cell 0 0 == i)) [
      | inl here ↦ rw here (omega arith)
      | inr off ↦ absurd (ground (arith, off, at))
    ];
    same = λ c. refl;
    same_len = λ i. refl;
    same_resolution = refl;
    some_table = omega arith;
  }

  shared_numbers-IsNumbered :
      (n : ℕ) (sc : Counted) (sd : StrData) {sc' : Counted} {sd' : StrData}
      → IsNumbered s (λ i. i ≡ cell 0 0) sc
      → (number_loop (sc.0.nr_of_segments 0 - 1) 0 1 sc >>= λ sc1.
            same_numbers (n - 1) 1 sc1.0 >>= λ all. give (all, sc1.1))
          sd
        ≡ ok sc' sd'
      → IsNumbered s (IsBlock s 0 n) sc'
  shared_numbers-IsNumbered n sc sd start e =
      let (sc1, sd1, e1, e2) = go_on-eq-ok _ _ e in
      let (all, sd2, e3, e4) = go_on-eq-ok _ _ e2 in
      let (a, b) = ok-injective e4 in
      let n1 = number_loop-IsNumbered s (sc.0.nr_of_segments 0 - 1) 0 1 sc sd refl start e1 in
      let n2 =
        same_numbers-IsNumbered s (n - 1) 1 sc1.0 sc1.1 sd1
          (λ j h. elim (dec_lt 0 j) [
            | yes later ↦ inr (j, refl, later, omega (arith, h, start.same 0))
            | no origin ↦ let here : j ≡ 0 = omega arith in inl (ap (cell 0) here)
          ])
          n1 e3 in
      rw (← a) (
        narrow _
          (λ i q.
            let (c, lo, hi, row) = q in
            let (j, at, from, to) = row in
            elim (dec_lt 0 c) [
              | yes later ↦ inr (c, later, omega arith, row)
              | no front ↦
                  let first : c ≡ 0 = omega arith in
                  let at0 : i ≡ cell 0 j = at ∙ ap (λ (x : ℕ). cell x j) first in
                  elim (dec_lt 0 j) [
                    | yes after ↦ inl (
                        inr (
                          j,
                          at0,
                          after,
                          omega (arith, to, start.same 0, ap s.nr_of_segments first),
                        ))
                    | no origin ↦
                        let here : j ≡ 0 = omega arith in inl (inl (at0 ∙ ap (cell 0) here))
                  ]
            ])
          n2)

  choice :
      (n same : ℕ) (sd : StrData) {sc : Counted} {sd' : StrData}
      → (if same == 1
            then (number_loop (s.nr_of_segments 0 - 1) 0 1 (set_table s (cell 0 0) 0, 1) >>= λ sc1.
                same_numbers (n - 1) 1 sc1.0 >>= λ all. give (all, sc1.1))
            else channel_numbers n 0 (set_table s (cell 0 0) 0, 1))
          sd
        ≡ ok sc sd'
      → IsNumbered s (IsBlock s 0 n) sc
  choice n same sd {sc} e = elim (Bool-cases (same == 1)) [
    | inl shared ↦
        shared_numbers-IsNumbered n (set_table s (cell 0 0) 0, 1) sd start-IsNumbered
          (rw shared at e)
    | inr apart ↦
        narrow sc (λ i q. inr q)
          (channel_numbers-IsNumbered s n 0 (set_table s (cell 0 0) 0, 1) sd refl start-IsNumbered
            (rw apart at e))
  ]

  -- When ReadTableMappingData accepts the table numbers of a frame, every segment of each of its
  -- channels has a table whose number is below the number of tables, that number of tables is from
  -- 1 to the maximum, and the segments themselves, their lengths and their resolution are as they
  -- were.
  pub read_table_mapping_data-IsNumbered :
      (n most : ℕ) (sd : StrData) {s' : Segment} {tables same : ℕ} {sd' : StrData}
      → read_table_mapping_data n most s sd ≡ ok (s', tables, same) sd'
      → IsNumbered s (IsBlock s 0 n) (s', tables) × (tables ≤ most)
  unfolding read_table_mapping_data
  read_table_mapping_data-IsNumbered n most sd e =
      let (same, sd1, e1, e2) = go_on-eq-ok (read_bits 1 sd) _ e in
      let (sc, sd2, e3, e4) = go_on-eq-ok _ _ e2 in
      let numbers = choice n same sd1 e3 in
      elim (Bool-cases (ltb most sc.1)) [
        | inl out ↦ absurd (err-ok (rw out at e4))
        | inr fits ↦
            let (a, b) = ok-injective (rw fits at e4) in
            let known : sc.1 ≤ most = ground (arith, fits) in
            subst (λ (x : Segment × ℕ × ℕ). IsNumbered s (IsBlock s 0 n) (x.0, x.1) × (x.1 ≤ most))
              a (numbers, known)
      ]
