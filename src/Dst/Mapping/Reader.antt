-- ===== src/Dst/Mapping/Reader.antt =====
-- src/libdstdec/unpack_dst.c: ReadTableMappingData leaves a reader of the frame, since its numbers
-- are of at most 32 bits.
use sacd_extract.Common.{
  ℕ, zero, suc, ◌+◌, ◌-◌, ◌*◌, ◌^◌, ◌≤◌, ◌<◌, ◌≡◌, refl, sym, ◌∙◌, inl, inr, arith, Bool, true,
  false, ◌&&◌, ltb, ◌==◌, if◌then◌else◌, Bool-cases,
}
use sacd_extract.Dst.Stream.{Memory, StrData}
use sacd_extract.Dst.Unpack.{ok, ◌>>=◌, read_bits, give}
use sacd_extract.Dst.Unpack.Steps.{go_on-eq-ok}
use sacd_extract.Dst.Unpack.Reader.{IsReader, read_bits-eq-ok, ok-injective, err-ok}
use sacd_extract.Dst.Rice.{log2_round_up}
use sacd_extract.Dst.Segments.{Segment, cell}
use sacd_extract.Dst.Segments.Reader.{log2_round_up-le}
use sacd_extract.Dst.Mapping.{
  Counted, set_table, read_number, number_loop, channel_numbers, same_numbers,
  read_table_mapping_data,
}

same_numbers_reads :
    (left ch_nr : ℕ) (s : Segment) (sd : StrData) {s' : Segment} {sd' : StrData}
    → same_numbers left ch_nr s sd ≡ ok s' sd'
    → sd' ≡ sd
unfolding same_numbers
same_numbers_reads zero ch_nr s sd e = let (a, b) = ok-injective e in sym b
same_numbers_reads (suc left) ch_nr s sd e =
    elim (Bool-cases (s.nr_of_segments ch_nr == s.nr_of_segments 0)) [
      | inl equal ↦ same_numbers_reads left (ch_nr + 1) _ sd (rw equal at e)
      | inr out ↦ absurd (err-ok (rw out at e))
    ]

module _ (m : Memory) (t : ℕ) where
  -- After at most `more` new tables the reader is one, and the rows are as they were.
  pub record IsRead (more : ℕ) (sc sc' : Counted) (sd' : StrData) : Type 0 where
    at : IsReader m t sd'
    count : sc'.1 ≤ sc.1 + more
    rows : (c : ℕ) → sc'.0.nr_of_segments c ≡ sc.0.nr_of_segments c

  read_number-IsRead :
      (i : ℕ) (sc : Counted) (sd : StrData) {sc' : Counted} {sd' : StrData}
      → sc.1 < 2 ^ 32
      → IsReader m t sd
      → read_number i sc sd ≡ ok sc' sd'
      → IsRead 1 sc sc' sd'
  unfolding read_number
  read_number-IsRead i (s, count) sd small at e =
      let (v, sd1, e1, e2) = go_on-eq-ok (read_bits (log2_round_up count) sd) _ e in
      let (less, at1) =
        read_bits-eq-ok m t (log2_round_up count) sd (log2_round_up-le count small) at e1 in
      elim (Bool-cases (v == count)) [
        | inl new ↦
            let (a, b) = ok-injective (rw new at e2) in
            rw (← a, ← b) record { at = at1; count = omega arith; rows = λ c. refl }
        | inr old ↦ elim (Bool-cases (ltb count v)) [
          | inl out ↦ absurd (err-ok (rw (old, out) at e2))
          | inr known ↦
              let (a, b) = ok-injective (rw (old, known) at e2) in
              rw (← a, ← b) record { at = at1; count = omega arith; rows = λ c. refl }
        ]
      ]

  maybe_number-IsRead :
      (skip : Bool) (i : ℕ) (sc : Counted) (sd : StrData) {sc' : Counted} {sd' : StrData}
      → sc.1 < 2 ^ 32
      → IsReader m t sd
      → (if skip then give sc else read_number i sc) sd ≡ ok sc' sd'
      → IsRead 1 sc sc' sd'
  maybe_number-IsRead true i sc sd small at e =
      let (a, b) = ok-injective e in
      rw (← a, ← b) record { at = at; count = omega arith; rows = λ c. refl }
  maybe_number-IsRead false i sc sd small at e = read_number-IsRead i sc sd small at e

  number_loop-IsRead :
      (left ch_nr k : ℕ) (sc : Counted) (sd : StrData) {sc' : Counted} {sd' : StrData}
      → sc.1 + left ≤ 2 ^ 32
      → IsReader m t sd
      → number_loop left ch_nr k sc sd ≡ ok sc' sd'
      → IsRead left sc sc' sd'
  unfolding number_loop
  number_loop-IsRead zero ch_nr k sc sd small at e =
      let (a, b) = ok-injective e in
      rw (← a, ← b) record { at = at; count = omega arith; rows = λ c. refl }
  number_loop-IsRead (suc left) ch_nr k sc sd small at e =
      let (sc1, sd1, e1, e2) = go_on-eq-ok _ _ e in
      let h =
        maybe_number-IsRead (ch_nr == 0 && k == 0) (cell ch_nr k) sc sd (omega (arith, small)) at
          e1 in
      let more =
        number_loop-IsRead left ch_nr (k + 1) sc1 sd1 (omega (arith, small, h.count)) h.at e2 in
      record {
        at = more.at;
        count = omega (arith, h.count, more.count);
        rows = λ c. more.rows c ∙ h.rows c;
      }

  channel_numbers-IsReader :
      (left ch_nr : ℕ) (sc : Counted) (sd : StrData) {sc' : Counted} {sd' : StrData}
      → ((c : ℕ) → c < ch_nr + left → sc.0.nr_of_segments c ≤ 9)
      → sc.1 + left * 9 ≤ 2 ^ 32
      → IsReader m t sd
      → channel_numbers left ch_nr sc sd ≡ ok sc' sd'
      → IsReader m t sd'
  unfolding channel_numbers
  channel_numbers-IsReader zero ch_nr sc sd few small at e =
      let (a, b) = ok-injective e in rw (← b) at
  channel_numbers-IsReader (suc left) ch_nr sc sd few small at e =
      let (sc1, sd1, e1, e2) = go_on-eq-ok _ _ e in
      let nine : sc.0.nr_of_segments ch_nr ≤ 9 = few ch_nr (omega arith) in
      let h =
        number_loop-IsRead (sc.0.nr_of_segments ch_nr) ch_nr 0 sc sd (omega (arith, small, nine)) at
          e1 in
      channel_numbers-IsReader left (ch_nr + 1) sc1 sd1
        (λ c lt. omega (arith, h.rows c, few c (omega (arith, lt))))
        (omega (arith, small, nine, h.count)) h.at e2

  choice-IsReader :
      (n same : ℕ) (s : Segment) (sd : StrData) {sc : Counted} {sd' : StrData}
      → 1 ≤ n
      → n ≤ 6
      → ((c : ℕ) → c < n → s.nr_of_segments c ≤ 9)
      → IsReader m t sd
      → (if same == 1
            then (number_loop (s.nr_of_segments 0 - 1) 0 1 (set_table s (cell 0 0) 0, 1) >>= λ sc1.
                same_numbers (n - 1) 1 sc1.0 >>= λ all. give (all, sc1.1))
            else channel_numbers n 0 (set_table s (cell 0 0) 0, 1))
          sd
        ≡ ok sc sd'
      → IsReader m t sd'
  choice-IsReader n same s sd some six few at e =
      let start : Segment = set_table s (cell 0 0) 0 in
      elim (Bool-cases (same == 1)) [
        | inl shared ↦
            let (sc1, sd3, e5, e6) = go_on-eq-ok _ _ (rw shared at e) in
            let (all, sd4, e7, e8) = go_on-eq-ok _ _ e6 in
            let (a, b) = ok-injective e8 in
            let h =
              number_loop-IsRead (s.nr_of_segments 0 - 1) 0 1 (start, 1) sd
                (omega (arith, few 0 (omega (arith, some)))) at e5 in
            let unread : sd4 ≡ sd3 = same_numbers_reads (n - 1) 1 sc1.0 sd3 e7 in
            rw (← b, unread) h.at
        | inr apart ↦
            channel_numbers-IsReader n 0 (start, 1) sd (λ c lt. few c (omega (arith, lt)))
              (omega (arith, six)) at (rw apart at e)
      ]

  -- at most 9 segments a channel, for at most 6 channels
  pub read_table_mapping_data-IsReader :
      (n most : ℕ) (s : Segment) (sd : StrData) {s' : Segment} {tables same : ℕ} {sd' : StrData}
      → 1 ≤ n
      → n ≤ 6
      → ((c : ℕ) → c < n → s.nr_of_segments c ≤ 9)
      → IsReader m t sd
      → read_table_mapping_data n most s sd ≡ ok (s', tables, same) sd'
      → IsReader m t sd'
  unfolding read_table_mapping_data
  read_table_mapping_data-IsReader n most s sd some six few at e =
      let (same, sd1, e1, e2) = go_on-eq-ok (read_bits 1 sd) _ e in
      let (less, at1) = read_bits-eq-ok m t 1 sd (omega arith) at e1 in
      let (sc, sd2, e3, e4) = go_on-eq-ok _ _ e2 in
      let at2 = choice-IsReader n same s sd1 some six few at1 e3 in
      elim (Bool-cases (ltb most sc.1)) [
        | inl out ↦ absurd (err-ok (rw out at e4))
        | inr fits ↦ let (a, b) = ok-injective (rw fits at e4) in rw (← b) at2
      ]
