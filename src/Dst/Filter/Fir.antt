-- ===== src/Dst/Filter/Fir.antt =====
-- The tables give what the filter is: the sum of its coefficients, each with the sign of one of the
-- last bits.
use sacd_extract.Common.{
  ℕ, zero, suc, ◌+◌, ◌-◌, ◌*◌, ◌/◌, ◌%◌, ◌^◌, ◌≤◌, ◌<◌, ◌≡◌, refl, sym, ap, ◌∙◌, arith, ◌==◌,
  if◌then◌else◌, bit_and, lt→ltb, le→ltb,
}
use sacd_extract.Common.Int.{ℤ, pos, sub_ℕ, ◌+ℤ◌, ◌-ℤ◌, ◌*ℤ◌}
use native.Mathlib.Nat.{add-zero}
use native.Mathlib.Decide.{dec_lt}
use sacd_extract.Common.Bits.{bit_and-one}
use sacd_extract.Dst.Header.{FrameHeader}
use sacd_extract.Dst.Filter.{
  pattern16, int16, coef_loop, table_size, lt_init_coef_tables_i, Status, status_byte, filter_loop,
  lt_run_filter_i,
}
use sacd_extract.Dst.Filter.Patterns.{
  pattern16-lt, pattern16-add, pattern16-int16, int16-same, one-times, minus_one-times, sum_from,
  sum_from-add,
}
use sacd_extract.Dst.Filter.History.{status_byte-past, History, IsHistory}

-- a coefficient with the sign of a bit
abbrev pub tap : (ℕ → ℤ) → History → ℕ → ℤ
tap coefs h n = if h n == 1 then coefs n else pos 0 -ℤ coefs n

-- the taps of the next `left` coefficients, from `n` on
pub fir_from : ℕ → ℕ → (ℕ → ℤ) → History → ℤ
fir_from zero n coefs h = pos 0
fir_from (suc left) n coefs h = tap coefs h n +ℤ fir_from left (n + 1) coefs h

abbrev pub fir : ℕ → (ℕ → ℤ) → History → ℤ
fir order = fir_from order 0

tap_value : (b : ℕ) (c : ℤ) → b < 2 → sub_ℕ (b * 2) 1 *ℤ c ≡ (if b == 1 then c else pos 0 -ℤ c)
tap_value zero c h = minus_one-times c
tap_value (suc zero) c h = one-times c
tap_value (suc (suc b)) c h = absurd (omega arith)

module _ (coefs : ℕ → ℤ) (h : History) where
  abbrev taps : ℕ → ℕ
  taps n = pattern16 (tap coefs h n)

  fir_from_pattern :
      (left n : ℕ) → pattern16 (fir_from left n coefs h) ≡ sum_from left n taps % 2 ^ 16
  unfolding fir_from
  fir_from_pattern zero n = refl
  fir_from_pattern (suc left) n = omega (
    arith,
    pattern16-add (tap coefs h n) (fir_from left (n + 1) coefs h),
    fir_from_pattern left (n + 1),
  )

  module _ (base i : ℕ) (bits : (j : ℕ) → j < 8 → bit_and (i / 2 ^ j) 1 ≡ h (base + j)) where
    one_tap :
        (j : ℕ)
        → j < 8
        → sub_ℕ (bit_and (i / 2 ^ j) 1 * 2) 1 *ℤ coefs (base + j) ≡ tap coefs h (base + j)
    one_tap j l =
        let less : h (base + j) < 2 = omega (arith, bits j l, bit_and-one (i / 2 ^ j)) in
        rw (bits j l) (tap_value (h (base + j)) (coefs (base + j)) less)

    coef_loop_pattern :
        (left j : ℕ) (cvalue : ℤ)
        → left + j ≤ 8
        → pattern16 (coef_loop left coefs base i j cvalue)
          ≡ (pattern16 cvalue + sum_from left (base + j) taps) % 2 ^ 16
    unfolding coef_loop
    coef_loop_pattern zero j cvalue l = omega (arith, pattern16-lt cvalue)
    coef_loop_pattern (suc left) j cvalue l =
        let t : ℤ = tap coefs h (base + j) in
        let next : base + (j + 1) ≡ base + j + 1 = omega arith in
        let step : coef_loop (suc left) coefs base i j cvalue
            ≡ coef_loop left coefs base i (j + 1) (cvalue +ℤ t) =
          ap (λ (x : ℤ). coef_loop left coefs base i (j + 1) (cvalue +ℤ x))
            (one_tap j (omega arith)) in
        rw step (
          omega (
            arith,
            coef_loop_pattern left (j + 1) (cvalue +ℤ t) (omega arith),
            pattern16-add cvalue t,
            ap (λ (n : ℕ). sum_from left n taps) next,
          ))

  module _ (table : ℕ → ℕ → ℤ) (st : Status) (order : ℕ)
      (entries : (t : ℕ)
        → t < 16
        → pattern16 (table t (status_byte st t))
          ≡ sum_from (table_size order t) (t * 8) taps % 2 ^ 16) where
    table_split :
        (t : ℕ)
        → sum_from (order - t * 8) (t * 8) taps
          ≡ sum_from (table_size order t) (t * 8) taps
            + sum_from (order - (t + 1) * 8) ((t + 1) * 8) taps
    unfolding table_size
    table_split t = elim (dec_lt 8 (order - t * 8)) [
      | yes more ↦
          let a : order - t * 8 ≡ 8 + (order - (t + 1) * 8) = omega arith in
          let b : t * 8 + 8 ≡ (t + 1) * 8 = omega arith in
          rw (lt→ltb _ _ more) (
            ap (λ (x : ℕ). sum_from x (t * 8) taps) a
            ∙ sum_from-add 8 (order - (t + 1) * 8) (t * 8) taps
            ∙ ap (λ (x : ℕ). sum_from 8 (t * 8) taps + sum_from (order - (t + 1) * 8) x taps) b)
      | no last ↦
          let z : order - (t + 1) * 8 ≡ 0 = omega arith in
          rw (le→ltb 8 (order - t * 8) (omega arith), z) (omega arith)
    ]

    filter_loop_pattern :
        (left t : ℕ) (predict : ℤ)
        → t + left ≡ 16
        → order ≤ 128
        → pattern16 (filter_loop left table st t predict)
          ≡ (pattern16 predict + sum_from (order - t * 8) (t * 8) taps) % 2 ^ 16
    unfolding filter_loop
    filter_loop_pattern zero t predict e l =
        let z : order - t * 8 ≡ 0 = omega arith in rw z (omega (arith, pattern16-lt predict))
    filter_loop_pattern (suc left) t predict e l =
        let entry : ℤ = table t (status_byte st t) in
        omega (
          arith,
          filter_loop_pattern left (t + 1) (int16 (predict +ℤ entry)) (omega arith) l,
          pattern16-int16 (predict +ℤ entry),
          pattern16-add predict entry,
          entries t (omega arith),
          table_split t,
        )

filter_loop_fixed :
    (left : ℕ) (table : ℕ → ℕ → ℤ) (st : Status) (t : ℕ) (predict : ℤ)
    → int16 predict ≡ predict
    → int16 (filter_loop left table st t predict) ≡ filter_loop left table st t predict
unfolding filter_loop
filter_loop_fixed zero table st t predict e = e
filter_loop_fixed (suc left) table st t predict e =
    let sum : ℤ = predict +ℤ table t (status_byte st t) in
    filter_loop_fixed left table st (t + 1) (int16 sum)
      (int16-same (int16 sum) sum (pattern16-int16 sum))

module _ (fh : FrameHeader) (before : ℕ → ℕ → ℕ → ℤ) (st : Status) (h : History) (filter_nr : ℕ)
    (history : IsHistory st h) (used : filter_nr < fh.nr_of_filters)
    (order : fh.pred_order filter_nr ≤ 128) where
  abbrev coefs : ℕ → ℤ
  coefs = fh.i_coef_a filter_nr

  abbrev tables : ℕ → ℕ → ℤ
  tables = lt_init_coef_tables_i fh before filter_nr

  abbrev entry_sum : ℕ → ℤ
  entry_sum t =
      coef_loop (table_size (fh.pred_order filter_nr) t) coefs (t * 8) (status_byte st t) 0 (pos 0)

  table_entry : (t : ℕ) → t < 16 → tables t (status_byte st t) ≡ int16 (entry_sum t)
  unfolding lt_init_coef_tables_i
  table_entry t l =
      let byte : status_byte st t < 256 = unfold status_byte in omega arith in
      rw (lt→ltb _ _ used, lt→ltb _ _ l, lt→ltb _ _ byte)

  table_pattern :
      (t : ℕ)
      → t < 16
      → pattern16 (tables t (status_byte st t))
        ≡ sum_from (table_size (fh.pred_order filter_nr) t) (t * 8) (taps coefs h) % 2 ^ 16
  table_pattern t l =
      let bits : (j : ℕ) → j < 8 → bit_and (status_byte st t / 2 ^ j) 1 ≡ h (t * 8 + j) =
        λ j k. status_byte-past st t j k ∙ history (t * 8 + j) (omega arith) in
      let small : table_size (fh.pred_order filter_nr) t + 0 ≤ 8 =
        unfold table_size in ground arith in
      ap pattern16 (table_entry t l)
      ∙ pattern16-int16 (entry_sum t)
      ∙ coef_loop_pattern coefs h (t * 8) (status_byte st t) bits
          (table_size (fh.pred_order filter_nr) t) 0 (pos 0) small
      ∙ omega (
        arith,
        ap (λ (n : ℕ). sum_from (table_size (fh.pred_order filter_nr) t) n (taps coefs h))
            (add-zero (t * 8)),
      )

  -- The sixteen tables, looked up at the status of a channel, give the sum of the coefficients of
  -- the filter, each with the sign of the bit that lies as far back, in 16 bits.
  pub lt_run_filter_i_lem :
      lt_run_filter_i tables st ≡ int16 (fir (fh.pred_order filter_nr) coefs h)
  unfolding lt_run_filter_i
  lt_run_filter_i_lem =
      let first : ℤ = tables 0 (status_byte st 0) in
      let whole : fh.pred_order filter_nr - 0 * 8 ≡ fh.pred_order filter_nr = omega arith in
      let fixed : int16 first ≡ first =
        ap int16 (table_entry 0 (omega arith))
        ∙ int16-same (int16 (entry_sum 0)) (entry_sum 0) (pattern16-int16 (entry_sum 0))
        ∙ sym (table_entry 0 (omega arith)) in
      sym (filter_loop_fixed 15 tables st 1 first fixed)
      ∙ int16-same (filter_loop 15 tables st 1 first) (fir (fh.pred_order filter_nr) coefs h) (
          omega (
            arith,
            filter_loop_pattern coefs h tables st (fh.pred_order filter_nr) table_pattern 15 1 first
                (omega arith) order,
            table_pattern 0 (omega arith),
            table_split coefs h tables st (fh.pred_order filter_nr) table_pattern 0,
            fir_from_pattern coefs h (fh.pred_order filter_nr) 0,
            ap (λ (x : ℕ). sum_from x 0 (taps coefs h)) whole,
          ))
