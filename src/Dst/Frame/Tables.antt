-- ===== src/Dst/Frame/Tables.antt =====
-- FillTable4Bit gives each bit of a channel the table of the segment that the bit lies in.
use sacd_extract.Common.{
  ℕ, zero, suc, ◌+◌, ◌-◌, ◌≤◌, ◌<◌, ◌≡◌, ◌≢◌, ◌⊎◌, inl, inr, refl, ap, sym, ◌∙◌, arith, ltb,
  if◌then◌else◌, update, some, lt→ltb, le→ltb, Bool-cases,
}
use native.Mathlib.Nat.{zero-add}
use native.Mathlib.Decide.{dec_lt}
use sacd_extract.Dst.Segments.{Segment}
use sacd_extract.Dst.Filter.Patterns.{sum_from}
use sacd_extract.Dst.Frame.{
  bit_cell, fill_bits, segment_bits, table_val, fill_segments, fill_channel, fill_table4bit,
  max_dsdbits_inframe,
}

fill_bits_lem :
    (left first val : ℕ) (table : ℕ → ℕ) (i : ℕ)
    → fill_bits left first val table i
      ≡ (if ltb i first then table i else if ltb i (first + left) then val else table i)
unfolding fill_bits
fill_bits_lem zero first val table i = ground arith
fill_bits_lem (suc left) first val table i =
    ground (arith, fill_bits_lem left (first + 1) val (update table first val) i)

module _ (s : Segment) (ch_nr : ℕ) where
  -- The segment that bit `b` behind the start of segment `seg_nr` lies in, where `left` segments
  -- follow; the last one has all bits that are left.
  pub segment_at : ℕ → ℕ → ℕ → ℕ
  segment_at zero seg_nr b = seg_nr
  segment_at (suc left) seg_nr b =
      let rest = segment_at left (seg_nr + 1) (b - segment_bits s ch_nr seg_nr) in
      if ltb b (segment_bits s ch_nr seg_nr) then seg_nr else rest

  pub segment_at-le : (left seg_nr b : ℕ) → segment_at left seg_nr b ≤ seg_nr + left
  unfolding segment_at
  segment_at-le zero seg_nr b = omega arith
  segment_at-le (suc left) seg_nr b = elim (Bool-cases (ltb b (segment_bits s ch_nr seg_nr))) [
    | inl here ↦ rw here (omega arith)
    | inr later ↦
        rw later (omega (arith, segment_at-le left (seg_nr + 1) (b - segment_bits s ch_nr seg_nr)))
  ]

  -- how many bits all segments but the last one have
  abbrev pub bits_before : ℕ → ℕ → ℕ
  bits_before left seg_nr = sum_from left seg_nr (segment_bits s ch_nr)

  start_lem :
      (left seg_nr start : ℕ) (table : ℕ → ℕ)
      → (fill_segments left s ch_nr seg_nr start table).1 ≡ start + bits_before left seg_nr
  unfolding fill_segments
  start_lem zero seg_nr start table = omega arith
  start_lem (suc left) seg_nr start table = omega (
    arith,
    start_lem left (seg_nr + 1) (start + segment_bits s ch_nr seg_nr) (
        fill_bits (segment_bits s ch_nr seg_nr) (bit_cell ch_nr start) (table_val s ch_nr seg_nr)
          table),
  )

  module _ (bits : ℕ) where
    -- what FillTable4Bit makes of a channel from segment `seg_nr` on
    abbrev filled : ℕ → ℕ → ℕ → (ℕ → ℕ) → ℕ → ℕ
    filled left seg_nr start table =
        let (last, end, table') = fill_segments left s ch_nr seg_nr start table in
        fill_bits (bits - end) (bit_cell ch_nr end) (table_val s ch_nr last) table'

    filled-outside :
        (left seg_nr start : ℕ) (table : ℕ → ℕ) (i : ℕ)
        → start + bits_before left seg_nr ≤ bits
        → (i < bit_cell ch_nr start) ⊎ (bit_cell ch_nr bits ≤ i)
        → filled left seg_nr start table i ≡ table i
    unfolding fill_segments
    filled-outside zero seg_nr start table i h out = ground (
      arith,
      fill_bits_lem (bits - start) (bit_cell ch_nr start) (table_val s ch_nr seg_nr) table i,
    )
    filled-outside (suc left) seg_nr start table i h out =
        let len : ℕ = segment_bits s ch_nr seg_nr in
        let val : ℕ = table_val s ch_nr seg_nr in
        filled-outside left (seg_nr + 1) (start + len)
          (fill_bits len (bit_cell ch_nr start) val table) i (omega arith) (ground arith)
        ∙ ground (arith, fill_bits_lem len (bit_cell ch_nr start) val table i)

    filled-inside :
        (left seg_nr start : ℕ) (table : ℕ → ℕ) (b : ℕ)
        → start + bits_before left seg_nr ≤ bits
        → start + b < bits
        → filled left seg_nr start table (bit_cell ch_nr (start + b))
          ≡ table_val s ch_nr (segment_at left seg_nr b)
    unfolding fill_segments segment_at
    filled-inside zero seg_nr start table b h k = ground (
      arith,
      fill_bits_lem (bits - start) (bit_cell ch_nr start) (table_val s ch_nr seg_nr) table
          (bit_cell ch_nr (start + b)),
    )
    filled-inside (suc left) seg_nr start table b h k =
        let len : ℕ = segment_bits s ch_nr seg_nr in
        let val : ℕ = table_val s ch_nr seg_nr in
        let table' : ℕ → ℕ = fill_bits len (bit_cell ch_nr start) val table in
        elim (dec_lt b len) [
          | yes here ↦ rw (lt→ltb b len here) (
              filled-outside left (seg_nr + 1) (start + len) table' (bit_cell ch_nr (start + b))
                (omega arith) (inl (omega arith))
              ∙ ground (
                arith,
                fill_bits_lem len (bit_cell ch_nr start) val table (bit_cell ch_nr (start + b)),
              ))
          | no there ↦
              let e : start + len + (b - len) ≡ start + b = omega arith in
              rw (le→ltb b len (omega arith)) (
                ap (λ (x : ℕ). filled left (seg_nr + 1) (start + len) table' (bit_cell ch_nr x))
                  (sym e)
                ∙ filled-inside left (seg_nr + 1) (start + len) table' (b - len) (omega arith)
                    (omega arith))
        ]

module _ (s : Segment) (bits : ℕ) where
  -- The segments of a channel are not longer than the channel.
  unfoldable pub IsFitting : ℕ → Type 0
  IsFitting ch_nr = bits_before s ch_nr (s.nr_of_segments ch_nr - 1) 0 ≤ bits

  abbrev pub table_of : ℕ → ℕ → ℕ
  table_of ch_nr b = table_val s ch_nr (segment_at s ch_nr (s.nr_of_segments ch_nr - 1) 0 b)

  fill_channel_lem :
      (ch_nr : ℕ) (table : ℕ → ℕ)
      → IsFitting ch_nr
      → fill_channel bits s ch_nr table
        ≡ some (filled s ch_nr bits (s.nr_of_segments ch_nr - 1) 0 0 table)
  unfolding fill_channel
  fill_channel_lem ch_nr table fits =
      let end : ℕ = (fill_segments (s.nr_of_segments ch_nr - 1) s ch_nr 0 0 table).1 in
      let fit : end ≤ bits =
        unfold IsFitting in
        omega (arith, fits, start_lem s ch_nr (s.nr_of_segments ch_nr - 1) 0 0 table) in
      rw (le→ltb bits end fit)

  -- A cell that is none of a channel's lies before or behind them.
  beside :
      (ch_nr i : ℕ)
      → ((b : ℕ) → b < bits → i ≢ bit_cell ch_nr b)
      → (i < bit_cell ch_nr 0) ⊎ (bit_cell ch_nr bits ≤ i)
  beside ch_nr i other = elim (dec_lt i (bit_cell ch_nr 0)) [
    | yes before ↦ inl before
    | no behind ↦ elim (dec_lt i (bit_cell ch_nr bits)) [
      | yes inside ↦ absurd (other (i - bit_cell ch_nr 0) (omega arith) (omega arith))
      | no above ↦ inr (omega arith)
    ]
  ]

  -- Where the segments of every channel fit into the frame, each bit of each channel gets the number
  -- of the table of the segment that it lies in, and no other cell of the table changes.
  pub fill_table4bit_lem :
      (left ch_nr : ℕ) (table : ℕ → ℕ)
      → bits ≤ max_dsdbits_inframe
      → ((c : ℕ) → ch_nr ≤ c → c < ch_nr + left → IsFitting c)
      → (table' : ℕ → ℕ) × (fill_table4bit left ch_nr bits s table ≡ some table')
        × ((c b : ℕ)
            → ch_nr ≤ c
            → c < ch_nr + left
            → b < bits
            → table' (bit_cell c b) ≡ table_of c b)
        × ((i : ℕ)
            → ((c b : ℕ) → ch_nr ≤ c → c < ch_nr + left → b < bits → i ≢ bit_cell c b)
            → table' i ≡ table i)
  unfolding fill_table4bit
  fill_table4bit_lem zero ch_nr table small fits =
      (table, refl, (λ c b lo hi k. absurd (omega arith)), (λ i other. refl))
  fill_table4bit_lem (suc left) ch_nr table small fits =
      let segs : ℕ = s.nr_of_segments ch_nr - 1 in
      let table1 : ℕ → ℕ = filled s ch_nr bits segs 0 0 table in
      let fit : IsFitting ch_nr = fits ch_nr (omega arith) (omega arith) in
      let fit' : 0 + bits_before s ch_nr segs 0 ≤ bits = unfold IsFitting in omega (arith, fit) in
      let (table', e, inside, outside) =
        fill_table4bit_lem left (ch_nr + 1) table1 small
          (λ c lo hi. fits c (omega arith) (omega arith)) in
      (
        table',
        rw (fill_channel_lem ch_nr table fit) e,
        (λ c b lo hi k. elim (dec_lt ch_nr c) [
          | yes later ↦ inside c b (omega arith) (omega arith) k
          | no same ↦
              let at : c ≡ ch_nr = omega arith in
              rw at (
                outside (bit_cell ch_nr b) (λ c' b' lo' hi' k'. λ eq. omega arith)
                ∙ ap (λ (x : ℕ). table1 (bit_cell ch_nr x)) (sym (zero-add b))
                ∙ filled-inside s ch_nr bits segs 0 0 table b fit' (omega arith))
        ]),
        (λ i other.
            outside i (λ c b lo hi k. other c b (omega arith) (omega arith) k)
            ∙ filled-outside s ch_nr bits segs 0 0 table i fit'
                (beside ch_nr i (λ b k. other ch_nr b (omega arith) (omega arith) k))),
      )
