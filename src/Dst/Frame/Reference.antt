-- ===== src/Dst/Frame/Reference.antt =====
-- A frame decoded from the histories of its channels, without tables and status bytes.
use sacd_extract.Common.{
  ℕ, zero, suc, ◌+◌, ◌-◌, ◌/◌, ◌^◌, ◌≤◌, ◌<◌, ◌≡◌, refl, arith, Option, some, if◌then◌else◌,
  bit_and, bit_xor, not, ◌==◌, ◌&&◌, ltb, Bool-cases, inl, inr,
}
use sacd_extract.Common.Options.{◌>>=◌}
use sacd_extract.Common.Int.{ℤ, pos, ltb_ℤ}
use sacd_extract.Dst.Stream.{Memory}
use sacd_extract.Dst.Arith.{AcData, lt_ac_decode_bit_decode}
use sacd_extract.Dst.Arith.Interval.{IsValid, decode-IsValid}
use sacd_extract.Dst.Arith.Flush.{ptable_index_lem}
use sacd_extract.Dst.Header.{FrameHeader}
use sacd_extract.Dst.Filter.{pattern16, int16, lt_init_coef_tables_i, lt_run_filter_i}
use sacd_extract.Dst.Filter.Patterns.{int16_sign}
use sacd_extract.Dst.Filter.History.{History}
use sacd_extract.Dst.Filter.Fir.{fir, lt_run_filter_i_lem}
use sacd_extract.Dst.Frame.{
  bit_cell, Work, write_bit, predicted_bit, probability, decode_channel, channel_loop, bit_loop,
}
use sacd_extract.Dst.Frame.Output.{
  IsLinked, add_to, write_bit-IsLinked, relink, next_bit, all_channels,
}

-- What the bits of a frame rely on in its header and its tables.
pub record IsDecodable (fh : FrameHeader) (p_one : ℕ → ℕ → ℕ) : Type 0 where
  pub order : (f : ℕ) → f < fh.nr_of_filters → fh.pred_order f ≤ 128
  pub filter :
      (c b : ℕ)
      → c < fh.nr_of_channels
      → b < fh.nr_of_bits_per_ch
      → fh.filter4bit (bit_cell c b) < fh.nr_of_filters
  pub table :
      (c b : ℕ)
      → c < fh.nr_of_channels
      → b < fh.nr_of_bits_per_ch
      → 0 < fh.ptable_len (fh.ptable4bit (bit_cell c b))
  pub least :
      (c b row : ℕ)
      → c < fh.nr_of_channels
      → b < fh.nr_of_bits_per_ch
      → row < fh.ptable_len (fh.ptable4bit (bit_cell c b))
      → 1 ≤ p_one (fh.ptable4bit (bit_cell c b)) row
  pub most :
      (c b row : ℕ)
      → c < fh.nr_of_channels
      → b < fh.nr_of_bits_per_ch
      → row < fh.ptable_len (fh.ptable4bit (bit_cell c b))
      → p_one (fh.ptable4bit (bit_cell c b)) row ≤ 128

xor_bits : (s r : ℕ) → s ≤ 1 → r ≤ 1 → bit_and (bit_xor s r) 1 ≡ (if s == 1 then 1 - r else r)
xor_bits zero zero h k = refl
xor_bits zero (suc zero) h k = refl
xor_bits (suc zero) zero h k = refl
xor_bits (suc zero) (suc zero) h k = refl
xor_bits (suc (suc s)) r h k = absurd (omega arith)
xor_bits s (suc (suc r)) h k = absurd (omega arith)

-- The bit that the prediction stands for, with the residual: 1 - residual where it is negative.
predicted_bit_lem :
    (z : ℤ) (residual : ℕ)
    → residual ≤ 1
    → predicted_bit (int16 z) residual
      ≡ (if ltb_ℤ (int16 z) (pos 0) then 1 - residual else residual)
unfolding predicted_bit
predicted_bit_lem z residual h = ground (
  arith,
  int16_sign z,
  xor_bits (pattern16 (int16 z) / 2 ^ 15) residual (ground (arith, int16_sign z)) h,
)

module _ (fh : FrameHeader) (p_one : ℕ → ℕ → ℕ) (a_data : Memory) (a_data_len : ℕ) where
  -- one bit of a channel with the history `h`
  pub ref_bit : ℕ → ℕ → History → AcData → Option (ℕ × AcData)
  ref_bit ch_nr bit_nr h ac =
      let f = fh.filter4bit (bit_cell ch_nr bit_nr) in
      let predict = int16 (fir (fh.pred_order f) (fh.i_coef_a f) h) in
      (do
        p ← probability fh p_one a_data a_data_len ch_nr bit_nr predict
        (residual, ac') ← lt_ac_decode_bit_decode ac p a_data a_data_len
        some ((if ltb_ℤ predict (pos 0) then 1 - residual else residual), ac'))

  -- the channels that are left
  pub ref_channels : ℕ → ℕ → ℕ → (ℕ → History) → AcData → Option ((ℕ → History) × AcData)
  ref_channels zero ch_nr bit_nr hs ac = some (hs, ac)
  ref_channels (suc left) ch_nr bit_nr hs ac = do
    (bit, ac') ← ref_bit ch_nr bit_nr (hs ch_nr) ac
    ref_channels left (ch_nr + 1) bit_nr (add_to hs ch_nr bit) ac'

  -- the bits that are left
  pub ref_bits : ℕ → ℕ → (ℕ → History) → AcData → Option ((ℕ → History) × AcData)
  ref_bits zero bit_nr hs ac = some (hs, ac)
  ref_bits (suc left) bit_nr hs ac = do
    (hs', ac') ← ref_channels fh.nr_of_channels 0 bit_nr hs ac
    ref_bits left (bit_nr + 1) hs' ac'

  module _ (bits : (i : ℕ) → a_data i < 2) (ready : IsDecodable fh p_one)
      (before : ℕ → ℕ → ℕ → ℤ) where
    abbrev n : ℕ
    n = fh.nr_of_channels

    abbrev frame_bits : ℕ
    frame_bits = fh.nr_of_bits_per_ch

    probability_lem :
        (c b : ℕ) (predict : ℤ)
        → c < n
        → b < frame_bits
        → (p : ℕ) × (probability fh p_one a_data a_data_len c b predict ≡ some p)
          × (1 ≤ p)
          × (p ≤ 128)
    unfolding probability
    probability_lem c b predict h k =
        elim (Bool-cases (not (fh.half_prob c == 0) && ltb b (fh.nr_of_half_bits c))) [
          | inl half ↦ (128, rw half, omega arith, omega arith)
          | inr table ↦
              let t : ℕ = fh.ptable4bit (bit_cell c b) in
              let (j, e, inside, value) =
                ptable_index_lem predict (fh.ptable_len t) (ready.table c b h k) in
              (p_one t j, rw (table, e), ready.least c b j h k inside, ready.most c b j h k inside)
        ]

    decode_channel_lem :
        (w : Work) (hs : ℕ → History) (ch b : ℕ)
        → IsLinked n frame_bits w hs ch b
        → IsValid w.ac
        → ch < n
        → b < frame_bits
        → (bit : ℕ) × (ac' : AcData) × (ref_bit ch b (hs ch) w.ac ≡ some (bit, ac'))
          × (decode_channel fh p_one a_data a_data_len (lt_init_coef_tables_i fh before) ch b w
              ≡ some (write_bit n ch b bit ac' w))
          × (bit < 2)
          × IsValid ac'
    unfolding ref_bit decode_channel
    decode_channel_lem w hs ch b l v h k =
        let f : ℕ = fh.filter4bit (bit_cell ch b) in
        let z : ℤ = fir (fh.pred_order f) (fh.i_coef_a f) (hs ch) in
        let used : f < fh.nr_of_filters = ready.filter ch b h k in
        let predict : lt_run_filter_i (lt_init_coef_tables_i fh before f) (w.status ch) ≡ int16 z =
          lt_run_filter_i_lem fh before (w.status ch) (hs ch) f (l.status ch h) used
            (ready.order f used) in
        let (p, e, least, most) = probability_lem ch b (int16 z) h k in
        let (residual, ac', d, small, v', more, moved) =
          decode-IsValid a_data a_data_len bits w.ac p v least most in
        (
          (if ltb_ℤ (int16 z) (pos 0) then 1 - residual else residual),
          ac',
          rw (e, d),
          rw (predict, e, d, predicted_bit_lem z residual small),
          ground arith,
          v',
        )

    -- what the loops reach from a state that is linked to the histories `hs`
    abbrev pub Reached : Option ((ℕ → History) × AcData) → Option Work → ℕ → ℕ → Type 0
    Reached reference result ch b =
        (hs' : ℕ → History) × (w' : Work) × (reference ≡ some (hs', w'.ac))
        × (result ≡ some w')
        × IsLinked n frame_bits w' hs' ch b
        × IsValid w'.ac

    channel_loop_lem :
        (left : ℕ) (w : Work) (hs : ℕ → History) (ch b : ℕ)
        → IsLinked n frame_bits w hs ch b
        → IsValid w.ac
        → ch + left ≡ n
        → b < frame_bits
        → Reached
            (ref_channels left ch b hs w.ac)
            (channel_loop fh p_one a_data a_data_len left (lt_init_coef_tables_i fh before) ch b w)
            n
            b
    unfolding ref_channels channel_loop write_bit
    channel_loop_lem zero w hs ch b l v e k = (hs, w, refl, refl, relink (omega arith) l, v)
    channel_loop_lem (suc left) w hs ch b l v e k =
        let (bit, ac', r, d, small, v') = decode_channel_lem w hs ch b l v (omega arith) k in
        let l' : IsLinked n frame_bits (write_bit n ch b bit ac' w) (add_to hs ch bit) (ch + 1) b =
          write_bit-IsLinked n frame_bits w hs ch b bit ac' l (omega arith) small k in
        rw (r, d)
          (channel_loop_lem left (write_bit n ch b bit ac' w) (add_to hs ch bit) (ch + 1) b l' v'
            (omega arith) k)

    pub bit_loop_lem :
        (left : ℕ) (w : Work) (hs : ℕ → History) (b : ℕ)
        → IsLinked n frame_bits w hs 0 b
        → IsValid w.ac
        → b + left ≡ frame_bits
        → Reached
            (ref_bits left b hs w.ac)
            (bit_loop fh p_one a_data a_data_len left (lt_init_coef_tables_i fh before) b w)
            0
            frame_bits
    unfolding ref_bits bit_loop
    bit_loop_lem zero w hs b l v e = (hs, w, refl, refl, next_bit (omega arith) l, v)
    bit_loop_lem (suc left) w hs b l v e =
        let (hs1, w1, r, d, l1, v1) = channel_loop_lem n w hs 0 b l v (omega arith) (omega arith) in
        rw (r, d) (bit_loop_lem left w1 hs1 (b + 1) (all_channels l1) v1 (omega arith))
