-- ===== src/Dst/Frame/Whole.antt =====
-- A frame from its segments on: the tables for each bit, then the bits.
use sacd_extract.Common.{ℕ, ◌≤◌, ◌<◌, ◌≡◌, arith}
use sacd_extract.Common.Int.{ℤ}
use sacd_extract.Dst.Stream.{Memory}
use sacd_extract.Dst.Header.{FrameHeader}
use sacd_extract.Dst.Filter.{Status}
use sacd_extract.Dst.Frame.{bit_cell, max_dsdbits_inframe, decode_coded, decode_frame}
use sacd_extract.Dst.Frame.Tables.{IsFitting, table_of, fill_table4bit_lem}
use sacd_extract.Dst.Frame.Reference.{IsDecodable}

-- What a frame relies on in its header: orders, segments that fit, and tables that exist and hold
-- probabilities.
pub record IsReady (fh : FrameHeader) (p_one : ℕ → ℕ → ℕ) : Type 0 where
  pub order : (f : ℕ) → f < fh.nr_of_filters → fh.pred_order f ≤ 128
  pub size : fh.nr_of_bits_per_ch ≤ max_dsdbits_inframe
  pub f_fits : (c : ℕ) → c < fh.nr_of_channels → IsFitting fh.f_seg fh.nr_of_bits_per_ch c
  pub p_fits : (c : ℕ) → c < fh.nr_of_channels → IsFitting fh.p_seg fh.nr_of_bits_per_ch c
  pub filter :
      (c b : ℕ)
      → c < fh.nr_of_channels
      → b < fh.nr_of_bits_per_ch
      → table_of fh.f_seg fh.nr_of_bits_per_ch c b < fh.nr_of_filters
  pub table :
      (c b : ℕ)
      → c < fh.nr_of_channels
      → b < fh.nr_of_bits_per_ch
      → 0 < fh.ptable_len (table_of fh.p_seg fh.nr_of_bits_per_ch c b)
  pub least :
      (c b row : ℕ)
      → c < fh.nr_of_channels
      → b < fh.nr_of_bits_per_ch
      → row < fh.ptable_len (table_of fh.p_seg fh.nr_of_bits_per_ch c b)
      → 1 ≤ p_one (table_of fh.p_seg fh.nr_of_bits_per_ch c b) row
  pub most :
      (c b row : ℕ)
      → c < fh.nr_of_channels
      → b < fh.nr_of_bits_per_ch
      → row < fh.ptable_len (table_of fh.p_seg fh.nr_of_bits_per_ch c b)
      → p_one (table_of fh.p_seg fh.nr_of_bits_per_ch c b) row ≤ 128

module _ (fh : FrameHeader) (p_one : ℕ → ℕ → ℕ) (ready : IsReady fh p_one) where
  abbrev bits : ℕ
  bits = fh.nr_of_bits_per_ch

  abbrev IsFilled : (ℕ → ℕ) → (ℕ → ℕ → ℕ) → Type 0
  IsFilled table of = (c b : ℕ) → c < fh.nr_of_channels → b < bits → table (bit_cell c b) ≡ of c b

  filled-IsDecodable :
      (filter4bit ptable4bit : ℕ → ℕ)
      → IsFilled filter4bit (table_of fh.f_seg bits)
      → IsFilled ptable4bit (table_of fh.p_seg bits)
      → IsDecodable (record fh { filter4bit = filter4bit; ptable4bit = ptable4bit }) p_one
  filled-IsDecodable filter4bit ptable4bit f p = record {
    order = ready.order;
    filter = λ c b h k. omega (arith, f c b h k, ready.filter c b h k);
    table = λ c b h k. rw (p c b h k) (ready.table c b h k);
    least =
        λ c b row h k inside. rw (p c b h k) (ready.least c b row h k (rw (← p c b h k) inside));
    most = λ c b row h k inside. rw (p c b h k) (ready.most c b row h k (rw (← p c b h k) inside));
  }

  -- Where the header of a frame is ready, each bit of each channel gets the filter and the
  -- probability table of the segments it lies in, inside the tables of the frame, and the rest of the
  -- decoding runs on a header that is in range.
  pub decode_frame_lem :
      (a_data : Memory) (a_data_len : ℕ) (icoef_i : ℕ → ℕ → ℕ → ℤ) (status : ℕ → Status)
      (muxed_dsd : Memory)
      → (filter4bit : ℕ → ℕ) × (ptable4bit : ℕ → ℕ) × (decode_frame fh p_one a_data a_data_len
            icoef_i status muxed_dsd
          ≡ decode_coded
              (record fh { filter4bit = filter4bit; ptable4bit = ptable4bit })
              p_one
              a_data
              a_data_len
              icoef_i
              status
              muxed_dsd)
        × IsFilled filter4bit (table_of fh.f_seg bits)
        × IsFilled ptable4bit (table_of fh.p_seg bits)
        × IsDecodable (record fh { filter4bit = filter4bit; ptable4bit = ptable4bit }) p_one
  unfolding decode_frame
  decode_frame_lem a_data a_data_len icoef_i status muxed_dsd =
      let (filter4bit, f, inside, outside) =
        fill_table4bit_lem fh.f_seg bits fh.nr_of_channels 0 fh.filter4bit ready.size
          (λ c lo hi. ready.f_fits c (omega arith)) in
      let (ptable4bit, p, inside', outside') =
        fill_table4bit_lem fh.p_seg bits fh.nr_of_channels 0 fh.ptable4bit ready.size
          (λ c lo hi. ready.p_fits c (omega arith)) in
      let filter : IsFilled filter4bit (table_of fh.f_seg bits) =
        λ c b h k. inside c b (omega arith) (omega arith) k in
      let table : IsFilled ptable4bit (table_of fh.p_seg bits) =
        λ c b h k. inside' c b (omega arith) (omega arith) k in
      (
        filter4bit,
        ptable4bit,
        rw (f, p),
        filter,
        table,
        filled-IsDecodable filter4bit ptable4bit filter table,
      )
