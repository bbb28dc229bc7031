-- ===== src/Dst/Header.antt =====
-- src/libdstdec/types.h: the header of a frame. The struct `ebunch` is taken apart: what it holds
-- besides the header is passed to the functions that use it.
use sacd_extract.Common.{ℕ}
use sacd_extract.Common.Int.{ℤ}
use sacd_extract.Dst.Segments.{Segment}

-- `FrameHeader`, with its arrays as functions of the index. Filter4Bit and Ptable4Bit are their cells
-- in the order of memory, row by row.
pub record FrameHeader : Type 0 where
  pub frame_nr : ℕ
  pub nr_of_channels : ℕ
  pub nr_of_filters : ℕ
  pub nr_of_ptables : ℕ
  pub fsample44 : ℕ
  pub pred_order : ℕ → ℕ
  pub ptable_len : ℕ → ℕ
  pub i_coef_a : ℕ → ℕ → ℤ
  pub dst_coded : ℕ
  pub calc_nr_of_bytes : ℕ
  pub calc_nr_of_bits : ℕ
  pub half_prob : ℕ → ℕ
  pub nr_of_half_bits : ℕ → ℕ
  pub f_seg : Segment
  pub filter4bit : ℕ → ℕ
  pub p_seg : Segment
  pub ptable4bit : ℕ → ℕ
  pub p_same_seg_as_f : ℕ
  pub p_same_map_as_f : ℕ
  pub f_same_seg_all_ch : ℕ
  pub f_same_map_all_ch : ℕ
  pub p_same_seg_all_ch : ℕ
  pub p_same_map_all_ch : ℕ
  pub seg_and_map_bits : ℕ
  pub max_nr_of_filters : ℕ
  pub max_nr_of_ptables : ℕ
  pub max_frame_len : ℕ
  pub byte_stream_len : ℕ
  pub bit_stream_len : ℕ
  pub nr_of_bits_per_ch : ℕ
