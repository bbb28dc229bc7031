-- ===== src/Dst/Entry/Tests/Accepted.antt =====
-- A whole frame of one channel: one filter of one coefficient, one probability table of one entry.
use sacd_extract.Common.{◌*◌, ◌≡◌, arith, update, ◌==◌, if◌then◌else◌, get_or, [], ◌∷◌}
use sacd_extract.Common.Int.{ℤ, pos}
use sacd_extract.Dst.Stream.{Memory, copy_bytes}
use sacd_extract.Dst.Stream.Cursor.{at}
use sacd_extract.Dst.Unpack.{ok, read_short}
use sacd_extract.Dst.Unpack.Short.{read_short_held}
use sacd_extract.Dst.Segments.{Segment}
use sacd_extract.Dst.Mapping.{set_table}
use sacd_extract.Dst.Coded.{CodedTable}
use sacd_extract.Dst.Coefs.{half_bits, clear_rest}
use sacd_extract.Dst.Header.{FrameHeader}
use sacd_extract.Dst.Filter.{Status}
use sacd_extract.Dst.Entry.{Ebunch}

abbrev bytes : Memory
bytes i = get_or (0xfc ∷ 0x00 ∷ 0x01 ∷ 0x00 ∷ []) i 0

abbrev no_segments : Segment
no_segments = record {
  resolution = 0;
  segment_len = λ i. 0;
  nr_of_segments = λ c. 0;
  table4segment = λ i. 0;
}

abbrev header : FrameHeader
header = record {
  frame_nr = 0;
  nr_of_channels = 1;
  nr_of_filters = 0;
  nr_of_ptables = 0;
  fsample44 = 64;
  pred_order = λ f. 0;
  ptable_len = λ k. 0;
  i_coef_a = λ f i. pos 0;
  dst_coded = 0;
  calc_nr_of_bytes = 4;
  calc_nr_of_bits = 32;
  half_prob = λ c. 0;
  nr_of_half_bits = λ c. 0;
  f_seg = no_segments;
  filter4bit = λ i. 0;
  p_seg = no_segments;
  ptable4bit = λ i. 0;
  p_same_seg_as_f = 0;
  p_same_map_as_f = 0;
  f_same_seg_all_ch = 0;
  f_same_map_all_ch = 0;
  p_same_seg_all_ch = 0;
  p_same_map_all_ch = 0;
  seg_and_map_bits = 0;
  max_nr_of_filters = 2;
  max_nr_of_ptables = 2;
  max_frame_len = 4704;
  byte_stream_len = 4704;
  bit_stream_len = 4704 * 8;
  nr_of_bits_per_ch = 4704 * 8;
}

abbrev coded : CodedTable
coded = record {
  c_pred_order = λ i. 0;
  c_pred_coef = λ method i. pos 0;
  coded = λ i. 0;
  best_method = λ i. pos 0;
  m = λ i method. 0;
}

abbrev zeros : Memory
zeros i = 0

abbrev start : Ebunch
start = record {
  frame_hdr = header;
  str_filter = coded;
  str_ptable = coded;
  p_one = λ k i. 0;
  a_data = zeros;
  a_data_len = 0;
  s = at zeros 0 0;
}

abbrev loaded : Memory
loaded = copy_bytes 4 0 bytes zeros

coefficient : (v : ℤ) × (read_short 9 (at loaded 4 15) ≡ ok v (at loaded 4 24))
coefficient = read_short_held loaded 4 15 9 (omega arith) (omega arith) (omega arith)

abbrev segments : Segment
segments =
    set_table
      (record {
        resolution = 1;
        segment_len = update (λ i. 0) 0 0;
        nr_of_segments = update (λ c. 0) 0 1;
        table4segment = λ i. 0;
      })
      0 0

abbrev unpacked : Ebunch
unpacked = record start {
  frame_hdr = record header {
    nr_of_filters = 1;
    nr_of_ptables = 1;
    pred_order = update (λ f. 0) 0 1;
    ptable_len = update (λ k. 0) 0 1;
    i_coef_a =
        λ f. if 0 == f then clear_rest 1 (update (λ i. pos 0) 0 coefficient.0) else λ i. pos 0;
    dst_coded = 1;
    half_prob = update (λ c. 0) 0 0;
    nr_of_half_bits = half_bits 1 segments (update (λ f. 0) 0 1) (λ c. 0);
    f_seg = segments;
    p_seg = segments;
    p_same_seg_as_f = 1;
    p_same_map_as_f = 1;
    f_same_seg_all_ch = 1;
    f_same_map_all_ch = 1;
    p_same_seg_all_ch = 1;
    p_same_map_all_ch = 1;
  };
  p_one = λ k. if 0 == k then update (λ i. 0) 0 128 else λ i. 0;
  a_data = update (update zeros 0 0) 1 0;
  a_data_len = 2;
}

abbrev no_status : Status
no_status = record { st0 = 0; st1 = 0; st2 = 0; st3 = 0 }
