-- ===== src/Dst/Frame/Tests.antt =====
-- A frame of one channel and 16 bits, whose second half has another filter.
use sacd_extract.Common.{
  ℕ, zero, suc, ◌+◌, ◌-◌, ◌*◌, ◌/◌, ◌≤◌, ◌<◌, ◌≡◌, ◌≢◌, arith, some, get_or, [], ◌∷◌,
}
use sacd_extract.Common.Int.{ℤ, pos, negsuc}
use sacd_extract.Dst.Stream.{Memory}
use sacd_extract.Dst.Arith.{AcData, lt_ac_decode_bit_init, lt_ac_decode_bit_flush}
use sacd_extract.Dst.Arith.Code.{code_word}
use sacd_extract.Dst.Arith.Start.{init_lem}
use sacd_extract.Dst.Arith.Interval.{IsValid}
use sacd_extract.Dst.Segments.{Segment}
use sacd_extract.Dst.Header.{FrameHeader}
use sacd_extract.Dst.Filter.{
  pattern16, int16, Status, lt_init_coef_tables_i, lt_init_status, lt_run_filter_i, update_filter,
}
use sacd_extract.Dst.Filter.History.{
  History, IsHistory, alternating, add_bit, lt_init_status-IsHistory, update_filter-IsHistory,
}
use sacd_extract.Dst.Filter.Fir.{fir, lt_run_filter_i_lem}
use sacd_extract.Dst.Frame.{bit_cell, fill_table4bit, reverse7lsbs, decode_coded, decode_frame}
use sacd_extract.Dst.Frame.Tables.{IsFitting, table_of, segment_at, fill_table4bit_lem}
use sacd_extract.Dst.Frame.Reverse.{reversed7, reverse7lsbs_lem}
use sacd_extract.Dst.Frame.Output.{out_bit}
use sacd_extract.Dst.Frame.Reference.{IsDecodable}
use sacd_extract.Dst.Frame.Decode.{ref_frame, decode_coded_lem}
use sacd_extract.Dst.Frame.Whole.{IsReady, decode_frame_lem}

abbrev filters : Segment
filters = record {
  resolution = 1;
  segment_len = λ i. get_or (1 ∷ 0 ∷ []) i 0;
  nr_of_segments = λ c. 2;
  table4segment = λ i. get_or (0 ∷ 1 ∷ []) i 0;
}

abbrev ptables : Segment
ptables = record {
  resolution = 1;
  segment_len = λ i. 0;
  nr_of_segments = λ c. 1;
  table4segment = λ i. 0;
}

abbrev header : FrameHeader
header = record {
  frame_nr = 0;
  nr_of_channels = 1;
  nr_of_filters = 2;
  nr_of_ptables = 1;
  fsample44 = 64;
  pred_order = λ f. get_or (2 ∷ 1 ∷ []) f 0;
  ptable_len = λ t. 1;
  i_coef_a = λ f i. get_or (pos 100 ∷ negsuc 49 ∷ []) i (pos 0);
  dst_coded = 1;
  calc_nr_of_bytes = 0;
  calc_nr_of_bits = 0;
  half_prob = λ c. 0;
  nr_of_half_bits = λ c. 0;
  f_seg = filters;
  filter4bit = λ i. 0;
  p_seg = ptables;
  ptable4bit = λ i. 0;
  p_same_seg_as_f = 0;
  p_same_map_as_f = 0;
  f_same_seg_all_ch = 1;
  f_same_map_all_ch = 1;
  p_same_seg_all_ch = 1;
  p_same_map_all_ch = 1;
  seg_and_map_bits = 0;
  max_nr_of_filters = 2;
  max_nr_of_ptables = 2;
  max_frame_len = 2;
  byte_stream_len = 2;
  bit_stream_len = 16;
  nr_of_bits_per_ch = 16;
}

abbrev p_one : ℕ → ℕ → ℕ
p_one t row = 100

abbrev code : Memory
code i = 0

code_bits : (i : ℕ) → code i < 2
code_bits i = omega arith

abbrev no_coefs : ℕ → ℕ → ℕ → ℤ
no_coefs f t i = pos 0

abbrev zeros : Status
zeros = record { st0 = 0; st1 = 0; st2 = 0; st3 = 0 }

-- what every channel starts from
abbrev start : Status
start = lt_init_status 1 (λ c. zeros) 0

start-IsHistory : IsHistory start alternating
start-IsHistory = lt_init_status-IsHistory 1 (λ c. zeros) 0 (omega arith)

update_filter-IsHistory_example : IsHistory (update_filter start 1) (add_bit 1 alternating)
update_filter-IsHistory_example =
    update_filter-IsHistory start 1 alternating (omega arith) start-IsHistory

lt_run_filter_i_lem_example :
    lt_run_filter_i (lt_init_coef_tables_i header no_coefs 0) start
    ≡ int16 (fir 2 (header.i_coef_a 0) alternating)
lt_run_filter_i_lem_example =
    lt_run_filter_i_lem header no_coefs start alternating 0 start-IsHistory (omega arith)
      (omega arith)

reverse7lsbs_lem_example :
    (reverse7lsbs (negsuc 49) ≡ 1 + reversed7 (pattern16 (negsuc 49)))
    × (1 ≤ reverse7lsbs (negsuc 49))
    × (reverse7lsbs (negsuc 49) ≤ 128)
reverse7lsbs_lem_example = reverse7lsbs_lem (negsuc 49)

filters-IsFitting : (c : ℕ) → c < 1 → IsFitting filters 16 c
unfolding IsFitting
filters-IsFitting zero h = omega arith
filters-IsFitting (suc c) h = absurd (omega arith)

ptables-IsFitting : (c : ℕ) → c < 1 → IsFitting ptables 16 c
unfolding IsFitting
ptables-IsFitting c h = omega arith

fill_table4bit_lem_example :
    (table' : ℕ → ℕ) × (fill_table4bit 1 0 16 filters (λ i. 9) ≡ some table')
    × ((c b : ℕ) → 0 ≤ c → c < 0 + 1 → b < 16 → table' (bit_cell c b) ≡ table_of filters 16 c b)
    × ((i : ℕ) → ((c b : ℕ) → 0 ≤ c → c < 0 + 1 → b < 16 → i ≢ bit_cell c b) → table' i ≡ 9)
fill_table4bit_lem_example =
    fill_table4bit_lem filters 16 1 0 (λ i. 9) (omega arith)
      (λ c lo hi. filters-IsFitting c (omega arith))

below_two : (i : ℕ) → get_or (0 ∷ 1 ∷ []) i 0 < 2
below_two zero = omega arith
below_two (suc zero) = omega arith
below_two (suc (suc i)) = omega arith

small_order : (f : ℕ) → get_or (2 ∷ 1 ∷ []) f 0 ≤ 128
small_order zero = omega arith
small_order (suc zero) = omega arith
small_order (suc (suc f)) = omega arith

header-IsReady : IsReady header p_one
header-IsReady = record {
  order = λ f h. small_order f;
  size = omega arith;
  f_fits = filters-IsFitting;
  p_fits = ptables-IsFitting;
  filter = λ c b h k. omega (arith, below_two (c * 8 + segment_at filters c 1 0 b));
  table = λ c b h k. omega arith;
  least = λ c b row h k l. omega arith;
  most = λ c b row h k l. omega arith;
}

code-IsValid : IsValid (lt_ac_decode_bit_init code 40)
code-IsValid = (init_lem code 40 code_bits).1 (unfold code_word in omega arith)

decode_frame_lem_example :
    (filter4bit : ℕ → ℕ) × (ptable4bit : ℕ → ℕ) × (decode_frame header p_one code 40 no_coefs
        (λ c. zeros)
        code
      ≡ decode_coded
          (record header { filter4bit = filter4bit; ptable4bit = ptable4bit })
          p_one
          code
          40
          no_coefs
          (λ c. zeros)
          code)
    × ((c b : ℕ) → c < 1 → b < 16 → filter4bit (bit_cell c b) ≡ table_of filters 16 c b)
    × ((c b : ℕ) → c < 1 → b < 16 → ptable4bit (bit_cell c b) ≡ table_of ptables 16 c b)
    × IsDecodable (record header { filter4bit = filter4bit; ptable4bit = ptable4bit }) p_one
decode_frame_lem_example =
    decode_frame_lem header p_one header-IsReady code 40 no_coefs (λ c. zeros) code

-- The tables of the header are all 0, those of the first filter and the only probability table.
header-IsDecodable : IsDecodable header p_one
header-IsDecodable = record {
  order = λ f h. small_order f;
  filter = λ c b h k. omega arith;
  table = λ c b h k. omega arith;
  least = λ c b row h k l. omega arith;
  most = λ c b row h k l. omega arith;
}

decode_coded_lem_example :
    (hs : ℕ → History) × (ac : AcData) × (out : Memory) × (ref_frame header p_one code 40
      ≡ some (hs, ac))
    × (decode_coded header p_one code 40 no_coefs (λ c. zeros) code
        ≡ some ((lt_ac_decode_bit_flush ac code 40).0, out))
    × ((lt_ac_decode_bit_flush ac code 40).0 ≡ 1
        → (c k : ℕ) → c < 1
        → k < 16
        → out_bit 1 out c k ≡ hs c (16 - 1 - k))
    × ((lt_ac_decode_bit_flush ac code 40).0 ≢ 1 → (i : ℕ) → i < 16 * 1 / 8 → out i ≡ 0x55)
decode_coded_lem_example =
    decode_coded_lem header p_one code 40 no_coefs (λ c. zeros) code code_bits header-IsDecodable
      code-IsValid (omega arith)
