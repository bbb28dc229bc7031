-- ===== src/Dst/Frame.antt =====
-- src/libdstdec/dst_fram.c: the decoding of a frame whose header is unpacked (FillTable4Bit,
-- Reverse7LSBs and DST_FramDSTDecode behind UnpackDSTframe).
pub mod Tables
pub mod Output
pub mod Reference
pub mod Decode
pub mod Whole
mod Tests
pub mod Reverse
use sacd_extract.Common.{
  ℕ, zero, suc, ◌+◌, ◌-◌, ◌*◌, ◌/◌, ◌%◌, ◌^◌, bit_and, bit_or, bit_xor, ltb, ◌==◌, ◌&&◌, not,
  if◌then◌else◌, Option, none, some, List, [], ◌∷◌, get_or, update,
}
use sacd_extract.Common.Options.{◌>>=◌}
use sacd_extract.Common.Int.{ℤ, pos, negsuc, ◌+ℤ◌}
use sacd_extract.Dst.Stream.{Memory}
use sacd_extract.Dst.Arith.{
  AcData, lt_ac_decode_bit_init, lt_ac_decode_bit_decode, lt_ac_decode_bit_flush,
  lt_ac_get_ptable_index,
}
use sacd_extract.Dst.Segments.{Segment, cell}
use sacd_extract.Dst.Header.{FrameHeader}
use sacd_extract.Dst.Filter.{
  pattern16, Status, lt_init_coef_tables_i, lt_init_status, lt_run_filter_i, update_filter,
}

abbrev pub max_dsdbits_inframe : ℕ
max_dsdbits_inframe = 588 * 64

-- where [ChNr][BitNr] lies
abbrev pub bit_cell : ℕ → ℕ → ℕ
bit_cell ch_nr bit_nr = ch_nr * max_dsdbits_inframe + bit_nr

-- `left` cells from `first` on, set to `val`
pub fill_bits : ℕ → ℕ → ℕ → (ℕ → ℕ) → ℕ → ℕ
fill_bits zero first val table = table
fill_bits (suc left) first val table = fill_bits left (first + 1) val (update table first val)

-- S->Resolution * 8 * S->SegmentLen[ChNr][SegNr]
abbrev pub segment_bits : Segment → ℕ → ℕ → ℕ
segment_bits s ch_nr seg_nr = s.resolution * 8 * s.segment_len (cell ch_nr seg_nr)

-- (char) S->Table4Segment[ChNr][SegNr]
abbrev pub table_val : Segment → ℕ → ℕ → ℕ
table_val s ch_nr seg_nr = s.table4segment (cell ch_nr seg_nr) % 2 ^ 8

-- for (...; SegNr < S->NrOfSegments[ChNr] - 1; SegNr++), with the rounds that are left: SegNr, Start
-- and the table
pub fill_segments : ℕ → Segment → ℕ → ℕ → ℕ → (ℕ → ℕ) → ℕ × ℕ × (ℕ → ℕ)
fill_segments zero s ch_nr seg_nr start table = (seg_nr, start, table)
fill_segments (suc left) s ch_nr seg_nr start table =
    let len = segment_bits s ch_nr seg_nr in
    fill_segments left s ch_nr (seg_nr + 1) (start + len)
      (fill_bits len (bit_cell ch_nr start) (table_val s ch_nr seg_nr) table)

-- `none` is a memset of a negative size.
pub fill_channel : ℕ → Segment → ℕ → (ℕ → ℕ) → Option (ℕ → ℕ)
fill_channel nr_of_bits_per_ch s ch_nr table =
    let (seg_nr, start, table') = fill_segments (s.nr_of_segments ch_nr - 1) s ch_nr 0 0 table in
    if ltb nr_of_bits_per_ch start
    then none
    else some (
        fill_bits (nr_of_bits_per_ch - start) (bit_cell ch_nr start) (table_val s ch_nr seg_nr)
          table')

-- for (ChNr = 0; ChNr < NrOfChannels; ChNr++), with the channels that are left
pub fill_table4bit : ℕ → ℕ → ℕ → Segment → (ℕ → ℕ) → Option (ℕ → ℕ)
fill_table4bit zero ch_nr nr_of_bits_per_ch s table = some table
fill_table4bit (suc left) ch_nr nr_of_bits_per_ch s table = do
  table' ← fill_channel nr_of_bits_per_ch s ch_nr table
  fill_table4bit left (ch_nr + 1) nr_of_bits_per_ch s table'

abbrev pub reverse : List ℕ
reverse =
    1 ∷ 65 ∷ 33 ∷ 97 ∷ 17 ∷ 81 ∷ 49 ∷ 113 ∷ 9 ∷ 73 ∷ 41 ∷ 105 ∷ 25 ∷ 89 ∷ 57 ∷ 121 ∷ 5 ∷ 69 ∷ 37
    ∷ 101 ∷ 21 ∷ 85 ∷ 53 ∷ 117 ∷ 13 ∷ 77 ∷ 45 ∷ 109 ∷ 29 ∷ 93 ∷ 61 ∷ 125 ∷ 3 ∷ 67 ∷ 35 ∷ 99 ∷ 19
    ∷ 83 ∷ 51 ∷ 115 ∷ 11 ∷ 75 ∷ 43 ∷ 107 ∷ 27 ∷ 91 ∷ 59 ∷ 123 ∷ 7 ∷ 71 ∷ 39 ∷ 103 ∷ 23 ∷ 87 ∷ 55
    ∷ 119 ∷ 15 ∷ 79 ∷ 47 ∷ 111 ∷ 31 ∷ 95 ∷ 63 ∷ 127 ∷ 2 ∷ 66 ∷ 34 ∷ 98 ∷ 18 ∷ 82 ∷ 50 ∷ 114 ∷ 10
    ∷ 74 ∷ 42 ∷ 106 ∷ 26 ∷ 90 ∷ 58 ∷ 122 ∷ 6 ∷ 70 ∷ 38 ∷ 102 ∷ 22 ∷ 86 ∷ 54 ∷ 118 ∷ 14 ∷ 78 ∷ 46
    ∷ 110 ∷ 30 ∷ 94 ∷ 62 ∷ 126 ∷ 4 ∷ 68 ∷ 36 ∷ 100 ∷ 20 ∷ 84 ∷ 52 ∷ 116 ∷ 12 ∷ 76 ∷ 44 ∷ 108 ∷ 28
    ∷ 92 ∷ 60 ∷ 124 ∷ 8 ∷ 72 ∷ 40 ∷ 104 ∷ 24 ∷ 88 ∷ 56 ∷ 120 ∷ 16 ∷ 80 ∷ 48 ∷ 112 ∷ 32 ∷ 96 ∷ 64
    ∷ 128 ∷ []

pub reverse7lsbs : ℤ → ℕ
reverse7lsbs c = get_or reverse (bit_and (pattern16 (c +ℤ pos (2 ^ 9))) 127) 0

-- What the loops over the bits change: the arithmetic decoder, the status of the channels, MuxedDSD.
pub record Work : Type 0 where
  pub ac : AcData
  pub status : ℕ → Status
  pub muxed_dsd : Memory

-- what is kept of a bit
pub write_bit : ℕ → ℕ → ℕ → ℕ → AcData → Work → Work
write_bit nr_of_channels ch_nr bit_nr bit_val ac w =
    let place = bit_nr / 8 * nr_of_channels + ch_nr in
    record {
      ac = ac;
      status = λ c. if ch_nr == c then update_filter (w.status c) bit_val else w.status c;
      muxed_dsd =
          update w.muxed_dsd place
            (bit_or (w.muxed_dsd place) (bit_val * 2 ^ (7 - bit_nr % 8) % 2 ^ 8));
    }

-- ((((uint16_t)Predict) >> 15) ^ Residual) & 1
pub predicted_bit : ℤ → ℕ → ℕ
predicted_bit predict residual = bit_and (bit_xor (pattern16 predict / 2 ^ 15) residual) 1

-- memset(p, val, size), from offset 0 on
pub set_bytes : ℕ → ℕ → Memory → Memory
set_bytes size val p i = if ltb i size then val else p i

module _ (fh : FrameHeader) (p_one : ℕ → ℕ → ℕ) (a_data : Memory) (a_data_len : ℕ) where
  -- The probability for the next bit of a channel. `none` is a row before the table, where the table
  -- is empty.
  pub probability : ℕ → ℕ → ℤ → Option ℕ
  probability ch_nr bit_nr predict =
      if not (fh.half_prob ch_nr == 0) && ltb bit_nr (fh.nr_of_half_bits ch_nr)
      then some 128
      else let table4bit = fh.ptable4bit (bit_cell ch_nr bit_nr) in
        elim (lt_ac_get_ptable_index predict (fh.ptable_len table4bit)) [
          | pos row ↦ some (p_one table4bit row)
          | negsuc row ↦ none
        ]

  -- the body of the loop over the channels
  pub decode_channel : (ℕ → ℕ → ℕ → ℤ) → ℕ → ℕ → Work → Option Work
  decode_channel lt_i_coef_i ch_nr bit_nr w =
      let filter = fh.filter4bit (bit_cell ch_nr bit_nr) in
      let predict = lt_run_filter_i (lt_i_coef_i filter) (w.status ch_nr) in
      (do
        p ← probability ch_nr bit_nr predict
        (residual, ac') ← lt_ac_decode_bit_decode w.ac p a_data a_data_len
        some (write_bit fh.nr_of_channels ch_nr bit_nr (predicted_bit predict residual) ac' w))

  -- for (ChNr = 0; ChNr < NrOfChannels; ChNr++), with the channels that are left
  pub channel_loop : ℕ → (ℕ → ℕ → ℕ → ℤ) → ℕ → ℕ → Work → Option Work
  channel_loop zero lt_i_coef_i ch_nr bit_nr w = some w
  channel_loop (suc left) lt_i_coef_i ch_nr bit_nr w = do
    w' ← decode_channel lt_i_coef_i ch_nr bit_nr w
    channel_loop left lt_i_coef_i (ch_nr + 1) bit_nr w'

  -- for (BitNr = 0; BitNr < NrOfBitsPerCh; BitNr++), with the bits that are left
  pub bit_loop : ℕ → (ℕ → ℕ → ℕ → ℤ) → ℕ → Work → Option Work
  bit_loop zero lt_i_coef_i bit_nr w = some w
  bit_loop (suc left) lt_i_coef_i bit_nr w = do
    w' ← channel_loop fh.nr_of_channels lt_i_coef_i 0 bit_nr w
    bit_loop left lt_i_coef_i (bit_nr + 1) w'

  -- DST_FramDSTDecode where UnpackDSTframe succeeded on a frame that is DST coded: what the flush
  -- answered, 1 for success, and MuxedDSD. The arrays on the stack start as `icoef_i` and `status`.
  pub decode_coded : (ℕ → ℕ → ℕ → ℤ) → (ℕ → Status) → Memory → Option (ℕ × Memory)
  decode_coded icoef_i status muxed_dsd =
      let size = fh.nr_of_bits_per_ch * fh.nr_of_channels / 8 in
      let tables = lt_init_coef_tables_i fh icoef_i in
      (do
        (ac_error, ac) ←
            lt_ac_decode_bit_decode (lt_ac_decode_bit_init a_data a_data_len)
              (reverse7lsbs (fh.i_coef_a 0 0)) a_data a_data_len
        w ← bit_loop fh.nr_of_bits_per_ch tables 0 (record {
          ac = ac;
          status = lt_init_status fh.nr_of_channels status;
          muxed_dsd = set_bytes size 0 muxed_dsd;
        })
        let (flushed, ac') = lt_ac_decode_bit_flush w.ac a_data a_data_len
        some (flushed, (if flushed == 1 then w.muxed_dsd else set_bytes size 0x55 w.muxed_dsd)))

-- The tables for each bit are filled first, from the segments.
pub decode_frame :
    FrameHeader
    → (ℕ → ℕ → ℕ)
    → Memory
    → ℕ
    → (ℕ → ℕ → ℕ → ℤ)
    → (ℕ → Status)
    → Memory
    → Option (ℕ × Memory)
decode_frame fh p_one a_data a_data_len icoef_i status muxed_dsd = do
  filter4bit ← fill_table4bit fh.nr_of_channels 0 fh.nr_of_bits_per_ch fh.f_seg fh.filter4bit
  ptable4bit ← fill_table4bit fh.nr_of_channels 0 fh.nr_of_bits_per_ch fh.p_seg fh.ptable4bit
  decode_coded (record fh { filter4bit = filter4bit; ptable4bit = ptable4bit }) p_one a_data
      a_data_len icoef_i status muxed_dsd
