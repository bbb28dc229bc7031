-- ===== src/Dst/Entry.antt =====
-- src/libdstdec/unpack_dst.c, dst_fram.c and dst_init.c: a frame from its bytes to the bytes of DSD
-- (ReadSegmentData, ReadMappingData, ReadArithmeticCodedData, ReadDSDframe, UnpackDSTframe,
-- DST_FramDSTDecode), and the numbers that DST_InitDecoder sets.
pub mod Spread
pub mod Code
pub mod Segments
pub mod Numbers
pub mod Ready
pub mod Accepted
pub mod Answer
mod Tests
use sacd_extract.Common.{
  ℕ, zero, suc, ◌+◌, ◌-◌, ◌*◌, ◌/◌, ◌%◌, ◌^◌, Bool, ltb, leb, ◌==◌, ◌&&◌, not, if◌then◌else◌,
  update, Option, none, some, List, [], ◌∷◌, get_or,
}
use sacd_extract.Common.Int.{ℤ}
use sacd_extract.Dst.Stream.{Memory, StrData, fill_buffer, get_in_bitcount}
use sacd_extract.Dst.Unpack.{
  Outcome, ok, err, stuck, Unpack, ◌>>=◌, give, fail, read_bits, read_bits_unchecked, read_chr,
  DstErr, invalid_stuffing_pattern, invalid_arithmetic_code, arithmetic_decoder,
}
use sacd_extract.Dst.Segments.{
  read_table_segment_data, maxnrof_fsegs, maxnrof_psegs, min_fseg_len, min_pseg_len,
}
use sacd_extract.Dst.Mapping.{read_table_mapping_data, copy_segment_data, copy_mapping_data}
use sacd_extract.Dst.Coded.{CodedTable}
use sacd_extract.Dst.Coefs.{read_filters, half_bits}
use sacd_extract.Dst.Ptables.{Ptables, read_probability_tables}
use sacd_extract.Dst.Header.{FrameHeader}
use sacd_extract.Dst.Filter.{Status}
use sacd_extract.Dst.Frame.{decode_frame, set_bytes}

pub read_segment_data : FrameHeader → Unpack FrameHeader
read_segment_data fh = do
  p_same_seg_as_f ← read_bits 1
  (f_seg, f_same_seg_all_ch) ←
      read_table_segment_data fh.max_frame_len maxnrof_fsegs min_fseg_len fh.nr_of_channels fh.f_seg
  let fh' = record fh {
    p_same_seg_as_f = p_same_seg_as_f;
    f_seg = f_seg;
    f_same_seg_all_ch = f_same_seg_all_ch;
  }
  if p_same_seg_as_f == 1
      then copy_segment_data fh'
      else (read_table_segment_data fh.max_frame_len maxnrof_psegs min_pseg_len fh.nr_of_channels
            fh.p_seg
          >>= λ p. give (record fh' { p_seg = p.0; p_same_seg_all_ch = p.1 }))

-- for (j = 0; j < FH->NrOfChannels; j++) of ReadMappingData, with the channels that are left
pub half_prob_loop : ℕ → ℕ → (ℕ → ℕ) → Unpack (ℕ → ℕ)
half_prob_loop zero j half_prob = give half_prob
half_prob_loop (suc left) j half_prob =
    read_bits 1 >>= λ v. half_prob_loop left (j + 1) (update half_prob j v)

pub read_mapping_data : FrameHeader → Unpack FrameHeader
read_mapping_data fh = do
  p_same_map_as_f ← read_bits 1
  (f_seg, nr_of_filters, f_same_map_all_ch) ←
      read_table_mapping_data fh.nr_of_channels fh.max_nr_of_filters fh.f_seg
  let fh1 = record fh {
    p_same_map_as_f = p_same_map_as_f;
    f_seg = f_seg;
    nr_of_filters = nr_of_filters;
    f_same_map_all_ch = f_same_map_all_ch;
  }
  fh2 ←
      if p_same_map_as_f == 1
      then copy_mapping_data fh1
      else (read_table_mapping_data fh.nr_of_channels fh.max_nr_of_ptables fh.p_seg >>= λ p.
          give (record fh1 { p_seg = p.0; nr_of_ptables = p.1; p_same_map_all_ch = p.2 }))
  half_prob ← half_prob_loop fh.nr_of_channels 0 fh2.half_prob
  give (record fh2 { half_prob = half_prob })

abbrev pub spread : List ℕ
spread =
    0x00000000 ∷ 0x01000000 ∷ 0x00010000 ∷ 0x01010000 ∷ 0x00000100 ∷ 0x01000100 ∷ 0x00010100
    ∷ 0x01010100 ∷ 0x00000001 ∷ 0x01000001 ∷ 0x00010001 ∷ 0x01010001 ∷ 0x00000101 ∷ 0x01000101
    ∷ 0x00010101 ∷ 0x01010101 ∷ []

-- *(int *)&AData[j] = v; on a little-endian machine
pub store_int : ℕ → ℕ → Memory → Memory
store_int j v a_data =
    update
      (update (update (update a_data j (v % 256)) (j + 1) (v / 2 ^ 8 % 256)) (j + 2)
        (v / 2 ^ 16 % 256))
      (j + 3) (v / 2 ^ 24 % 256)

-- the nibbles of `val` that are left, the highest first
pub spread_loop : ℕ → ℕ → ℕ → Memory → Memory
spread_loop zero j val a_data = a_data
spread_loop (suc left) j val a_data =
    spread_loop left (j + 4) val (store_int j (get_or spread (val / 2 ^ (4 * left) % 16) 0) a_data)

-- for (j = 0; j < ADataLen-31; j += 32), with the words that are left
pub word_loop : ℕ → ℕ → Memory → Unpack Memory
word_loop zero j a_data = give a_data
word_loop (suc left) j a_data =
    read_bits_unchecked 32 >>= λ val. word_loop left (j + 32) (spread_loop 8 j val a_data)

-- for(; j < ADataLen; j++), with the bits that are left
pub rest_loop : ℕ → ℕ → Memory → Unpack Memory
rest_loop zero j a_data = give a_data
rest_loop (suc left) j a_data = read_chr 1 >>= λ b. rest_loop left (j + 1) (update a_data j b)

-- A length below 0 is the length 0: neither loop runs, and the decoder finds no code bits.
pub read_arithmetic_coded_data : ℕ → Memory → Unpack Memory
read_arithmetic_coded_data a_data_len a_data =
    word_loop (a_data_len / 32) 0 a_data >>= rest_loop (a_data_len % 32) (a_data_len / 32 * 32)

-- The bytes that are left.
pub read_dsd_frame : ℕ → ℕ → Memory → Unpack Memory
read_dsd_frame zero byte_nr dsd_frame = give dsd_frame
read_dsd_frame (suc left) byte_nr dsd_frame =
    read_chr 8 >>= λ v. read_dsd_frame left (byte_nr + 1) (update dsd_frame byte_nr v)

-- `ebunch` without SSE2
pub record Ebunch : Type 0 where
  pub frame_hdr : FrameHeader
  pub str_filter : CodedTable
  pub str_ptable : CodedTable
  pub p_one : ℕ → ℕ → ℕ
  pub a_data : Memory
  pub a_data_len : ℕ
  pub s : StrData

-- The two kinds of frame behind the header bit.
pub unpack_dsd : Ebunch → Memory → Unpack (Ebunch × Memory)
unpack_dsd d dsd_frame = do
  dst_x_bit ← read_bits 1
  stuffing ← read_bits 6
  if stuffing == 0
      then (read_dsd_frame (d.frame_hdr.max_frame_len * d.frame_hdr.nr_of_channels) 0 dsd_frame
          >>= λ out. give (d, out))
      else fail invalid_stuffing_pattern

-- D->ADataLen = CalcNrOfBits - get_in_bitcount(&D->S)
abbrev pub code_len : FrameHeader → Unpack ℕ
code_len fh sd = ok (fh.calc_nr_of_bits - get_in_bitcount sd) sd

-- from the length of the code on, with the header and the probability tables of the frame
pub unpack_code : Ebunch → Memory → FrameHeader → Ptables → Unpack (Ebunch × Memory)
unpack_code d dsd_frame fh pt = do
  a_data_len ← code_len fh
  a_data ← read_arithmetic_coded_data a_data_len d.a_data
  let d' = record d {
    frame_hdr = record fh { ptable_len = pt.ptable_len };
    p_one = pt.p_one;
    a_data = a_data;
    a_data_len = a_data_len;
  }
  if ltb 0 a_data_len && not (a_data 0 == 0)
      then fail invalid_arithmetic_code
      else give (d', dsd_frame)

-- from the filters on, with the segments and their tables in the header
pub unpack_tables : Ebunch → Memory → FrameHeader → Unpack (Ebunch × Memory)
unpack_tables d dsd_frame fh = do
  fl ←
      read_filters d.str_filter fh.nr_of_filters 0
        (record { pred_order = fh.pred_order; i_coef_a = fh.i_coef_a })
  let fh' = record fh {
    pred_order = fl.pred_order;
    i_coef_a = fl.i_coef_a;
    nr_of_half_bits = half_bits fh.nr_of_channels fh.f_seg fl.pred_order fh.nr_of_half_bits;
  }
  pt ←
      read_probability_tables d.str_ptable fh.nr_of_ptables 0
        (record { ptable_len = fh.ptable_len; p_one = d.p_one })
  unpack_code d dsd_frame fh' pt

pub unpack_dst : Ebunch → Memory → Unpack (Ebunch × Memory)
unpack_dst d dsd_frame = do
  fh ← read_segment_data d.frame_hdr
  fh' ← read_mapping_data fh
  unpack_tables d dsd_frame fh'

pub unpack_dst_frame : (ℕ → Option Memory) → Ebunch → Memory → Memory → Outcome (Ebunch × Memory)
unpack_dst_frame malloc d dst_frame dsd_frame =
    elim (fill_buffer malloc d.s dst_frame d.frame_hdr.calc_nr_of_bytes) [
      | none ↦ stuck
      | some sd ↦
          (do
            dst_coded ← read_bits 1
            let d' = record d { frame_hdr = record (d.frame_hdr) { dst_coded = dst_coded } }
            if dst_coded == 0 then unpack_dsd d' dsd_frame else unpack_dst d' dsd_frame)
            sd
    ]

-- The error code, none for DSTErr_NoError, and the DSD data. `none` for both is a fault or a loop
-- that does not end.
pub dst_fram_dst_decode :
    (ℕ → Option Memory)
    → (ℕ → ℕ → ℕ → ℤ)
    → (ℕ → Status)
    → Memory
    → Memory
    → ℕ
    → ℕ
    → Ebunch
    → Option (Option DstErr × Memory)
dst_fram_dst_decode malloc icoef_i status dst_data muxed_dsd frame_size frame_cnt d =
    let fh = record (d.frame_hdr) {
      frame_nr = frame_cnt;
      calc_nr_of_bytes = frame_size;
      calc_nr_of_bits = frame_size * 8;
    } in
    let size = fh.nr_of_bits_per_ch * fh.nr_of_channels / 8 in
    elim (unpack_dst_frame malloc (record d { frame_hdr = fh }) dst_data muxed_dsd) [
      | stuck ↦ none
      | err e ↦ some (some e, set_bytes size 0x55 muxed_dsd)
      | ok (d', out) sd ↦
          if d'.frame_hdr.dst_coded == 1
          then elim (decode_frame d'.frame_hdr d'.p_one d'.a_data d'.a_data_len icoef_i status
              out) [
                | none ↦ none
                | some (flushed, out') ↦
                    some ((if flushed == 1 then none else some arithmetic_decoder), out')
              ]
          else some (none, out)
    ]

-- What DST_InitDecoder sets in a header that memset has cleared; `sample_rate` is 64, 128 or 256.
pub dst_init_header : ℕ → ℕ → FrameHeader → FrameHeader
dst_init_header nr_of_channels sample_rate cleared =
    let max_frame_len = 588 * sample_rate / 8 in
    record cleared {
      frame_nr = 0;
      nr_of_channels = nr_of_channels;
      max_frame_len = max_frame_len;
      byte_stream_len = max_frame_len * nr_of_channels;
      bit_stream_len = max_frame_len * nr_of_channels * 8;
      nr_of_bits_per_ch = max_frame_len * 8;
      max_nr_of_filters = 2 * nr_of_channels;
      max_nr_of_ptables = 2 * nr_of_channels;
    }
