-- ===== src/Dst/Mapping.antt =====
-- src/libdstdec/unpack_dst.c: which table each segment uses (ReadTableMappingData), and what the
-- probability tables take over from the filters (CopySegmentData, CopyMappingData).
pub mod Numbers
pub mod Loops
pub mod Accepted
pub mod CopySegments
pub mod CopyNumbers
pub mod Reader
pub mod Tests
use sacd_extract.Common.{ℕ, zero, suc, ◌+◌, ◌-◌, ◌*◌, ltb, ◌==◌, ◌&&◌, not, if◌then◌else◌, update}
use sacd_extract.Dst.Unpack.{
  Unpack, ◌>>=◌, give, fail, read_bits, too_many_segments, invalid_segment_length,
  invalid_table_number, invalid_channel_mapping, segment_number_mismatch, too_many_tables,
}
use sacd_extract.Dst.Rice.{log2_round_up}
use sacd_extract.Dst.Segments.{Segment, cell, maxnrof_psegs, min_pseg_len}
use sacd_extract.Dst.Header.{FrameHeader}

-- a segment table and CountTables
abbrev pub Counted : Type 0
Counted = Segment × ℕ

abbrev pub set_table : Segment → ℕ → ℕ → Segment
set_table s at v = record s { table4segment = update s.table4segment at v }

-- the number for the segment that the cell `at` is about
pub read_number : ℕ → Counted → Unpack Counted
read_number at (s, count_tables) = read_bits (log2_round_up count_tables) >>= λ v.
    let s' = set_table s at v in
    if v == count_tables
    then give (s', count_tables + 1)
    else if ltb count_tables v
    then fail invalid_table_number
    else give (s', count_tables)

-- the segments of a channel that are left; the first segment of the first channel has table 0 and
-- no number
unfoldable pub number_loop : ℕ → ℕ → ℕ → Counted → Unpack Counted
number_loop zero ch_nr seg_nr sc = give sc
number_loop (suc left) ch_nr seg_nr sc =
    (if ch_nr == 0 && seg_nr == 0 then give sc else read_number (cell ch_nr seg_nr) sc)
    >>= number_loop left ch_nr (seg_nr + 1)

-- the channels that are left
pub channel_numbers : ℕ → ℕ → Counted → Unpack Counted
channel_numbers zero ch_nr sc = give sc
channel_numbers (suc left) ch_nr sc =
    number_loop (sc.0.nr_of_segments ch_nr) ch_nr 0 sc >>= channel_numbers left (ch_nr + 1)

-- for (SegNr...) S->Table4Segment[ChNr][SegNr] = S->Table4Segment[0][SegNr];
pub copy_numbers : ℕ → ℕ → ℕ → Segment → Segment
copy_numbers zero seg_nr ch_nr s = s
copy_numbers (suc left) seg_nr ch_nr s =
    copy_numbers left (seg_nr + 1) ch_nr
      (set_table s (cell ch_nr seg_nr) (s.table4segment (cell 0 seg_nr)))

-- for (ChNr = 1; ChNr < NrOfChannels; ChNr++), with the channels that are left
unfoldable pub same_numbers : ℕ → ℕ → Segment → Unpack Segment
same_numbers zero ch_nr s = give s
same_numbers (suc left) ch_nr s =
    let rest = same_numbers left (ch_nr + 1) (copy_numbers (s.nr_of_segments 0) 0 ch_nr s) in
    if s.nr_of_segments ch_nr == s.nr_of_segments 0 then rest else fail invalid_channel_mapping

-- The segments with their tables, NrOfTables and SameMapAllCh.
unfoldable pub read_table_mapping_data : ℕ → ℕ → Segment → Unpack (Segment × ℕ × ℕ)
read_table_mapping_data nr_of_channels max_nr_of_tables s =
    let start = set_table s (cell 0 0) 0 in
    (do
      same_map_all_ch ← read_bits 1
      (s', count_tables) ←
          if same_map_all_ch == 1
          then (number_loop (s.nr_of_segments 0 - 1) 0 1 (start, 1) >>= λ sc.
              same_numbers (nr_of_channels - 1) 1 sc.0 >>= λ all. give (all, sc.1))
          else channel_numbers nr_of_channels 0 (start, 1)
      if ltb max_nr_of_tables count_tables
          then fail too_many_tables
          else give (s', count_tables, same_map_all_ch))

-- A segment table that is copied, and the flag that all channels are alike.
abbrev pub Copied : Type 0
Copied = Segment × ℕ

-- for (SegNr = 0; SegNr < dst[ChNr]; SegNr++) of CopySegmentData, with the segments that are left
unfoldable pub copy_segment_loop : Segment → ℕ → ℕ → ℕ → Copied → Unpack Copied
copy_segment_loop f_seg zero ch_nr seg_nr pc = give pc
copy_segment_loop f_seg (suc left) ch_nr seg_nr (p_seg, same) =
    let len = f_seg.segment_len (cell ch_nr seg_nr) in
    let p_seg' = record p_seg { segment_len = update p_seg.segment_len (cell ch_nr seg_nr) len } in
    let same' = if len == p_seg'.segment_len (cell 0 seg_nr) then same else 0 in
    let rest = copy_segment_loop f_seg left ch_nr (seg_nr + 1) (p_seg', same') in
    if not (len == 0) && ltb (p_seg.resolution * 8 * len) min_pseg_len
    then fail invalid_segment_length
    else rest

-- for (ChNr = 0; ChNr < FH->NrOfChannels; ChNr++) of CopySegmentData, with the channels that are
-- left
unfoldable pub copy_segment_channels : Segment → ℕ → ℕ → Copied → Unpack Copied
copy_segment_channels f_seg zero ch_nr pc = give pc
copy_segment_channels f_seg (suc left) ch_nr (p_seg, same) =
    let nr = f_seg.nr_of_segments ch_nr in
    let p_seg' = record p_seg { nr_of_segments = update p_seg.nr_of_segments ch_nr nr } in
    let same' = if nr == p_seg'.nr_of_segments 0 then same else 0 in
    let rest =
      copy_segment_loop f_seg nr ch_nr 0 (p_seg', same')
      >>= copy_segment_channels f_seg left (ch_nr + 1) in
    if ltb maxnrof_psegs nr then fail too_many_segments else rest

unfoldable pub copy_segment_data : FrameHeader → Unpack FrameHeader
copy_segment_data fh =
    copy_segment_channels fh.f_seg fh.nr_of_channels 0
      (record (fh.p_seg) { resolution = fh.f_seg.resolution }, 1)
    >>= λ pc. give (record fh { p_seg = pc.0; p_same_seg_all_ch = pc.1 })

-- for (SegNr...) of CopyMappingData, with the segments that are left
unfoldable pub copy_mapping_loop : Segment → ℕ → ℕ → ℕ → Copied → Copied
copy_mapping_loop f_seg zero ch_nr seg_nr pc = pc
copy_mapping_loop f_seg (suc left) ch_nr seg_nr (p_seg, same) =
    let v = f_seg.table4segment (cell ch_nr seg_nr) in
    let p_seg' = set_table p_seg (cell ch_nr seg_nr) v in
    copy_mapping_loop f_seg left ch_nr (seg_nr + 1)
      (p_seg', (if v == p_seg'.table4segment (cell 0 seg_nr) then same else 0))

-- for (ChNr...) of CopyMappingData, with the channels that are left
unfoldable pub copy_mapping_channels : Segment → ℕ → ℕ → Copied → Unpack Copied
copy_mapping_channels f_seg zero ch_nr pc = give pc
copy_mapping_channels f_seg (suc left) ch_nr pc =
    let rest =
      copy_mapping_channels f_seg left (ch_nr + 1)
        (copy_mapping_loop f_seg (f_seg.nr_of_segments ch_nr) ch_nr 0 pc) in
    if pc.0.nr_of_segments ch_nr == f_seg.nr_of_segments ch_nr
    then rest
    else fail segment_number_mismatch

unfoldable pub copy_mapping_data : FrameHeader → Unpack FrameHeader
copy_mapping_data fh = copy_mapping_channels fh.f_seg fh.nr_of_channels 0 (fh.p_seg, 1) >>= λ pc.
    if ltb fh.max_nr_of_ptables fh.nr_of_filters
    then fail too_many_tables
    else give
        (record fh { p_seg = pc.0; p_same_map_all_ch = pc.1; nr_of_ptables = fh.nr_of_filters })
