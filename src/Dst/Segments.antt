-- ===== src/Dst/Segments.antt =====
-- src/libdstdec/unpack_dst.c: how a frame is cut into segments, for filters and for probability
-- tables (ReadTableSegmentData, CopySegmentData, ReadSegmentData).
pub mod Cut
pub mod Rounds
pub mod Loops
pub mod Accepted
pub mod Same
pub mod Reader
mod Tests
use sacd_extract.Common.{
  ℕ, zero, suc, ◌+◌, ◌-◌, ◌*◌, ◌/◌, Bool, true, false, ◌||◌, ltb, leb, ◌==◌, if◌then◌else◌, update,
}
use sacd_extract.Dst.Unpack.{
  Unpack, ◌>>=◌, give, fail, never, read_bits, too_many_segments, invalid_segment_resolution,
  invalid_segment_length,
}
use sacd_extract.Dst.Rice.{log2_round_up}

abbrev pub maxnrof_segs : ℕ
maxnrof_segs = 8

abbrev pub maxnrof_fsegs : ℕ
maxnrof_fsegs = 4

abbrev pub maxnrof_psegs : ℕ
maxnrof_psegs = 8

abbrev pub min_fseg_len : ℕ
min_fseg_len = 1024

abbrev pub min_pseg_len : ℕ
min_pseg_len = 32

-- `Segment`. A table [MAX_CHANNELS][MAXNROF_SEGS] is its cells in the order of memory, row by row,
-- so that a segment number past the end of a row is a cell of the next one, as in C.
pub record Segment : Type 0 where
  pub resolution : ℕ
  pub segment_len : ℕ → ℕ
  pub nr_of_segments : ℕ → ℕ
  pub table4segment : ℕ → ℕ

abbrev pub cell : ℕ → ℕ → ℕ
cell ch_nr seg_nr = ch_nr * maxnrof_segs + seg_nr

-- The segments and the local variables of ReadTableSegmentData.
pub record Progress : Type 0 where
  pub seg : Segment
  pub seg_nr : ℕ
  pub defined_bits : ℕ
  pub max_seg_size : ℕ
  pub resol_read : Bool

-- The parameters of ReadTableSegmentData. All its numbers are at least 0, and the differences do not
-- stop at 0 where MinSegLen bits fit into a frame.
module _ (frame_len max_nr_of_segs min_seg_len : ℕ) where
  pub read_resolution : Progress → Unpack Progress
  read_resolution pr =
      if pr.resol_read
      then give pr
      else (read_bits (log2_round_up (frame_len - min_seg_len / 8)) >>= λ resolution.
          if resolution == 0 || ltb (frame_len - min_seg_len / 8) resolution
          then fail invalid_segment_resolution
          else give
              (record pr { seg = record (pr.seg) { resolution = resolution }; resol_read = true }))

  -- what the loop keeps of a segment of `len` units
  pub add_segment : ℕ → ℕ → Progress → Progress
  add_segment ch_nr len pr = record pr {
    seg = record (pr.seg) { segment_len = update pr.seg.segment_len (cell ch_nr pr.seg_nr) len };
    defined_bits = pr.defined_bits + pr.seg.resolution * 8 * len;
    max_seg_size = pr.max_seg_size - pr.seg.resolution * len;
    seg_nr = pr.seg_nr + 1;
  }

  -- The test is that of the source with `- DefinedBits - MinSegLen` on the other side.
  pub read_length : ℕ → Progress → Unpack Progress
  read_length ch_nr pr = read_bits (log2_round_up (pr.max_seg_size / pr.seg.resolution)) >>= λ len.
      let bits = pr.seg.resolution * 8 * len in
      if ltb bits min_seg_len || ltb (frame_len * 8) (bits + pr.defined_bits + min_seg_len)
      then fail invalid_segment_length
      else give (add_segment ch_nr len pr)

  pub read_segment : ℕ → Progress → Unpack Progress
  read_segment ch_nr pr = read_resolution pr >>= read_length ch_nr

  -- while (EndOfChannel == 0), for all channels at once
  unfoldable pub shared_loop : ℕ → ℕ → Progress → Unpack Progress
  shared_loop zero end_of_channel pr = never
  shared_loop (suc fuel) end_of_channel pr =
      let again = read_segment 0 pr >>= λ pr'. read_bits 1 >>= λ end. shared_loop fuel end pr' in
      if end_of_channel == 0
      then (if leb max_nr_of_segs pr.seg_nr then fail too_many_segments else again)
      else give pr

  -- the end of a channel
  unfoldable pub end_row : ℕ → Progress → Segment
  end_row ch_nr pr = record (pr.seg) {
    nr_of_segments = update pr.seg.nr_of_segments ch_nr (pr.seg_nr + 1);
    segment_len = update pr.seg.segment_len (cell ch_nr pr.seg_nr) 0;
  }

  pub next_channel : ℕ → Progress → Progress
  next_channel ch_nr pr = record pr {
    seg = end_row ch_nr pr;
    seg_nr = 0;
    defined_bits = 0;
    max_seg_size = frame_len - min_seg_len / 8;
  }

  -- while (ChNr < NrOfChannels), where each channel has its own segments
  pub channels_loop : ℕ → ℕ → ℕ → Progress → Unpack Progress
  channels_loop zero nr_of_channels ch_nr pr = never
  channels_loop (suc fuel) nr_of_channels ch_nr pr =
      let segment = read_segment ch_nr pr >>= channels_loop fuel nr_of_channels ch_nr in
      let channel = channels_loop fuel nr_of_channels (ch_nr + 1) (next_channel ch_nr pr) in
      if ltb ch_nr nr_of_channels
      then (if leb max_nr_of_segs pr.seg_nr
          then fail too_many_segments
          else (read_bits 1 >>= λ end_of_channel. if end_of_channel == 0 then segment else channel))
      else give pr

  -- for (SegNr...) S->SegmentLen[ChNr][SegNr] = S->SegmentLen[0][SegNr];
  unfoldable pub copy_lens : ℕ → ℕ → ℕ → (ℕ → ℕ) → ℕ → ℕ
  copy_lens zero seg_nr ch_nr lens = lens
  copy_lens (suc left) seg_nr ch_nr lens =
      copy_lens left (seg_nr + 1) ch_nr (update lens (cell ch_nr seg_nr) (lens (cell 0 seg_nr)))

  -- for (ChNr = 1; ChNr < NrOfChannels; ChNr++), with the channels that are left
  unfoldable pub copy_channels : ℕ → ℕ → Segment → Segment
  copy_channels zero ch_nr s = s
  copy_channels (suc left) ch_nr s = copy_channels left (ch_nr + 1) (record s {
    nr_of_segments = update s.nr_of_segments ch_nr (s.nr_of_segments 0);
    segment_len = copy_lens (s.nr_of_segments 0) 0 ch_nr s.segment_len;
  })

  unfoldable pub finish : Progress → Segment
  finish pr = if pr.resol_read then pr.seg else record (pr.seg) { resolution = 1 }

  -- A loop makes one round for a segment and one for the end of a channel.
  unfoldable pub read_table_segment_data : ℕ → Segment → Unpack (Segment × ℕ)
  read_table_segment_data nr_of_channels s =
      let start : Progress = record {
        seg = s;
        seg_nr = 0;
        defined_bits = 0;
        max_seg_size = frame_len - min_seg_len / 8;
        resol_read = false;
      } in
      read_bits 1 >>= λ same_seg_all_ch.
      if same_seg_all_ch == 1
      then (do
        end_of_channel ← read_bits 1
        pr ← shared_loop (max_nr_of_segs + 2) end_of_channel start
        let copied = copy_channels (nr_of_channels - 1) 1 (end_row 0 pr)
        give (finish (record pr { seg = copied }), same_seg_all_ch))
      else (do
        pr ← channels_loop (nr_of_channels * (max_nr_of_segs + 1) + 1) nr_of_channels 0 start
        give (finish pr, same_seg_all_ch))
