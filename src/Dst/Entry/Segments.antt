-- ===== src/Dst/Entry/Segments.antt =====
-- src/libdstdec/unpack_dst.c: what an accepted ReadSegmentData leaves in the header of a frame.
use sacd_extract.Common.{ℕ, ◌^◌, ◌≤◌, ◌<◌, ◌≡◌, refl, inl, inr, arith, ◌==◌, Bool-cases}
use mathlib.Core.Path.{subst}
use sacd_extract.Dst.Stream.{Memory, StrData}
use sacd_extract.Dst.Unpack.{ok, ◌>>=◌, read_bits, give}
use sacd_extract.Dst.Unpack.Steps.{go_on-eq-ok}
use sacd_extract.Dst.Unpack.Reader.{IsReader, read_bits-eq-ok, ok-injective}
use sacd_extract.Dst.Segments.{
  Segment, read_table_segment_data, maxnrof_fsegs, maxnrof_psegs, min_fseg_len, min_pseg_len,
}
use sacd_extract.Dst.Segments.Rounds.{IsRow}
use sacd_extract.Dst.Segments.Same.{IsRow-wider}
use sacd_extract.Dst.Segments.Accepted.{read_table_segment_data-IsRow}
use sacd_extract.Dst.Segments.Reader.{read_table_segment_data-IsReader}
use sacd_extract.Dst.Mapping.{copy_segment_data}
use sacd_extract.Dst.Mapping.CopySegments.{copy_segment_channels-IsCopy}
use sacd_extract.Dst.Header.{FrameHeader}
use sacd_extract.Dst.Entry.{read_segment_data}

-- what the reading of a frame leaves as DST_InitDecoder has set it
pub record IsKept (fh fh' : FrameHeader) : Type 0 where
  pub channels : fh'.nr_of_channels ≡ fh.nr_of_channels
  pub frame_len : fh'.max_frame_len ≡ fh.max_frame_len
  pub bits : fh'.nr_of_bits_per_ch ≡ fh.nr_of_bits_per_ch
  pub code_bits : fh'.calc_nr_of_bits ≡ fh.calc_nr_of_bits

-- the segments of the filters, and those of the probability tables
abbrev pub HasFilterRows : ℕ → ℕ → Segment → Type 0
HasFilterRows frame_len n s =
    (c : ℕ) → c < n → IsRow frame_len maxnrof_fsegs min_fseg_len s.resolution s c

abbrev pub HasTableRows : ℕ → ℕ → Segment → Type 0
HasTableRows frame_len n s =
    (c : ℕ) → c < n → IsRow frame_len maxnrof_psegs min_pseg_len s.resolution s c

pub record IsSegmented (fh : FrameHeader) : Type 0 where
  pub filters : HasFilterRows fh.max_frame_len fh.nr_of_channels fh.f_seg
  pub tables : HasTableRows fh.max_frame_len fh.nr_of_channels fh.p_seg

module _ (m : Memory) (t : ℕ) where
  copy_segment_data-IsSegmented :
      (fh : FrameHeader) (sd : StrData) {fh' : FrameHeader} {sd' : StrData}
      → HasFilterRows fh.max_frame_len fh.nr_of_channels fh.f_seg
      → IsReader m t sd
      → copy_segment_data fh sd ≡ ok fh' sd'
      → IsSegmented fh' × IsReader m t sd' × IsKept fh fh'
  unfolding copy_segment_data
  copy_segment_data-IsSegmented fh sd {fh'} {sd'} filters at e =
      let (pc, sd1, e1, e2) = go_on-eq-ok _ _ e in
      let (a, b) = ok-injective e2 in
      let (copies, resolution, b') =
        copy_segment_channels-IsCopy fh.f_seg fh.nr_of_channels 0 _ sd
          (λ c lt. absurd (omega (arith, lt))) e1 in
      let segmented : IsSegmented (record fh { p_seg = pc.0; p_same_seg_all_ch = pc.1 }) = record {
        filters = filters;
        tables = λ c lt.
            let copy = copies c (omega (arith, lt)) in
            IsRow-wider fh.max_frame_len maxnrof_fsegs maxnrof_psegs min_fseg_len min_pseg_len
              fh.f_seg pc.0 c (omega arith) (omega arith) copy.rows copy.lens resolution
              (filters c lt);
      } in
      subst (λ (x : FrameHeader). IsSegmented x × IsReader m t sd' × IsKept fh x) a
        (
          segmented,
          rw (← b, b') at,
          record { channels = refl; frame_len = refl; bits = refl; code_bits = refl },
        )

  table_segments-IsSegmented :
      (fh : FrameHeader) (sd : StrData) {fh' : FrameHeader} {sd' : StrData}
      → 128 ≤ fh.max_frame_len
      → fh.max_frame_len < 2 ^ 32
      → HasFilterRows fh.max_frame_len fh.nr_of_channels fh.f_seg
      → IsReader m t sd
      → (read_table_segment_data fh.max_frame_len maxnrof_psegs min_pseg_len fh.nr_of_channels
              fh.p_seg
            >>= λ p. give (record fh { p_seg = p.0; p_same_seg_all_ch = p.1 }))
          sd
        ≡ ok fh' sd'
      → IsSegmented fh' × IsReader m t sd' × IsKept fh fh'
  table_segments-IsSegmented fh sd {fh'} {sd'} long short filters at e =
      let (p, sd1, e1, e2) = go_on-eq-ok _ _ e in
      let (a, b) = ok-injective e2 in
      let at1 =
        read_table_segment_data-IsReader m t fh.max_frame_len maxnrof_psegs min_pseg_len short
          fh.nr_of_channels fh.p_seg sd at e1 in
      let segmented : IsSegmented (record fh { p_seg = p.0; p_same_seg_all_ch = p.1 }) = record {
        filters = filters;
        tables = λ c lt.
            read_table_segment_data-IsRow fh.max_frame_len maxnrof_psegs min_pseg_len (omega arith)
              (omega (arith, long)) fh.nr_of_channels c fh.p_seg sd lt e1;
      } in
      subst (λ (x : FrameHeader). IsSegmented x × IsReader m t sd' × IsKept fh x) a
        (
          segmented,
          rw (← b) at1,
          record { channels = refl; frame_len = refl; bits = refl; code_bits = refl },
        )

  pub read_segment_data-IsSegmented :
      (fh : FrameHeader) (sd : StrData) {fh' : FrameHeader} {sd' : StrData}
      → 128 ≤ fh.max_frame_len
      → fh.max_frame_len < 2 ^ 32
      → IsReader m t sd
      → read_segment_data fh sd ≡ ok fh' sd'
      → IsSegmented fh' × IsReader m t sd' × IsKept fh fh'
  unfolding read_segment_data
  read_segment_data-IsSegmented fh sd long short at e =
      let (same, sd1, e1, e2) = go_on-eq-ok (read_bits 1 sd) _ e in
      let (less, at1) = read_bits-eq-ok m t 1 sd (omega arith) at e1 in
      let (f, sd2, e3, e4) = go_on-eq-ok _ _ e2 in
      let at2 =
        read_table_segment_data-IsReader m t fh.max_frame_len maxnrof_fsegs min_fseg_len short
          fh.nr_of_channels fh.f_seg sd1 at1 e3 in
      let filters : HasFilterRows fh.max_frame_len fh.nr_of_channels f.0 = λ c lt.
        read_table_segment_data-IsRow fh.max_frame_len maxnrof_fsegs min_fseg_len (omega arith)
          (omega (arith, long)) fh.nr_of_channels c fh.f_seg sd1 lt e3 in
      let fh1 : FrameHeader = record fh {
        p_same_seg_as_f = same;
        f_seg = f.0;
        f_same_seg_all_ch = f.1;
      } in
      elim (Bool-cases (same == 1)) [
        | inl shared ↦
            let (all, at3, kept) =
              copy_segment_data-IsSegmented fh1 sd2 filters at2 (rw shared at e4) in
            (
              all,
              at3,
              record {
                channels = kept.channels;
                frame_len = kept.frame_len;
                bits = kept.bits;
                code_bits = kept.code_bits;
              },
            )
        | inr apart ↦
            let (all, at3, kept) =
              table_segments-IsSegmented fh1 sd2 long short filters at2 (rw apart at e4) in
            (
              all,
              at3,
              record {
                channels = kept.channels;
                frame_len = kept.frame_len;
                bits = kept.bits;
                code_bits = kept.code_bits;
              },
            )
      ]
