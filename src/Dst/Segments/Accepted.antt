-- ===== src/Dst/Segments/Accepted.antt =====
-- src/libdstdec/unpack_dst.c: what an accepted ReadTableSegmentData leaves in the segment table.
use sacd_extract.Common.{
  ℕ, ◌+◌, ◌-◌, ◌*◌, ◌/◌, ◌≤◌, ◌<◌, ◌≡◌, ◌∙◌, refl, inl, inr, arith, Bool, true, false, ◌==◌,
  if◌then◌else◌, Bool-cases,
}
use mathlib.Core.Path.{subst}
use sacd_extract.Dst.Stream.{StrData}
use sacd_extract.Dst.Unpack.{ok, read_bits}
use sacd_extract.Dst.Unpack.Steps.{go_on-eq-ok}
use sacd_extract.Dst.Unpack.Reader.{ok-injective}
use sacd_extract.Dst.Segments.{
  Segment, Progress, end_row, copy_channels, finish, read_table_segment_data,
}
use sacd_extract.Dst.Segments.Cut.{IsCut-none}
use sacd_extract.Dst.Segments.Rounds.{IsRow, IsRound, IsSound, end_row-IsRow}
use sacd_extract.Dst.Segments.Loops.{
  shared_loop-IsSound, channels_loop-IsSound, copy_channels-IsRow, copy_channels_resolution,
}

module _ (frame_len max_nr_of_segs min_seg_len : ℕ) (eight : max_nr_of_segs ≤ 8)
    (long : min_seg_len ≤ frame_len * 8) where
  -- the segments of a channel at the resolution of the frame
  abbrev HasRow : ℕ → Segment → Type 0
  HasRow c s = IsRow frame_len max_nr_of_segs min_seg_len s.resolution s c

  finish_choice :
      (c : ℕ) (pr : Progress) (read : Bool)
      → pr.resol_read ≡ read
      → ((r : ℕ)
          → (pr.resol_read ≡ true → r ≡ pr.seg.resolution)
          → IsRow frame_len max_nr_of_segs min_seg_len r pr.seg c)
      → HasRow c (if read then pr.seg else record (pr.seg) { resolution = 1 })
  finish_choice c pr true e row = row pr.seg.resolution (λ known. refl)
  finish_choice c pr false e row =
      let h = row 1 (λ known. cc) in
      record { some_segment = h.some_segment; few = h.few; cut = h.cut }

  finish-HasRow :
      (c : ℕ) (pr : Progress)
      → ((r : ℕ)
          → (pr.resol_read ≡ true → r ≡ pr.seg.resolution)
          → IsRow frame_len max_nr_of_segs min_seg_len r pr.seg c)
      → HasRow c (finish frame_len max_nr_of_segs min_seg_len pr)
  unfolding finish
  finish-HasRow c pr row = finish_choice c pr pr.resol_read refl row

  start-IsSound :
      (s : Segment)
      → IsSound frame_len max_nr_of_segs min_seg_len 0 (record {
        seg = s;
        seg_nr = 0;
        defined_bits = 0;
        max_seg_size = frame_len - min_seg_len / 8;
        resol_read = false;
      })
  start-IsSound s r allowed = record {
    done_rows = λ c lt. absurd (omega (arith, lt));
    cut = IsCut-none frame_len min_seg_len r s.segment_len 0 long;
    sum = refl;
    few = omega arith;
  }

  copied_resolution :
      (n : ℕ) (pr : Progress)
      → (copy_channels frame_len max_nr_of_segs min_seg_len
          (n - 1)
          1
          (end_row frame_len max_nr_of_segs min_seg_len 0 pr)).resolution
        ≡ pr.seg.resolution
  unfolding end_row
  copied_resolution n pr =
      copy_channels_resolution frame_len max_nr_of_segs min_seg_len eight long (n - 1) 1 _

  copied-IsRow :
      (n c : ℕ) (pr : Progress) (r : ℕ)
      → c < n
      → IsRound frame_len max_nr_of_segs min_seg_len 0 pr r
      → IsRow frame_len max_nr_of_segs min_seg_len r
          (copy_channels frame_len max_nr_of_segs min_seg_len
            (n - 1)
            1
            (end_row frame_len max_nr_of_segs min_seg_len 0 pr))
          c
  copied-IsRow n c pr r lt h =
      copy_channels-IsRow frame_len max_nr_of_segs min_seg_len eight long (n - 1) 1 _ r
        (omega arith)
        (λ d below. end_row-IsRow frame_len max_nr_of_segs min_seg_len 0 pr r d eight h below) c
        (omega (arith, lt))

  pub read_table_segment_data-IsRow :
      (n c : ℕ) (s : Segment) (sd : StrData) {s' : Segment} {same : ℕ} {sd' : StrData}
      → c < n
      → read_table_segment_data frame_len max_nr_of_segs min_seg_len n s sd ≡ ok (s', same) sd'
      → IsRow frame_len max_nr_of_segs min_seg_len s'.resolution s' c
  unfolding read_table_segment_data
  read_table_segment_data-IsRow n c s sd lt e =
      let (same, sd1, e1, e2) = go_on-eq-ok (read_bits 1 sd) _ e in
      elim (Bool-cases (same == 1)) [
        | inl shared ↦
            let (end, sd2, e3, e4) = go_on-eq-ok (read_bits 1 sd1) _ (rw shared at e2) in
            let (pr, sd3, e5, e6) = go_on-eq-ok _ _ e4 in
            let (a, b) = ok-injective e6 in
            let sound =
              shared_loop-IsSound frame_len max_nr_of_segs min_seg_len eight long
                (max_nr_of_segs + 2) end _ sd2 e5 (start-IsSound s) in
            let copied : Segment =
              copy_channels frame_len max_nr_of_segs min_seg_len (n - 1) 1
                (end_row frame_len max_nr_of_segs min_seg_len 0 pr) in
            subst (λ (x : Segment × ℕ). HasRow c (x.0)) a
              (finish-HasRow c (record pr { seg = copied })
                (λ r allowed.
                  copied-IsRow n c pr r lt
                    (sound r (λ known. allowed known ∙ copied_resolution n pr))))
        | inr apart ↦
            let (pr, sd2, e3, e4) = go_on-eq-ok _ _ (rw apart at e2) in
            let (a, b) = ok-injective e4 in
            let sound =
              channels_loop-IsSound frame_len max_nr_of_segs min_seg_len eight long
                (n * (max_nr_of_segs + 1) + 1) n 0 _ sd1 (omega arith) e3 (start-IsSound s) in
            subst (λ (x : Segment × ℕ). HasRow c (x.0)) a
              (finish-HasRow c pr (λ r allowed. (sound r allowed).done_rows c lt))
      ]
