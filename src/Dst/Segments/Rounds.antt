-- ===== src/Dst/Segments/Rounds.antt =====
-- src/libdstdec/unpack_dst.c: what a round of the loops of ReadTableSegmentData keeps.
use sacd_extract.Common.{
  ℕ, ◌+◌, ◌-◌, ◌*◌, ◌/◌, ◌≤◌, ◌<◌, ◌≡◌, refl, ap, inl, inr, arith, Bool, true, false, ◌||◌, ltb,
  ◌==◌, if◌then◌else◌, update, Bool-cases,
}
use native.Mathlib.Decide.{dec_lt}
use mathlib.Core.Path.{subst}
use sacd_extract.Dst.Filter.Patterns.{sum_from}
use sacd_extract.Dst.Stream.{StrData}
use sacd_extract.Dst.Unpack.{ok, ◌>>=◌, read_bits, give, fail, invalid_segment_resolution}
use sacd_extract.Dst.Unpack.Steps.{go_on-eq-ok}
use sacd_extract.Dst.Unpack.Reader.{ok-injective, err-ok}
use sacd_extract.Dst.Rice.{log2_round_up}
use sacd_extract.Dst.Segments.{
  Segment, Progress, cell, read_resolution, add_segment, read_length, read_segment, end_row,
  next_channel,
}
use sacd_extract.Dst.Segments.Cut.{
  bits_at, IsCut, IsCut-none, IsCut-same, IsCut-more, update_off, update_at, bits_at-more,
}

pub or-off : (a b : Bool) → (a || b) ≡ false → (a ≡ false) × (b ≡ false)
or-off true b e = cc
or-off false b e = (refl, e)

module _ (frame_len max_nr_of_segs min_seg_len : ℕ) where
  -- The segments of channel `c` at the resolution `r`, the last of which has no length of its own.
  pub record IsRow (r : ℕ) (s : Segment) (c : ℕ) : Type 0 where
    pub some_segment : 1 ≤ s.nr_of_segments c
    pub few : s.nr_of_segments c ≤ max_nr_of_segs + 1
    pub cut : IsCut frame_len min_seg_len r s.segment_len c (s.nr_of_segments c - 1)

  -- The channels before `ch_nr` are done, and `ch_nr` has its first segments.
  pub record IsRound (ch_nr : ℕ) (pr : Progress) (r : ℕ) : Type 0 where
    pub done_rows : (c : ℕ) → c < ch_nr → IsRow r pr.seg c
    pub cut : IsCut frame_len min_seg_len r pr.seg.segment_len ch_nr pr.seg_nr
    pub sum : sum_from pr.seg_nr 0 (bits_at r pr.seg.segment_len ch_nr) ≡ pr.defined_bits
    pub few : pr.seg_nr ≤ max_nr_of_segs

  -- at every resolution that the frame may still get: any before it is read
  abbrev pub IsSound : ℕ → Progress → Type 0
  IsSound ch_nr pr = (r : ℕ) → (pr.resol_read ≡ true → r ≡ pr.seg.resolution) → IsRound ch_nr pr r

  resolution_choice :
      (ch_nr : ℕ) (pr : Progress) (read : Bool) (sd : StrData) {pr' : Progress} {sd' : StrData}
      → pr.resol_read ≡ read
      → (if read
            then give pr
            else (read_bits (log2_round_up (frame_len - min_seg_len / 8)) >>= λ resolution.
                if resolution == 0 || ltb (frame_len - min_seg_len / 8) resolution
                then fail invalid_segment_resolution
                else give (record pr {
                  seg = record (pr.seg) { resolution = resolution };
                  resol_read = true;
                })))
          sd
        ≡ ok pr' sd'
      → IsSound ch_nr pr
      → IsSound ch_nr pr' × (pr'.resol_read ≡ true) × (pr'.seg_nr ≡ pr.seg_nr)
  resolution_choice ch_nr pr true sd known e sound =
      let (a, b) = ok-injective e in
      subst (λ (x : Progress). IsSound ch_nr x × (x.resol_read ≡ true) × (x.seg_nr ≡ pr.seg_nr)) a
        (sound, known, refl)
  resolution_choice ch_nr pr false sd fresh e sound =
      let (resolution, sd1, e1, e2) = go_on-eq-ok (read_bits _ sd) _ e in
      let bad : Bool = resolution == 0 || ltb (frame_len - min_seg_len / 8) resolution in
      elim (Bool-cases bad) [
        | inl out ↦ absurd (err-ok (rw out at e2))
        | inr fits ↦
            let (a, b) = ok-injective (rw fits at e2) in
            let kept : IsSound ch_nr (record pr {
              seg = record (pr.seg) { resolution = resolution };
              resol_read = true;
            }) =
              (λ r allowed.
                let h = sound r (λ read. cc) in
                record {
                  done_rows = λ c lt.
                      let row = h.done_rows c lt in
                      record { some_segment = row.some_segment; few = row.few; cut = row.cut };
                  cut = h.cut;
                  sum = h.sum;
                  few = h.few;
                }) in
            subst
              (λ (x : Progress). IsSound ch_nr x × (x.resol_read ≡ true) × (x.seg_nr ≡ pr.seg_nr)) a
              (kept, refl, refl)
      ]

  pub read_resolution-IsSound :
      (ch_nr : ℕ) (pr : Progress) (sd : StrData) {pr' : Progress} {sd' : StrData}
      → read_resolution frame_len max_nr_of_segs min_seg_len pr sd ≡ ok pr' sd'
      → IsSound ch_nr pr
      → IsSound ch_nr pr' × (pr'.resol_read ≡ true) × (pr'.seg_nr ≡ pr.seg_nr)
  unfolding read_resolution
  read_resolution-IsSound ch_nr pr sd e sound =
      resolution_choice ch_nr pr pr.resol_read sd refl e sound

  pub add_segment-IsSound :
      (ch_nr len : ℕ) (pr : Progress)
      → max_nr_of_segs ≤ 8
      → pr.seg_nr < max_nr_of_segs
      → pr.resol_read ≡ true
      → min_seg_len ≤ pr.seg.resolution * 8 * len
      → pr.seg.resolution * 8 * len + pr.defined_bits + min_seg_len ≤ frame_len * 8
      → IsSound ch_nr pr
      → IsSound ch_nr (add_segment frame_len max_nr_of_segs min_seg_len ch_nr len pr)
  unfolding add_segment
  add_segment-IsSound ch_nr len pr eight room read enough fits sound r allowed =
      let same : r ≡ pr.seg.resolution = allowed read in
      let h = sound r allowed in
      let lens : ℕ → ℕ = pr.seg.segment_len in
      let lens' : ℕ → ℕ = update lens (cell ch_nr pr.seg_nr) len in
      let bits : r * 8 * len ≡ pr.seg.resolution * 8 * len = ap (λ (x : ℕ). x * 8 * len) same in
      let more =
        IsCut-more frame_len min_seg_len r lens ch_nr pr.seg_nr len (omega (arith, bits, enough))
          (omega (arith, bits, fits, h.sum)) h.cut in
      record {
        done_rows = λ c lt.
            let row = h.done_rows c lt in
            record {
              some_segment = row.some_segment;
              few = row.few;
              cut =
                  IsCut-same frame_len min_seg_len r lens lens' c c (pr.seg.nr_of_segments c - 1)
                    (λ j below.
                      update_off lens (cell ch_nr pr.seg_nr) len (cell c j)
                        (omega (arith, below, lt, row.few, eight)))
                    row.cut;
            };
        cut = more;
        sum = omega (arith, h.sum, bits, bits_at-more r lens ch_nr pr.seg_nr len);
        few = omega (arith, room);
      }

  pub read_segment-IsSound :
      (ch_nr : ℕ) (pr : Progress) (sd : StrData) {pr' : Progress} {sd' : StrData}
      → max_nr_of_segs ≤ 8
      → pr.seg_nr < max_nr_of_segs
      → read_segment frame_len max_nr_of_segs min_seg_len ch_nr pr sd ≡ ok pr' sd'
      → IsSound ch_nr pr
      → IsSound ch_nr pr'
  unfolding read_segment read_length
  read_segment-IsSound ch_nr pr sd eight room e sound =
      let (pr1, sd1, e1, e2) = go_on-eq-ok _ _ e in
      let (sound1, read, same) = read_resolution-IsSound ch_nr pr sd e1 sound in
      let (len, sd2, e3, e4) = go_on-eq-ok (read_bits _ sd1) _ e2 in
      let bits : ℕ = pr1.seg.resolution * 8 * len in
      let less : Bool = ltb bits min_seg_len in
      let over : Bool = ltb (frame_len * 8) (bits + pr1.defined_bits + min_seg_len) in
      elim (Bool-cases (less || over)) [
        | inl out ↦ absurd (err-ok (rw out at e4))
        | inr fits ↦
            let (a, b) = ok-injective (rw fits at e4) in
            let (wide, short) = or-off less over fits in
            subst (IsSound ch_nr) a (
              add_segment-IsSound ch_nr len pr1 eight (omega (arith, room, same)) read
                (ground (arith, wide)) (ground (arith, short)) sound1)
      ]

  pub end_row-IsRow :
      (ch_nr : ℕ) (pr : Progress) (r c : ℕ)
      → max_nr_of_segs ≤ 8
      → IsRound ch_nr pr r
      → c < ch_nr + 1
      → IsRow r (end_row frame_len max_nr_of_segs min_seg_len ch_nr pr) c
  unfolding end_row
  end_row-IsRow ch_nr pr r c eight h lt =
      let nrs : ℕ → ℕ = update pr.seg.nr_of_segments ch_nr (pr.seg_nr + 1) in
      let lens : ℕ → ℕ = pr.seg.segment_len in
      let lens' : ℕ → ℕ = update lens (cell ch_nr pr.seg_nr) 0 in
      elim (dec_lt c ch_nr) [
        | yes before ↦
            let row = h.done_rows c before in
            let nr : nrs c ≡ pr.seg.nr_of_segments c =
              update_off pr.seg.nr_of_segments ch_nr (pr.seg_nr + 1) c before in
            record {
              some_segment = omega (arith, nr, row.some_segment);
              few = omega (arith, nr, row.few);
              cut = rw nr (
                  IsCut-same frame_len min_seg_len r lens lens' c c (pr.seg.nr_of_segments c - 1)
                    (λ j below.
                      update_off lens (cell ch_nr pr.seg_nr) 0 (cell c j)
                        (omega (arith, below, before, row.few, eight)))
                    row.cut);
            }
        | no last ↦
            let here : c ≡ ch_nr = omega (arith, lt, last) in
            let nr : nrs ch_nr ≡ pr.seg_nr + 1 =
              update_at pr.seg.nr_of_segments ch_nr (pr.seg_nr + 1) in
            let one : nrs ch_nr - 1 ≡ pr.seg_nr = omega (arith, nr) in
            rw here record {
              some_segment = omega (arith, nr);
              few = omega (arith, nr, h.few);
              cut = rw one (
                  IsCut-same frame_len min_seg_len r lens lens' ch_nr ch_nr pr.seg_nr
                    (λ j below.
                      update_off lens (cell ch_nr pr.seg_nr) 0 (cell ch_nr j)
                        (omega (arith, below)))
                    h.cut);
            }
      ]

  pub next_channel-IsSound :
      (ch_nr : ℕ) (pr : Progress)
      → max_nr_of_segs ≤ 8
      → min_seg_len ≤ frame_len * 8
      → IsSound ch_nr pr
      → IsSound (ch_nr + 1) (next_channel frame_len max_nr_of_segs min_seg_len ch_nr pr)
  unfolding next_channel end_row
  next_channel-IsSound ch_nr pr eight long sound r allowed = record {
    done_rows = λ c lt. end_row-IsRow ch_nr pr r c eight (sound r allowed) lt;
    cut = IsCut-none frame_len min_seg_len r _ (ch_nr + 1) long;
    sum = refl;
    few = omega arith;
  }
