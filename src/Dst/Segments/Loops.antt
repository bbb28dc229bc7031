-- ===== src/Dst/Segments/Loops.antt =====
-- src/libdstdec/unpack_dst.c: the loops of ReadTableSegmentData keep the segments of the channels cut.
use sacd_extract.Common.{
  ℕ, zero, suc, ◌+◌, ◌-◌, ◌*◌, ◌≤◌, ◌<◌, ◌≡◌, refl, sym, ap, ◌∙◌, inl, inr, arith, ltb, leb, ◌==◌,
  update, Bool-cases,
}
use native.Mathlib.Decide.{dec_lt}
use mathlib.Core.Path.{subst}
use sacd_extract.Dst.Stream.{StrData}
use sacd_extract.Dst.Unpack.{ok, read_bits}
use sacd_extract.Dst.Unpack.Steps.{go_on-eq-ok}
use sacd_extract.Dst.Unpack.Reader.{ok-injective, err-ok, stuck-ok}
use sacd_extract.Dst.Segments.{
  Segment, Progress, cell, shared_loop, channels_loop, copy_lens, copy_channels,
}
use sacd_extract.Dst.Segments.Cut.{IsCut-same, update_off, update_at}
use sacd_extract.Dst.Segments.Rounds.{IsRow, IsSound, read_segment-IsSound, next_channel-IsSound}

module _ (frame_len max_nr_of_segs min_seg_len : ℕ) (eight : max_nr_of_segs ≤ 8)
    (long : min_seg_len ≤ frame_len * 8) where
  pub shared_loop-IsSound :
      (fuel end : ℕ) (pr : Progress) (sd : StrData) {pr' : Progress} {sd' : StrData}
      → shared_loop frame_len max_nr_of_segs min_seg_len fuel end pr sd ≡ ok pr' sd'
      → IsSound frame_len max_nr_of_segs min_seg_len 0 pr
      → IsSound frame_len max_nr_of_segs min_seg_len 0 pr'
  unfolding shared_loop
  shared_loop-IsSound zero end pr sd e sound = absurd (stuck-ok e)
  shared_loop-IsSound (suc fuel) end pr sd e sound = elim (Bool-cases (end == 0)) [
    | inr over ↦
        let (a, b) = ok-injective (rw over at e) in
        subst (IsSound frame_len max_nr_of_segs min_seg_len 0) a sound
    | inl more ↦ elim (Bool-cases (leb max_nr_of_segs pr.seg_nr)) [
      | inl full ↦ absurd (err-ok (rw (more, full) at e))
      | inr room ↦
          let (pr1, sd1, e1, e2) = go_on-eq-ok _ _ (rw (more, room) at e) in
          let (end', sd2, e3, e4) = go_on-eq-ok (read_bits 1 sd1) _ e2 in
          let sound1 =
            read_segment-IsSound frame_len max_nr_of_segs min_seg_len 0 pr sd eight
              (ground (arith, room)) e1 sound in
          shared_loop-IsSound fuel end' pr1 sd2 e4 sound1
    ]
  ]

  pub channels_loop-IsSound :
      (fuel n ch_nr : ℕ) (pr : Progress) (sd : StrData) {pr' : Progress} {sd' : StrData}
      → ch_nr ≤ n
      → channels_loop frame_len max_nr_of_segs min_seg_len fuel n ch_nr pr sd ≡ ok pr' sd'
      → IsSound frame_len max_nr_of_segs min_seg_len ch_nr pr
      → IsSound frame_len max_nr_of_segs min_seg_len n pr'
  unfolding channels_loop
  channels_loop-IsSound zero n ch_nr pr sd le e sound = absurd (stuck-ok e)
  channels_loop-IsSound (suc fuel) n ch_nr pr sd {pr'} le e sound =
      elim (Bool-cases (ltb ch_nr n)) [
        | inr over ↦
            let (a, b) = ok-injective (rw over at e) in
            let at : ch_nr ≡ n = ground (arith, over, le) in
            rw (← at) (subst (IsSound frame_len max_nr_of_segs min_seg_len ch_nr) a sound)
        | inl more ↦ elim (Bool-cases (leb max_nr_of_segs pr.seg_nr)) [
          | inl full ↦ absurd (err-ok (rw (more, full) at e))
          | inr room ↦
              let (end, sd1, e1, e2) = go_on-eq-ok (read_bits 1 sd) _ (rw (more, room) at e) in
              elim (Bool-cases (end == 0)) [
                | inl again ↦
                    let (pr1, sd2, e3, e4) = go_on-eq-ok _ _ (rw again at e2) in
                    let sound1 =
                      read_segment-IsSound frame_len max_nr_of_segs min_seg_len ch_nr pr sd1 eight
                        (ground (arith, room)) e3 sound in
                    channels_loop-IsSound fuel n ch_nr pr1 sd2 le e4 sound1
                | inr done ↦
                    let sound1 =
                      next_channel-IsSound frame_len max_nr_of_segs min_seg_len ch_nr pr eight long
                        sound in
                    channels_loop-IsSound fuel n (ch_nr + 1) _ sd1 (ground (arith, more))
                      (rw done at e2) sound1
              ]
        ]
      ]

  copy_lens-below :
      (left seg_nr ch_nr : ℕ) (lens : ℕ → ℕ) (i : ℕ)
      → i < cell ch_nr seg_nr
      → copy_lens frame_len max_nr_of_segs min_seg_len left seg_nr ch_nr lens i ≡ lens i
  unfolding copy_lens
  copy_lens-below zero seg_nr ch_nr lens i lt = refl
  copy_lens-below (suc left) seg_nr ch_nr lens i lt =
      let lens' : ℕ → ℕ = update lens (cell ch_nr seg_nr) (lens (cell 0 seg_nr)) in
      copy_lens-below left (seg_nr + 1) ch_nr lens' i (omega (arith, lt))
      ∙ update_off lens (cell ch_nr seg_nr) (lens (cell 0 seg_nr)) i lt

  copy_lens-copied :
      (left seg_nr ch_nr : ℕ) (lens : ℕ → ℕ) (j : ℕ)
      → 1 ≤ ch_nr
      → j < 8
      → seg_nr ≤ j
      → j < seg_nr + left
      → copy_lens frame_len max_nr_of_segs min_seg_len left seg_nr ch_nr lens (cell ch_nr j)
        ≡ lens (cell 0 j)
  unfolding copy_lens
  copy_lens-copied zero seg_nr ch_nr lens j later small from to = absurd (omega (arith, from, to))
  copy_lens-copied (suc left) seg_nr ch_nr lens j later small from to =
      let v : ℕ = lens (cell 0 seg_nr) in
      let lens' : ℕ → ℕ = update lens (cell ch_nr seg_nr) v in
      elim (dec_lt seg_nr j) [
        | yes after ↦
            copy_lens-copied left (seg_nr + 1) ch_nr lens' j later small (omega (arith, after))
              (omega (arith, to))
            ∙ update_off lens (cell ch_nr seg_nr) v (cell 0 j) (omega (arith, later, small))
        | no now ↦
            let here : seg_nr ≡ j = omega (arith, now, from) in
            copy_lens-below left (seg_nr + 1) ch_nr lens' (cell ch_nr j) (omega (arith, here))
            ∙ ap (λ (x : ℕ). lens' (cell ch_nr x)) (sym here)
            ∙ update_at lens (cell ch_nr seg_nr) v
            ∙ ap (λ (x : ℕ). lens (cell 0 x)) here
      ]

  pub copy_channels-IsRow :
      (left ch_nr : ℕ) (s : Segment) (r : ℕ)
      → 1 ≤ ch_nr
      → ((c : ℕ) → c < ch_nr → IsRow frame_len max_nr_of_segs min_seg_len r s c)
      → (c : ℕ) → c < ch_nr + left
      → IsRow frame_len max_nr_of_segs min_seg_len r
          (copy_channels frame_len max_nr_of_segs min_seg_len left ch_nr s)
          c
  unfolding copy_channels
  copy_channels-IsRow zero ch_nr s r later rows c lt = rows c (omega (arith, lt))
  copy_channels-IsRow (suc left) ch_nr s r later rows c lt =
      let nr : ℕ = s.nr_of_segments 0 in
      let nrs : ℕ → ℕ = update s.nr_of_segments ch_nr nr in
      let lens' : ℕ → ℕ = copy_lens frame_len max_nr_of_segs min_seg_len nr 0 ch_nr s.segment_len in
      let s' : Segment = record s { nr_of_segments = nrs; segment_len = lens' } in
      copy_channels-IsRow left (ch_nr + 1) s' r (omega (arith, later))
        (λ d below. elim (dec_lt d ch_nr) [
          | yes before ↦
              let row = rows d before in
              let same : nrs d ≡ s.nr_of_segments d =
                update_off s.nr_of_segments ch_nr nr d before in
              record {
                some_segment = omega (arith, same, row.some_segment);
                few = omega (arith, same, row.few);
                cut = rw same (
                    IsCut-same frame_len min_seg_len r s.segment_len lens' d d
                      (s.nr_of_segments d - 1)
                      (λ j k.
                        copy_lens-below nr 0 ch_nr s.segment_len (cell d j)
                          (omega (arith, k, before, row.few, eight)))
                      row.cut);
              }
          | no last ↦
              let here : d ≡ ch_nr = omega (arith, below, last) in
              let row = rows 0 (omega (arith, later)) in
              let same : nrs ch_nr ≡ nr = update_at s.nr_of_segments ch_nr nr in
              rw here record {
                some_segment = omega (arith, same, row.some_segment);
                few = omega (arith, same, row.few);
                cut = rw same (
                    IsCut-same frame_len min_seg_len r s.segment_len lens' 0 ch_nr (nr - 1)
                      (λ j k.
                        copy_lens-copied nr 0 ch_nr s.segment_len j later
                          (omega (arith, k, row.few, eight)) (omega arith) (omega (arith, k)))
                      row.cut);
              }
        ])
        c (omega (arith, lt))

  pub copy_channels_resolution :
      (left ch_nr : ℕ) (s : Segment)
      → (copy_channels frame_len max_nr_of_segs min_seg_len left ch_nr s).resolution ≡ s.resolution
  unfolding copy_channels
  copy_channels_resolution zero ch_nr s = refl
  copy_channels_resolution (suc left) ch_nr s = copy_channels_resolution left (ch_nr + 1) _
