-- ===== src/Dst/Mapping/CopySegments.antt =====
-- src/libdstdec/unpack_dst.c: CopySegmentData gives the probability tables the segments of the
-- filters, and reads nothing.
use sacd_extract.Common.{
  ℕ, zero, suc, ◌+◌, ◌*◌, ◌≤◌, ◌<◌, ◌≡◌, sym, ap, ◌∙◌, inl, inr, arith, Bool, ◌&&◌, not, ltb, ◌==◌,
  update, Bool-cases,
}
use native.Mathlib.Decide.{dec_lt}
use sacd_extract.Dst.Stream.{StrData}
use sacd_extract.Dst.Unpack.{ok}
use sacd_extract.Dst.Unpack.Steps.{go_on-eq-ok}
use sacd_extract.Dst.Unpack.Reader.{ok-injective, err-ok}
use sacd_extract.Dst.Segments.{Segment, cell, maxnrof_psegs, min_pseg_len}
use sacd_extract.Dst.Segments.Cut.{update_off, update_at}
use sacd_extract.Dst.Mapping.{Copied, copy_segment_loop, copy_segment_channels}

module _ (f : Segment) where
  -- What the segments from `k` on of a channel do to the lengths of the copy.
  record IsFilled (ch_nr k left : ℕ) (p p' : Segment) : Type 0 where
    below : (i : ℕ) → i < cell ch_nr k → p'.segment_len i ≡ p.segment_len i
    lens :
        (j : ℕ)
        → k ≤ j
        → j < k + left
        → p'.segment_len (cell ch_nr j) ≡ f.segment_len (cell ch_nr j)
    rows : (c : ℕ) → p'.nr_of_segments c ≡ p.nr_of_segments c
    resolution : p'.resolution ≡ p.resolution

  copy_segment_loop-IsFilled :
      (left ch_nr k : ℕ) (pc : Copied) (sd : StrData) {pc' : Copied} {sd' : StrData}
      → copy_segment_loop f left ch_nr k pc sd ≡ ok pc' sd'
      → IsFilled ch_nr k left pc.0 pc'.0 × (sd' ≡ sd)
  unfolding copy_segment_loop
  copy_segment_loop-IsFilled zero ch_nr k pc sd {pc'} e =
      let (a, b) = ok-injective e in
      (
        record {
          below = λ i lt. ap (λ (x : Copied). x.0.segment_len i) (sym a);
          lens = λ j lo hi. absurd (omega (arith, lo, hi));
          rows = λ c. ap (λ (x : Copied). x.0.nr_of_segments c) (sym a);
          resolution = ap (λ (x : Copied). x.0.resolution) (sym a);
        },
        sym b,
      )
  copy_segment_loop-IsFilled (suc left) ch_nr k (p, same) sd e =
      let len : ℕ = f.segment_len (cell ch_nr k) in
      let lens' : ℕ → ℕ = update p.segment_len (cell ch_nr k) len in
      let short : Bool = not (len == 0) && ltb (p.resolution * 8 * len) min_pseg_len in
      elim (Bool-cases short) [
        | inl out ↦ absurd (err-ok (rw out at e))
        | inr fits ↦
            let (h, b) = copy_segment_loop-IsFilled left ch_nr (k + 1) _ sd (rw fits at e) in
            (
              record {
                below = λ i lt.
                    h.below i (omega (arith, lt))
                    ∙ update_off p.segment_len (cell ch_nr k) len i lt;
                lens = λ j lo hi. elim (dec_lt k j) [
                  | yes later ↦ h.lens j (omega (arith, later)) (omega (arith, hi))
                  | no now ↦
                      let here : j ≡ k = omega (arith, lo, now) in
                      rw here (
                        h.below (cell ch_nr k) (omega arith)
                        ∙ update_at p.segment_len (cell ch_nr k) len)
                ];
                rows = h.rows;
                resolution = h.resolution;
              },
              b,
            )
      ]

  -- channel `c` of the copy has the segments of the filters, at most 8 of them
  pub record IsCopy (p : Segment) (c : ℕ) : Type 0 where
    pub rows : p.nr_of_segments c ≡ f.nr_of_segments c
    pub few : f.nr_of_segments c ≤ 8
    pub lens :
        (j : ℕ) → j < f.nr_of_segments c → p.segment_len (cell c j) ≡ f.segment_len (cell c j)

  pub copy_segment_channels-IsCopy :
      (left ch_nr : ℕ) (pc : Copied) (sd : StrData) {pc' : Copied} {sd' : StrData}
      → ((c : ℕ) → c < ch_nr → IsCopy pc.0 c)
      → copy_segment_channels f left ch_nr pc sd ≡ ok pc' sd'
      → ((c : ℕ) → c < ch_nr + left → IsCopy pc'.0 c)
        × (pc'.0.resolution ≡ pc.0.resolution)
        × (sd' ≡ sd)
  unfolding copy_segment_channels
  copy_segment_channels-IsCopy zero ch_nr pc sd done e =
      let (a, b) = ok-injective e in
      (
        rw (← a) (λ c lt. done c (omega (arith, lt))),
        ap (λ (x : Copied). x.0.resolution) (sym a),
        sym b,
      )
  copy_segment_channels-IsCopy (suc left) ch_nr (p, same) sd {pc'} done e =
      let nr : ℕ = f.nr_of_segments ch_nr in
      let nrs : ℕ → ℕ = update p.nr_of_segments ch_nr nr in
      elim (Bool-cases (ltb maxnrof_psegs nr)) [
        | inl out ↦ absurd (err-ok (rw out at e))
        | inr fits ↦
            let (pc1, sd1, e1, e2) = go_on-eq-ok _ _ (rw fits at e) in
            let (h, b) = copy_segment_loop-IsFilled nr ch_nr 0 _ sd e1 in
            let next : (c : ℕ) → c < ch_nr + 1 → IsCopy pc1.0 c = (λ c lt. elim (dec_lt c ch_nr) [
              | yes before ↦
                  let old = done c before in
                  record {
                    rows = h.rows c ∙ update_off p.nr_of_segments ch_nr nr c before ∙ old.rows;
                    few = old.few;
                    lens = λ j below.
                        h.below (cell c j) (omega (arith, below, old.few, before))
                        ∙ old.lens j below;
                  }
              | no last ↦
                  let here : c ≡ ch_nr = omega (arith, lt, last) in
                  rw here record {
                    rows = h.rows ch_nr ∙ update_at p.nr_of_segments ch_nr nr;
                    few = ground (arith, fits);
                    lens = λ j below. h.lens j (omega arith) (omega (arith, below));
                  }
            ]) in
            let (all, same_resolution, b') =
              copy_segment_channels-IsCopy left (ch_nr + 1) pc1 sd1 next e2 in
            ((λ c lt. all c (omega (arith, lt))), same_resolution ∙ h.resolution, b' ∙ b)
      ]
