-- ===== src/Dst/Mapping/CopyNumbers.antt =====
-- src/libdstdec/unpack_dst.c: CopyMappingData gives the segments of the probability tables the
-- numbers that those of the filters have, and reads nothing.
use sacd_extract.Common.{
  ℕ, zero, suc, ◌+◌, ◌≤◌, ◌<◌, ◌≡◌, refl, sym, ◌∙◌, inl, inr, arith, ◌==◌, Bool-cases,
}
use native.Mathlib.Decide.{dec_lt}
use sacd_extract.Dst.Stream.{StrData}
use sacd_extract.Dst.Unpack.{ok}
use sacd_extract.Dst.Unpack.Reader.{ok-injective, err-ok}
use sacd_extract.Dst.Segments.{Segment, cell}
use sacd_extract.Dst.Segments.Cut.{update_off, update_at}
use sacd_extract.Dst.Segments.Same.{IsSame, IsSame-refl, IsSame-trans}
use sacd_extract.Dst.Mapping.{Copied, copy_mapping_loop, copy_mapping_channels}

module _ (f : Segment) where
  copy_mapping_loop-IsSame :
      (left ch_nr k : ℕ) (pc : Copied) → IsSame pc.0 (copy_mapping_loop f left ch_nr k pc).0
  unfolding copy_mapping_loop
  copy_mapping_loop-IsSame zero ch_nr k pc = IsSame-refl pc.0
  copy_mapping_loop-IsSame (suc left) ch_nr k (p, same) =
      let h = copy_mapping_loop-IsSame left ch_nr (k + 1) _ in
      record { rows = h.rows; lens = h.lens; resolution = h.resolution }

  copy_mapping_loop-below :
      (left ch_nr k : ℕ) (pc : Copied) (i : ℕ)
      → i < cell ch_nr k
      → (copy_mapping_loop f left ch_nr k pc).0.table4segment i ≡ pc.0.table4segment i
  unfolding copy_mapping_loop
  copy_mapping_loop-below zero ch_nr k pc i lt = refl
  copy_mapping_loop-below (suc left) ch_nr k (p, same) i lt =
      copy_mapping_loop-below left ch_nr (k + 1) _ i (omega (arith, lt))
      ∙ update_off p.table4segment (cell ch_nr k) (f.table4segment (cell ch_nr k)) i lt

  copy_mapping_loop-copied :
      (left ch_nr k : ℕ) (pc : Copied) (j : ℕ)
      → k ≤ j
      → j < k + left
      → (copy_mapping_loop f left ch_nr k pc).0.table4segment (cell ch_nr j)
        ≡ f.table4segment (cell ch_nr j)
  unfolding copy_mapping_loop
  copy_mapping_loop-copied zero ch_nr k pc j lo hi = absurd (omega (arith, lo, hi))
  copy_mapping_loop-copied (suc left) ch_nr k (p, same) j lo hi = elim (dec_lt k j) [
    | yes later ↦
        copy_mapping_loop-copied left ch_nr (k + 1) _ j (omega (arith, later)) (omega (arith, hi))
    | no now ↦
        let here : j ≡ k = omega (arith, lo, now) in
        rw here (
          copy_mapping_loop-below left ch_nr (k + 1) _ (cell ch_nr k) (omega arith)
          ∙ update_at p.table4segment (cell ch_nr k) (f.table4segment (cell ch_nr k)))
  ]

  -- the numbers of channel `c` are those of the filters
  abbrev pub HasNumbers : Segment → ℕ → Type 0
  HasNumbers p c =
      (j : ℕ) → j < f.nr_of_segments c → p.table4segment (cell c j) ≡ f.table4segment (cell c j)

  pub copy_mapping_channels-HasNumbers :
      (left ch_nr : ℕ) (pc : Copied) (sd : StrData) {pc' : Copied} {sd' : StrData}
      → ((c : ℕ) → c < ch_nr + left → f.nr_of_segments c ≤ 8)
      → ((c : ℕ) → c < ch_nr → HasNumbers pc.0 c × (pc.0.nr_of_segments c ≡ f.nr_of_segments c))
      → copy_mapping_channels f left ch_nr pc sd ≡ ok pc' sd'
      → ((c : ℕ)
          → c < ch_nr + left
          → HasNumbers pc'.0 c × (pc'.0.nr_of_segments c ≡ f.nr_of_segments c))
        × IsSame pc.0 pc'.0
        × (sd' ≡ sd)
  unfolding copy_mapping_channels
  copy_mapping_channels-HasNumbers zero ch_nr pc sd few done e =
      let (a, b) = ok-injective e in
      (rw (← a) (λ c lt. done c (omega (arith, lt))), rw (← a) (IsSame-refl pc.0), sym b)
  copy_mapping_channels-HasNumbers (suc left) ch_nr pc sd few done e =
      elim (Bool-cases (pc.0.nr_of_segments ch_nr == f.nr_of_segments ch_nr)) [
        | inr out ↦ absurd (err-ok (rw out at e))
        | inl equal ↦
            let nr : ℕ = f.nr_of_segments ch_nr in
            let pc1 : Copied = copy_mapping_loop f nr ch_nr 0 pc in
            let kept : IsSame pc.0 pc1.0 = copy_mapping_loop-IsSame nr ch_nr 0 pc in
            let next : (c : ℕ)
                → c < ch_nr + 1
                → HasNumbers pc1.0 c × (pc1.0.nr_of_segments c ≡ f.nr_of_segments c) =
              (λ c lt. elim (dec_lt c ch_nr) [
                | yes before ↦
                    let (numbers, rows) = done c before in
                    (
                      (λ j below.
                          copy_mapping_loop-below nr ch_nr 0 pc (cell c j)
                            (omega (arith, below, before, few c (omega (arith, before))))
                          ∙ numbers j below),
                      kept.rows c ∙ rows,
                    )
                | no last ↦
                    let here : c ≡ ch_nr = omega (arith, lt, last) in
                    rw here (
                      (λ j below.
                          copy_mapping_loop-copied nr ch_nr 0 pc j (omega arith)
                            (omega (arith, below))),
                      kept.rows ch_nr ∙ ground (arith, equal),
                    )
              ]) in
            let (all, same, b) =
              copy_mapping_channels-HasNumbers left (ch_nr + 1) pc1 sd
                (λ c lt. few c (omega (arith, lt))) next (rw equal at e) in
            ((λ c lt. all c (omega (arith, lt))), IsSame-trans pc.0 pc1.0 _ kept same, b)
      ]
