-- ===== src/Dst/Segments/Cut.antt =====
-- src/libdstdec/unpack_dst.c: segments of one channel that are long enough and fit into the frame.
use sacd_extract.Common.{
  ℕ, zero, suc, ◌+◌, ◌*◌, ◌≤◌, ◌<◌, ◌≡◌, refl, ap, ap₂, inl, inr, arith, ◌==◌, update, Bool-cases,
}
use native.Mathlib.Decide.{dec_lt}
use native.Mathlib.Nat.{zero-add}
use sacd_extract.Dst.Filter.Patterns.{sum_from, sum_from-add}
use sacd_extract.Dst.Segments.{cell}

pub sum_from_last : (k : ℕ) (f : ℕ → ℕ) → sum_from (k + 1) 0 f ≡ sum_from k 0 f + f k
sum_from_last k f = omega (arith, sum_from-add k 1 0 f, ap f (zero-add k))

pub sum_from_same :
    (left n : ℕ) (f g : ℕ → ℕ)
    → ((j : ℕ) → j < n + left → f j ≡ g j)
    → sum_from left n f ≡ sum_from left n g
sum_from_same zero n f g h = refl
sum_from_same (suc left) n f g h =
    ap₂ (λ (x y : ℕ). x + y) (h n (omega arith))
      (sum_from_same left (n + 1) f g (λ j lt. h j (omega (arith, lt))))

-- the bits of a segment, with the resolution apart
abbrev pub bits_at : ℕ → (ℕ → ℕ) → ℕ → ℕ → ℕ
bits_at r lens ch_nr seg_nr = r * 8 * lens (cell ch_nr seg_nr)

pub update_off : (lens : ℕ → ℕ) (i v j : ℕ) → j < i → update lens i v j ≡ lens j
update_off lens i v j lt = elim (Bool-cases (i == j)) [
  | inl e ↦ absurd (ground (arith, e, lt))
  | inr e ↦ rw (e, update)
]

pub update_at : (lens : ℕ → ℕ) (i v : ℕ) → update lens i v i ≡ v
update_at lens i v = elim (Bool-cases (i == i)) [
  | inl e ↦ rw (e, update)
  | inr e ↦ absurd (ground (arith, e))
]

pub bits_at-more :
    (r : ℕ) (lens : ℕ → ℕ) (ch_nr k len : ℕ)
    → sum_from (k + 1) 0 (bits_at r (update lens (cell ch_nr k) len) ch_nr)
      ≡ sum_from k 0 (bits_at r lens ch_nr) + r * 8 * len
bits_at-more r lens ch_nr k len =
    let lens' : ℕ → ℕ = update lens (cell ch_nr k) len in
    let at : bits_at r lens' ch_nr k ≡ r * 8 * len =
      ap (λ (x : ℕ). r * 8 * x) (update_at lens (cell ch_nr k) len) in
    let e = sum_from_same k 0 (bits_at r lens' ch_nr) (bits_at r lens ch_nr) (λ j lt.
      ap (λ (x : ℕ). r * 8 * x)
        (update_off lens (cell ch_nr k) len (cell ch_nr j) (omega (arith, lt)))) in
    omega (arith, e, at, sum_from_last k (bits_at r lens' ch_nr))

module _ (frame_len min_seg_len : ℕ) where
  -- The first `k` segments of a channel have at least MinSegLen bits each, and leave as many bits
  -- of the frame to the segment behind them.
  pub record IsCut (r : ℕ) (lens : ℕ → ℕ) (ch_nr k : ℕ) : Type 0 where
    pub long : (j : ℕ) → j < k → min_seg_len ≤ bits_at r lens ch_nr j
    pub within : sum_from k 0 (bits_at r lens ch_nr) + min_seg_len ≤ frame_len * 8

  pub IsCut-none :
      (r : ℕ) (lens : ℕ → ℕ) (ch_nr : ℕ) → min_seg_len ≤ frame_len * 8 → IsCut r lens ch_nr 0
  IsCut-none r lens ch_nr h = record {
    long = λ j lt. absurd (omega (arith, lt));
    within = omega (arith, h);
  }

  pub IsCut-same :
      (r : ℕ) (lens lens' : ℕ → ℕ) (ch_nr ch_nr' k : ℕ)
      → ((j : ℕ) → j < k → lens' (cell ch_nr' j) ≡ lens (cell ch_nr j))
      → IsCut r lens ch_nr k
      → IsCut r lens' ch_nr' k
  IsCut-same r lens lens' ch_nr ch_nr' k same cut = record {
    long = λ j lt. rw (same j lt) (cut.long j lt);
    within =
        let e =
          sum_from_same k 0 (bits_at r lens' ch_nr') (bits_at r lens ch_nr)
            (λ j lt. ap (λ (x : ℕ). r * 8 * x) (same j (omega (arith, lt)))) in
        omega (arith, e, cut.within);
  }

  pub IsCut-more :
      (r : ℕ) (lens : ℕ → ℕ) (ch_nr k len : ℕ)
      → min_seg_len ≤ r * 8 * len
      → sum_from k 0 (bits_at r lens ch_nr) + r * 8 * len + min_seg_len ≤ frame_len * 8
      → IsCut r lens ch_nr k
      → IsCut r (update lens (cell ch_nr k) len) ch_nr (k + 1)
  IsCut-more r lens ch_nr k len enough fits cut =
      let lens' : ℕ → ℕ = update lens (cell ch_nr k) len in
      let old : (j : ℕ) → j < k → lens' (cell ch_nr j) ≡ lens (cell ch_nr j) =
        λ j lt. update_off lens (cell ch_nr k) len (cell ch_nr j) (omega (arith, lt)) in
      let at : bits_at r lens' ch_nr k ≡ r * 8 * len =
        ap (λ (x : ℕ). r * 8 * x) (update_at lens (cell ch_nr k) len) in
      let before : IsCut r lens' ch_nr k = IsCut-same r lens lens' ch_nr ch_nr k old cut in
      record {
        long = λ j lt. elim (dec_lt j k) [
          | yes below ↦ before.long j below
          | no last ↦ let here : j ≡ k = omega (arith, lt, last) in rw here (rw at enough)
        ];
        within = omega (arith, fits, bits_at-more r lens ch_nr k len);
      }
