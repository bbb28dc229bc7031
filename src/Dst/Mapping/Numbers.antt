-- ===== src/Dst/Mapping/Numbers.antt =====
-- The tables that the segments of an accepted frame use.
use sacd_extract.Common.{ℕ, ◌+◌, ◌≤◌, ◌<◌, ◌≡◌, ◌⊎◌, inl, inr, arith, ltb, ◌==◌, Bool-cases}
use sacd_extract.Dst.Stream.{StrData}
use sacd_extract.Dst.Unpack.{ok, read_bits}
use sacd_extract.Dst.Unpack.Steps.{go_on-eq-ok}
use sacd_extract.Dst.Unpack.Reader.{ok-injective, err-ok}
use sacd_extract.Dst.Rice.{log2_round_up}
use sacd_extract.Dst.Segments.{Segment, cell}
use sacd_extract.Dst.Mapping.{Counted, set_table, read_number}

-- The cells of `P` have tables below `count`, and the segments, their lengths and their resolution are those of `s`.
pub record IsNumbered (s : Segment) (P : ℕ → Type 0) (sc : Counted) : Type 0 where
  pub below : (i : ℕ) → P i → sc.0.table4segment i < sc.1
  pub same : (c : ℕ) → sc.0.nr_of_segments c ≡ s.nr_of_segments c
  pub same_len : (i : ℕ) → sc.0.segment_len i ≡ s.segment_len i
  pub same_resolution : sc.0.resolution ≡ s.resolution
  pub some_table : 1 ≤ sc.1

pub narrow :
    {s : Segment} {P Q : ℕ → Type 0} (sc : Counted)
    → ((i : ℕ) → Q i → P i)
    → IsNumbered s P sc
    → IsNumbered s Q sc
narrow sc f n = record {
  below = λ i q. n.below i (f i q);
  same = n.same;
  same_len = n.same_len;
  same_resolution = n.same_resolution;
  some_table = n.some_table;
}

pub written :
    {s : Segment} {P : ℕ → Type 0} (sc : Counted) (at v count : ℕ)
    → IsNumbered s P sc
    → v < count
    → sc.1 ≤ count
    → IsNumbered s (λ i. P i ⊎ (i ≡ at)) (set_table sc.0 at v, count)
written sc at v count n h k = record {
  below = λ i p. elim (Bool-cases (at == i)) [
    | inl here ↦ rw here h
    | inr off ↦ elim p [
      | inl old ↦ rw off (omega (arith, n.below i old))
      | inr new ↦ absurd (ground (arith, off, new))
    ]
  ];
  same = n.same;
  same_len = n.same_len;
  same_resolution = n.same_resolution;
  some_table = omega (arith, n.some_table);
}

module _ {s : Segment} where
  pub read_number-IsNumbered :
      {P : ℕ → Type 0} (at : ℕ) (sc : Counted) (sd : StrData) {sc' : Counted} {sd' : StrData}
      → IsNumbered s P sc
      → read_number at sc sd ≡ ok sc' sd'
      → IsNumbered s (λ i. P i ⊎ (i ≡ at)) sc'
  unfolding read_number
  read_number-IsNumbered at sc sd n e =
      let (v, sd1, e1, e2) = go_on-eq-ok (read_bits (log2_round_up sc.1) sd) _ e in
      elim (Bool-cases (v == sc.1)) [
        | inl new ↦
            let (a, b) = ok-injective (rw new at e2) in
            rw (← a) (written sc at v (sc.1 + 1) n (ground (arith, new)) (omega arith))
        | inr old ↦
            let e3 = rw old at e2 in
            elim (Bool-cases (ltb sc.1 v)) [
              | inl out ↦ absurd (err-ok (rw out at e3))
              | inr known ↦
                  let (a, b) = ok-injective (rw known at e3) in
                  rw (← a) (written sc at v sc.1 n (ground (arith, old, known)) (omega arith))
            ]
      ]

-- the cells of segments `k` to `k + left - 1` of channel `c`
abbrev pub IsRow : ℕ → ℕ → ℕ → ℕ → Type 0
IsRow c k left i = (j : ℕ) × (i ≡ cell c j) × (k ≤ j) × (j < k + left)
