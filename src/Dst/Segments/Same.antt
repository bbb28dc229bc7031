-- ===== src/Dst/Segments/Same.antt =====
-- Segment tables that differ in the tables of the segments at most.
use sacd_extract.Common.{ℕ, ◌-◌, ◌≤◌, ◌<◌, ◌≡◌, ◌∙◌, arith, refl}
use sacd_extract.Dst.Segments.{Segment, cell}
use sacd_extract.Dst.Segments.Cut.{IsCut, IsCut-same}
use sacd_extract.Dst.Segments.Rounds.{IsRow}

pub record IsSame (s s' : Segment) : Type 0 where
  pub rows : (c : ℕ) → s'.nr_of_segments c ≡ s.nr_of_segments c
  pub lens : (i : ℕ) → s'.segment_len i ≡ s.segment_len i
  pub resolution : s'.resolution ≡ s.resolution

pub IsSame-refl : (s : Segment) → IsSame s s
IsSame-refl s = record { rows = λ c. refl; lens = λ i. refl; resolution = refl }

pub IsSame-trans : (s s' s'' : Segment) → IsSame s s' → IsSame s' s'' → IsSame s s''
IsSame-trans s s' s'' a b = record {
  rows = λ c. b.rows c ∙ a.rows c;
  lens = λ i. b.lens i ∙ a.lens i;
  resolution = b.resolution ∙ a.resolution;
}

module _ (frame_len : ℕ) where
  -- Rows may also be copied, and the bounds on them be wider.
  pub IsRow-wider :
      (most most' least least' : ℕ) (s s' : Segment) (c : ℕ)
      → most ≤ most'
      → least' ≤ least
      → s'.nr_of_segments c ≡ s.nr_of_segments c
      → ((j : ℕ) → j < s.nr_of_segments c → s'.segment_len (cell c j) ≡ s.segment_len (cell c j))
      → s'.resolution ≡ s.resolution
      → IsRow frame_len most least s.resolution s c
      → IsRow frame_len most' least' s'.resolution s' c
  IsRow-wider most most' least least' s s' c more less nr lens resolution row =
      let cut : IsCut frame_len least s.resolution s'.segment_len c (s.nr_of_segments c - 1) =
        IsCut-same frame_len least s.resolution s.segment_len s'.segment_len c c
          (s.nr_of_segments c - 1) (λ j lt. lens j (omega (arith, lt))) row.cut in
      rw resolution record {
        some_segment = omega (arith, nr, row.some_segment);
        few = omega (arith, nr, row.few, more);
        cut = rw nr record {
          long = λ j lt. omega (arith, less, cut.long j lt);
          within = omega (arith, less, cut.within);
        };
      }

  pub IsRow-same :
      (most least : ℕ) (s s' : Segment) (c : ℕ)
      → IsSame s s'
      → IsRow frame_len most least s.resolution s c
      → IsRow frame_len most least s'.resolution s' c
  IsRow-same most least s s' c same row =
      IsRow-wider most most least least s s' c (omega arith) (omega arith) (same.rows c)
        (λ j lt. same.lens (cell c j)) same.resolution row
