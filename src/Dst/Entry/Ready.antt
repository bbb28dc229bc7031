-- ===== src/Dst/Entry/Ready.antt =====
-- src/libdstdec/unpack_dst.c: when the header of a frame is ready for the decoding.
use sacd_extract.Common.{ℕ, ◌-◌, ◌*◌, ◌≤◌, ◌<◌, ◌≡◌, refl, ◌∙◌, arith}
use sacd_extract.Dst.Stream.{Memory}
use sacd_extract.Dst.Segments.{Segment}
use sacd_extract.Dst.Segments.Rounds.{IsRow}
use sacd_extract.Dst.Coefs.{Filters}
use sacd_extract.Dst.Ptables.{Ptables}
use sacd_extract.Dst.Ptables.Range.{IsTable}
use sacd_extract.Dst.Header.{FrameHeader}
use sacd_extract.Dst.Frame.{max_dsdbits_inframe}
use sacd_extract.Dst.Frame.Tables.{IsFitting, segment_at, segment_at-le, table_of}
use sacd_extract.Dst.Frame.Whole.{IsReady}
use sacd_extract.Dst.Entry.{dst_init_header}
use sacd_extract.Dst.Entry.Segments.{IsKept}
use sacd_extract.Dst.Entry.Numbers.{IsMapped, HasTables}

-- What DST_InitDecoder leaves for a stream of 64 * 44.1 kHz, whose frames MAX_DSDBITS_INFRAME is the
-- size of.
pub record IsInitialised (fh : FrameHeader) : Type 0 where
  pub some_channel : 1 ≤ fh.nr_of_channels
  pub channels : fh.nr_of_channels ≤ 6
  pub long : 128 ≤ fh.max_frame_len
  pub bits : fh.nr_of_bits_per_ch ≡ fh.max_frame_len * 8
  pub size : fh.nr_of_bits_per_ch ≤ max_dsdbits_inframe

pub dst_init_header-IsInitialised :
    (n : ℕ) (cleared : FrameHeader) → 1 ≤ n → n ≤ 6 → IsInitialised (dst_init_header n 64 cleared)
unfolding dst_init_header
dst_init_header-IsInitialised n cleared one six = record {
  some_channel = one;
  channels = six;
  long = omega arith;
  bits = refl;
  size = omega arith;
}

row-IsFitting :
    (frame_len most least bits : ℕ) (s : Segment) (c : ℕ)
    → bits ≡ frame_len * 8
    → IsRow frame_len most least s.resolution s c
    → IsFitting s bits c
unfolding IsFitting
row-IsFitting frame_len most least bits s c e row = omega (arith, e, row.cut.within)

row_table :
    (frame_len most least bits n tables : ℕ) (s : Segment) (c b : ℕ)
    → c < n
    → IsRow frame_len most least s.resolution s c
    → HasTables n tables s
    → table_of s bits c b < tables
row_table frame_len most least bits n tables s c b lt row numbers =
    let j : ℕ = segment_at s c (s.nr_of_segments c - 1) 0 b in
    let below : j < s.nr_of_segments c =
      omega (arith, row.some_segment, segment_at-le s c (s.nr_of_segments c - 1) 0 b) in
    omega (arith, numbers c j lt below)

mapped-IsReady :
    (m : Memory) (t : ℕ) (fh : FrameHeader) (pt : Ptables)
    → IsInitialised fh
    → IsMapped fh
    → ((f : ℕ) → f < fh.nr_of_filters → fh.pred_order f ≤ 128)
    → ((k : ℕ) → k < fh.nr_of_ptables → IsTable m t pt k)
    → IsReady (record fh { ptable_len = pt.ptable_len }) pt.p_one
mapped-IsReady m t fh pt init mapped orders tables =
    let len : ℕ = fh.max_frame_len in
    let bits : ℕ = fh.nr_of_bits_per_ch in
    let n : ℕ = fh.nr_of_channels in
    let ptable : (c b : ℕ) → c < n → table_of fh.p_seg bits c b < fh.nr_of_ptables = λ c b lt.
      row_table len _ _ bits n fh.nr_of_ptables fh.p_seg c b lt (mapped.segments.tables c lt)
        mapped.tables in
    record {
      order = orders;
      size = init.size;
      f_fits =
          λ c lt. row-IsFitting len _ _ bits fh.f_seg c init.bits (mapped.segments.filters c lt);
      p_fits =
          λ c lt. row-IsFitting len _ _ bits fh.p_seg c init.bits (mapped.segments.tables c lt);
      filter = λ c b lt below.
          row_table len _ _ bits n fh.nr_of_filters fh.f_seg c b lt (mapped.segments.filters c lt)
            mapped.filters;
      table = λ c b lt below. (tables _ (ptable c b lt)).0;
      least = λ c b row lt below inside. ((tables _ (ptable c b lt)).2 row inside).0;
      most = λ c b row lt below inside. ((tables _ (ptable c b lt)).2 row inside).1;
    }

pub IsKept-trans : (a b c : FrameHeader) → IsKept a b → IsKept b c → IsKept a c
IsKept-trans a b c k l = record {
  channels = l.channels ∙ k.channels;
  frame_len = l.frame_len ∙ k.frame_len;
  bits = l.bits ∙ k.bits;
  code_bits = l.code_bits ∙ k.code_bits;
}

pub kept-IsInitialised : (a b : FrameHeader) → IsInitialised a → IsKept a b → IsInitialised b
kept-IsInitialised a b init kept = record {
  some_channel = omega (arith, kept.channels, init.some_channel);
  channels = omega (arith, kept.channels, init.channels);
  long = omega (arith, kept.frame_len, init.long);
  bits = omega (arith, kept.bits, kept.frame_len, init.bits);
  size = omega (arith, kept.bits, init.size);
}

module _ (m : Memory) (t : ℕ) where
  -- The filters of a frame change nothing that the tables for the bits hang on.
  pub filled-IsReady :
      (fh : FrameHeader) (fl : Filters) (half : ℕ → ℕ) (pt : Ptables)
      → IsInitialised fh
      → IsMapped fh
      → ((f : ℕ) → f < fh.nr_of_filters → fl.pred_order f ≤ 128)
      → ((k : ℕ) → k < fh.nr_of_ptables → IsTable m t pt k)
      → IsReady
          (record fh {
            pred_order = fl.pred_order;
            i_coef_a = fl.i_coef_a;
            nr_of_half_bits = half;
            ptable_len = pt.ptable_len;
          })
          pt.p_one
  filled-IsReady fh fl half pt init mapped orders tables =
      let h =
        mapped-IsReady m t (record fh { pred_order = fl.pred_order }) pt
          (kept-IsInitialised fh _ init
            (record { channels = refl; frame_len = refl; bits = refl; code_bits = refl }))
          (record {
            segments = record {
              filters = mapped.segments.filters;
              tables = mapped.segments.tables;
            };
            filters = mapped.filters;
            tables = mapped.tables;
          })
          orders tables in
      record {
        order = h.order;
        size = h.size;
        f_fits = h.f_fits;
        p_fits = h.p_fits;
        filter = h.filter;
        table = h.table;
        least = h.least;
        most = h.most;
      }
