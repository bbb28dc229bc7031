-- ===== src/Dst/Entry/Numbers.antt =====
-- src/libdstdec/unpack_dst.c: what an accepted ReadMappingData leaves in the header of a frame.
use sacd_extract.Common.{
  ℕ, zero, suc, ◌+◌, ◌≤◌, ◌<◌, ◌≡◌, refl, inl, inr, arith, ltb, ◌==◌, if◌then◌else◌, update,
  Bool-cases,
}
use mathlib.Core.Path.{subst}
use sacd_extract.Dst.Stream.{Memory, StrData}
use sacd_extract.Dst.Unpack.{ok, ◌>>=◌, read_bits, give}
use sacd_extract.Dst.Unpack.Steps.{go_on-eq-ok}
use sacd_extract.Dst.Unpack.Reader.{IsReader, read_bits-eq-ok, ok-injective, err-ok}
use sacd_extract.Dst.Segments.{
  Segment, cell, maxnrof_fsegs, maxnrof_psegs, min_fseg_len, min_pseg_len,
}
use sacd_extract.Dst.Segments.Same.{IsSame, IsRow-same}
use sacd_extract.Dst.Mapping.{Counted, read_table_mapping_data, copy_mapping_data}
use sacd_extract.Dst.Mapping.Numbers.{IsNumbered}
use sacd_extract.Dst.Mapping.Loops.{IsBlock}
use sacd_extract.Dst.Mapping.Accepted.{read_table_mapping_data-IsNumbered}
use sacd_extract.Dst.Mapping.Reader.{read_table_mapping_data-IsReader}
use sacd_extract.Dst.Mapping.CopyNumbers.{copy_mapping_channels-HasNumbers}
use sacd_extract.Dst.Header.{FrameHeader}
use sacd_extract.Dst.Entry.{half_prob_loop, read_mapping_data}
use sacd_extract.Dst.Entry.Segments.{IsKept, IsSegmented, HasFilterRows, HasTableRows}

-- every segment of the channels has one of the tables
abbrev pub HasTables : ℕ → ℕ → Segment → Type 0
HasTables n tables s =
    (c j : ℕ) → c < n → j < s.nr_of_segments c → s.table4segment (cell c j) < tables

pub record IsMapped (fh : FrameHeader) : Type 0 where
  pub segments : IsSegmented fh
  pub filters : HasTables fh.nr_of_channels fh.nr_of_filters fh.f_seg
  pub tables : HasTables fh.nr_of_channels fh.nr_of_ptables fh.p_seg

numbered-HasTables :
    (n : ℕ) (s : Segment) (sc : Counted)
    → IsNumbered s (IsBlock s 0 n) sc
    → HasTables n sc.1 sc.0 × IsSame s sc.0
numbered-HasTables n s sc numbered = (
  (λ c j lt below. numbered.below (cell c j) (
    c,
    omega arith,
    omega (arith, lt),
    (j, refl, omega arith, omega (arith, below, numbered.same c)),
  )),
  record { rows = numbered.same; lens = numbered.same_len; resolution = numbered.same_resolution },
)

filter_rows_same :
    (frame_len n : ℕ) (s s' : Segment)
    → IsSame s s'
    → HasFilterRows frame_len n s
    → HasFilterRows frame_len n s'
filter_rows_same frame_len n s s' same rows c lt =
    IsRow-same frame_len maxnrof_fsegs min_fseg_len s s' c same (rows c lt)

table_rows_same :
    (frame_len n : ℕ) (s s' : Segment)
    → IsSame s s'
    → HasTableRows frame_len n s
    → HasTableRows frame_len n s'
table_rows_same frame_len n s s' same rows c lt =
    IsRow-same frame_len maxnrof_psegs min_pseg_len s s' c same (rows c lt)

module _ (m : Memory) (t : ℕ) where
  half_prob_loop-IsReader :
      (left j : ℕ) (half_prob : ℕ → ℕ) (sd : StrData) {half_prob' : ℕ → ℕ} {sd' : StrData}
      → IsReader m t sd
      → half_prob_loop left j half_prob sd ≡ ok half_prob' sd'
      → IsReader m t sd'
  unfolding half_prob_loop
  half_prob_loop-IsReader zero j half_prob sd at e = let (a, b) = ok-injective e in rw (← b) at
  half_prob_loop-IsReader (suc left) j half_prob sd at e =
      let (v, sd1, e1, e2) = go_on-eq-ok (read_bits 1 sd) _ e in
      let (less, at1) = read_bits-eq-ok m t 1 sd (omega arith) at e1 in
      half_prob_loop-IsReader left (j + 1) (update half_prob j v) sd1 at1 e2

  copy_mapping_data-IsMapped :
      (fh : FrameHeader) (sd : StrData) {fh' : FrameHeader} {sd' : StrData}
      → IsSegmented fh
      → HasTables fh.nr_of_channels fh.nr_of_filters fh.f_seg
      → IsReader m t sd
      → copy_mapping_data fh sd ≡ ok fh' sd'
      → IsMapped fh' × IsReader m t sd' × IsKept fh fh'
  unfolding copy_mapping_data
  copy_mapping_data-IsMapped fh sd {fh'} {sd'} segments filters at e =
      let (pc, sd1, e1, e2) = go_on-eq-ok _ _ e in
      let (copied, same, unread) =
        copy_mapping_channels-HasNumbers fh.f_seg fh.nr_of_channels 0 (fh.p_seg, 1) sd
          (λ c lt. omega (arith, (segments.filters c (omega (arith, lt))).few))
          (λ c lt. absurd (omega (arith, lt))) e1 in
      elim (Bool-cases (ltb fh.max_nr_of_ptables fh.nr_of_filters)) [
        | inl out ↦ absurd (err-ok (rw out at e2))
        | inr fits ↦
            let (a, b) = ok-injective (rw fits at e2) in
            let mapped : IsMapped (record fh {
              p_seg = pc.0;
              p_same_map_all_ch = pc.1;
              nr_of_ptables = fh.nr_of_filters;
            }) =
              record {
                segments = record {
                  filters = segments.filters;
                  tables =
                      table_rows_same fh.max_frame_len fh.nr_of_channels fh.p_seg pc.0 same
                        segments.tables;
                };
                filters = filters;
                tables = λ c j lt below.
                    let (numbers, rows) = copied c (omega (arith, lt)) in
                    let inside : j < fh.f_seg.nr_of_segments c = omega (arith, below, rows) in
                    rw (numbers j inside) (filters c j lt inside);
              } in
            subst (λ (x : FrameHeader). IsMapped x × IsReader m t sd' × IsKept fh x) a
              (
                mapped,
                rw (← b, unread) at,
                record { channels = refl; frame_len = refl; bits = refl; code_bits = refl },
              )
      ]

  table_numbers-IsMapped :
      (fh : FrameHeader) (sd : StrData) {fh' : FrameHeader} {sd' : StrData}
      → 1 ≤ fh.nr_of_channels
      → fh.nr_of_channels ≤ 6
      → IsSegmented fh
      → HasTables fh.nr_of_channels fh.nr_of_filters fh.f_seg
      → IsReader m t sd
      → (read_table_mapping_data fh.nr_of_channels fh.max_nr_of_ptables fh.p_seg >>= λ p.
            give (record fh { p_seg = p.0; nr_of_ptables = p.1; p_same_map_all_ch = p.2 }))
          sd
        ≡ ok fh' sd'
      → IsMapped fh' × IsReader m t sd' × IsKept fh fh'
  table_numbers-IsMapped fh sd {fh'} {sd'} some six segments filters at e =
      let (p, sd1, e1, e2) = go_on-eq-ok _ _ e in
      let (a, b) = ok-injective e2 in
      let (numbered, most) =
        read_table_mapping_data-IsNumbered fh.p_seg fh.nr_of_channels fh.max_nr_of_ptables sd e1 in
      let (tables, same) = numbered-HasTables fh.nr_of_channels fh.p_seg (p.0, p.1) numbered in
      let at1 =
        read_table_mapping_data-IsReader m t fh.nr_of_channels fh.max_nr_of_ptables fh.p_seg sd some
          six (λ c lt. omega (arith, (segments.tables c lt).few)) at e1 in
      let mapped : IsMapped
          (record fh { p_seg = p.0; nr_of_ptables = p.1; p_same_map_all_ch = p.2 }) =
        record {
          segments = record {
            filters = segments.filters;
            tables =
                table_rows_same fh.max_frame_len fh.nr_of_channels fh.p_seg p.0 same
                  segments.tables;
          };
          filters = filters;
          tables = tables;
        } in
      subst (λ (x : FrameHeader). IsMapped x × IsReader m t sd' × IsKept fh x) a
        (
          mapped,
          rw (← b) at1,
          record { channels = refl; frame_len = refl; bits = refl; code_bits = refl },
        )

  any_numbers-IsMapped :
      (fh : FrameHeader) (same : ℕ) (sd : StrData) {fh' : FrameHeader} {sd' : StrData}
      → 1 ≤ fh.nr_of_channels
      → fh.nr_of_channels ≤ 6
      → IsSegmented fh
      → HasTables fh.nr_of_channels fh.nr_of_filters fh.f_seg
      → IsReader m t sd
      → (if same == 1
            then copy_mapping_data fh
            else (read_table_mapping_data fh.nr_of_channels fh.max_nr_of_ptables fh.p_seg >>= λ p.
                give (record fh { p_seg = p.0; nr_of_ptables = p.1; p_same_map_all_ch = p.2 })))
          sd
        ≡ ok fh' sd'
      → IsMapped fh' × IsReader m t sd' × IsKept fh fh'
  any_numbers-IsMapped fh same sd some six segments filters at e = elim (Bool-cases (same == 1)) [
    | inl shared ↦ copy_mapping_data-IsMapped fh sd segments filters at (rw shared at e)
    | inr apart ↦ table_numbers-IsMapped fh sd some six segments filters at (rw apart at e)
  ]

  pub read_mapping_data-IsMapped :
      (fh : FrameHeader) (sd : StrData) {fh' : FrameHeader} {sd' : StrData}
      → 1 ≤ fh.nr_of_channels
      → fh.nr_of_channels ≤ 6
      → IsSegmented fh
      → IsReader m t sd
      → read_mapping_data fh sd ≡ ok fh' sd'
      → IsMapped fh' × IsReader m t sd' × IsKept fh fh'
  unfolding read_mapping_data
  read_mapping_data-IsMapped fh sd {fh'} {sd'} some six segments at e =
      let (same, sd1, e1, e2) = go_on-eq-ok (read_bits 1 sd) _ e in
      let (less, at1) = read_bits-eq-ok m t 1 sd (omega arith) at e1 in
      let (f, sd2, e3, e4) = go_on-eq-ok _ _ e2 in
      let (numbered, most) =
        read_table_mapping_data-IsNumbered fh.f_seg fh.nr_of_channels fh.max_nr_of_filters sd1 e3 in
      let at2 =
        read_table_mapping_data-IsReader m t fh.nr_of_channels fh.max_nr_of_filters fh.f_seg sd1
          some six (λ c lt. omega (arith, (segments.filters c lt).few)) at1 e3 in
      let (filters, kept) = numbered-HasTables fh.nr_of_channels fh.f_seg (f.0, f.1) numbered in
      let fh1 : FrameHeader = record fh {
        p_same_map_as_f = same;
        f_seg = f.0;
        nr_of_filters = f.1;
        f_same_map_all_ch = f.2;
      } in
      let segments1 : IsSegmented fh1 = record {
        filters =
            filter_rows_same fh.max_frame_len fh.nr_of_channels fh.f_seg f.0 kept segments.filters;
        tables = segments.tables;
      } in
      let (fh2, sd3, e5, e6) = go_on-eq-ok _ _ e4 in
      let (mapped, at3, kept2) =
        any_numbers-IsMapped fh1 same sd2 some six segments1 filters at2 e5 in
      let (half_prob, sd4, e7, e8) = go_on-eq-ok _ _ e6 in
      let at4 = half_prob_loop-IsReader fh.nr_of_channels 0 fh2.half_prob sd3 at3 e7 in
      let (a, b) = ok-injective e8 in
      let mapped' : IsMapped (record fh2 { half_prob = half_prob }) = record {
        segments = record { filters = mapped.segments.filters; tables = mapped.segments.tables };
        filters = mapped.filters;
        tables = mapped.tables;
      } in
      subst (λ (x : FrameHeader). IsMapped x × IsReader m t sd' × IsKept fh x) a
        (
          mapped',
          rw (← b) at4,
          record {
            channels = kept2.channels;
            frame_len = kept2.frame_len;
            bits = kept2.bits;
            code_bits = kept2.code_bits;
          },
        )
