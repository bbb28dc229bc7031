-- ===== src/Dst/Segments/Reader.antt =====
-- src/libdstdec/unpack_dst.c: ReadTableSegmentData leaves a reader of the frame.
use sacd_extract.Common.{
  ℕ, zero, suc, ◌+◌, ◌-◌, ◌*◌, ◌/◌, ◌^◌, ◌≤◌, ◌<◌, ◌≡◌, ap, inl, inr, arith, Bool, true, false,
  ◌||◌, ltb, leb, ◌==◌, if◌then◌else◌, Bool-cases,
}
use native.Mathlib.Nat.{div-le_self}
use native.Mathlib.Decide.{dec_le}
use sacd_extract.Dst.Stream.{Memory, StrData}
use sacd_extract.Dst.Unpack.{ok, ◌>>=◌, read_bits, give, fail, invalid_segment_resolution}
use sacd_extract.Dst.Unpack.Steps.{go_on-eq-ok}
use sacd_extract.Dst.Unpack.Reader.{IsReader, read_bits-eq-ok, ok-injective, err-ok, stuck-ok}
use sacd_extract.Dst.Rice.{log2_round_up}
use sacd_extract.Dst.Rice.Log2.{log2_round_up_lem}
use sacd_extract.Dst.Segments.{
  Segment, Progress, read_resolution, add_segment, read_length, read_segment, next_channel,
  shared_loop, channels_loop, read_table_segment_data,
}

-- the width of a number below 2 ^ 32
pub log2_round_up-le : (x : ℕ) → x < 2 ^ 32 → log2_round_up x ≤ 32
log2_round_up-le x small = elim (dec_le (log2_round_up x) 32) [
  | yes fits ↦ fits
  | no wide ↦ absurd (omega (arith, small, (log2_round_up_lem x).1 32 (omega (arith, wide))))
]

module _ (m : Memory) (t frame_len max_nr_of_segs min_seg_len : ℕ)
    (short : frame_len < 2 ^ 32) where
  -- A reader, and a size that a field can hold.
  abbrev IsGood : Progress → StrData → Type 0
  IsGood pr sd = (pr.max_seg_size ≤ frame_len) × IsReader m t sd

  resolution_choice :
      (pr : Progress) (read : Bool) (sd : StrData) {pr' : Progress} {sd' : StrData}
      → IsGood pr sd
      → (if read
            then give pr
            else (read_bits (log2_round_up (frame_len - min_seg_len / 8)) >>= λ resolution.
                if resolution == 0 || ltb (frame_len - min_seg_len / 8) resolution
                then fail invalid_segment_resolution
                else give (record pr {
                  seg = record (pr.seg) { resolution = resolution };
                  resol_read = true;
                })))
          sd
        ≡ ok pr' sd'
      → IsGood pr' sd'
  resolution_choice pr true sd good e =
      let (a, b) = ok-injective e in
      (omega (arith, good.0, ap (λ (x : Progress). x.max_seg_size) a), rw (← b) good.1)
  resolution_choice pr false sd (size, at) e =
      let (resolution, sd1, e1, e2) = go_on-eq-ok (read_bits _ sd) _ e in
      let width : log2_round_up (frame_len - min_seg_len / 8) ≤ 32 =
        log2_round_up-le _ (omega (arith, short)) in
      let (less, at1) = read_bits-eq-ok m t _ sd width at e1 in
      let bad : Bool = resolution == 0 || ltb (frame_len - min_seg_len / 8) resolution in
      elim (Bool-cases bad) [
        | inl out ↦ absurd (err-ok (rw out at e2))
        | inr fits ↦
            let (a, b) = ok-injective (rw fits at e2) in
            (omega (arith, size, ap (λ (x : Progress). x.max_seg_size) a), rw (← b) at1)
      ]

  read_resolution-IsGood :
      (pr : Progress) (sd : StrData) {pr' : Progress} {sd' : StrData}
      → IsGood pr sd
      → read_resolution frame_len max_nr_of_segs min_seg_len pr sd ≡ ok pr' sd'
      → IsGood pr' sd'
  unfolding read_resolution
  read_resolution-IsGood pr sd good e = resolution_choice pr pr.resol_read sd good e

  read_segment-IsGood :
      (ch_nr : ℕ) (pr : Progress) (sd : StrData) {pr' : Progress} {sd' : StrData}
      → IsGood pr sd
      → read_segment frame_len max_nr_of_segs min_seg_len ch_nr pr sd ≡ ok pr' sd'
      → IsGood pr' sd'
  unfolding read_segment read_length add_segment
  read_segment-IsGood ch_nr pr sd good e =
      let (pr1, sd1, e1, e2) = go_on-eq-ok _ _ e in
      let (size, at) = read_resolution-IsGood pr sd good e1 in
      let (len, sd2, e3, e4) = go_on-eq-ok (read_bits _ sd1) _ e2 in
      let width : log2_round_up (pr1.max_seg_size / pr1.seg.resolution) ≤ 32 =
        log2_round_up-le _
          (omega (arith, size, short, div-le_self pr1.max_seg_size pr1.seg.resolution)) in
      let (less, at') = read_bits-eq-ok m t _ sd1 width at e3 in
      let bits : ℕ = pr1.seg.resolution * 8 * len in
      let under : Bool = ltb bits min_seg_len in
      let over : Bool = ltb (frame_len * 8) (bits + pr1.defined_bits + min_seg_len) in
      elim (Bool-cases (under || over)) [
        | inl out ↦ absurd (err-ok (rw out at e4))
        | inr fits ↦
            let (a, b) = ok-injective (rw fits at e4) in
            (omega (arith, size, ap (λ (x : Progress). x.max_seg_size) a), rw (← b) at')
      ]

  shared_loop-IsGood :
      (fuel end : ℕ) (pr : Progress) (sd : StrData) {pr' : Progress} {sd' : StrData}
      → IsGood pr sd
      → shared_loop frame_len max_nr_of_segs min_seg_len fuel end pr sd ≡ ok pr' sd'
      → IsReader m t sd'
  unfolding shared_loop
  shared_loop-IsGood zero end pr sd good e = absurd (stuck-ok e)
  shared_loop-IsGood (suc fuel) end pr sd good e = elim (Bool-cases (end == 0)) [
    | inr over ↦ let (a, b) = ok-injective (rw over at e) in rw (← b) good.1
    | inl more ↦ elim (Bool-cases (leb max_nr_of_segs pr.seg_nr)) [
      | inl full ↦ absurd (err-ok (rw (more, full) at e))
      | inr room ↦
          let (pr1, sd1, e1, e2) = go_on-eq-ok _ _ (rw (more, room) at e) in
          let (size, at) = read_segment-IsGood 0 pr sd good e1 in
          let (end', sd2, e3, e4) = go_on-eq-ok (read_bits 1 sd1) _ e2 in
          let (less, at') = read_bits-eq-ok m t 1 sd1 (omega arith) at e3 in
          shared_loop-IsGood fuel end' pr1 sd2 (size, at') e4
    ]
  ]

  channels_loop-IsGood :
      (fuel n ch_nr : ℕ) (pr : Progress) (sd : StrData) {pr' : Progress} {sd' : StrData}
      → IsGood pr sd
      → channels_loop frame_len max_nr_of_segs min_seg_len fuel n ch_nr pr sd ≡ ok pr' sd'
      → IsReader m t sd'
  unfolding channels_loop next_channel
  channels_loop-IsGood zero n ch_nr pr sd good e = absurd (stuck-ok e)
  channels_loop-IsGood (suc fuel) n ch_nr pr sd (size, at) e = elim (Bool-cases (ltb ch_nr n)) [
    | inr over ↦ let (a, b) = ok-injective (rw over at e) in rw (← b) at
    | inl more ↦ elim (Bool-cases (leb max_nr_of_segs pr.seg_nr)) [
      | inl full ↦ absurd (err-ok (rw (more, full) at e))
      | inr room ↦
          let (end, sd1, e1, e2) = go_on-eq-ok (read_bits 1 sd) _ (rw (more, room) at e) in
          let (less, at1) = read_bits-eq-ok m t 1 sd (omega arith) at e1 in
          elim (Bool-cases (end == 0)) [
            | inl again ↦
                let (pr1, sd2, e3, e4) = go_on-eq-ok _ _ (rw again at e2) in
                channels_loop-IsGood fuel n ch_nr pr1 sd2
                  (read_segment-IsGood ch_nr pr sd1 (size, at1) e3) e4
            | inr done ↦
                channels_loop-IsGood fuel n (ch_nr + 1) _ sd1 (omega arith, at1) (rw done at e2)
          ]
    ]
  ]

  pub read_table_segment_data-IsReader :
      (n : ℕ) (s : Segment) (sd : StrData) {s' : Segment} {same : ℕ} {sd' : StrData}
      → IsReader m t sd
      → read_table_segment_data frame_len max_nr_of_segs min_seg_len n s sd ≡ ok (s', same) sd'
      → IsReader m t sd'
  unfolding read_table_segment_data
  read_table_segment_data-IsReader n s sd at e =
      let (same, sd1, e1, e2) = go_on-eq-ok (read_bits 1 sd) _ e in
      let (less, at1) = read_bits-eq-ok m t 1 sd (omega arith) at e1 in
      elim (Bool-cases (same == 1)) [
        | inl shared ↦
            let (end, sd2, e3, e4) = go_on-eq-ok (read_bits 1 sd1) _ (rw shared at e2) in
            let (less', at2) = read_bits-eq-ok m t 1 sd1 (omega arith) at1 e3 in
            let (pr, sd3, e5, e6) = go_on-eq-ok _ _ e4 in
            let (a, b) = ok-injective e6 in
            rw (← b) (shared_loop-IsGood (max_nr_of_segs + 2) end _ sd2 (omega arith, at2) e5)
        | inr apart ↦
            let (pr, sd2, e3, e4) = go_on-eq-ok _ _ (rw apart at e2) in
            let (a, b) = ok-injective e4 in
            rw (← b)
              (channels_loop-IsGood (n * (max_nr_of_segs + 1) + 1) n 0 _ sd1 (omega arith, at1) e3)
      ]
