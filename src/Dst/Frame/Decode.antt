-- ===== src/Dst/Frame/Decode.antt =====
-- A frame that is DST coded, decoded whole.
use sacd_extract.Common.{
  ℕ, ◌-◌, ◌*◌, ◌/◌, ◌%◌, ◌<◌, ◌≡◌, ◌≢◌, arith, Option, some, if◌then◌else◌, false, ◌==◌, ==_iff,
  lt→ltb,
}
use sacd_extract.Common.Options.{◌>>=◌}
use sacd_extract.Common.Int.{ℤ}
use sacd_extract.Dst.Stream.{Memory}
use sacd_extract.Dst.Arith.{
  AcData, lt_ac_decode_bit_init, lt_ac_decode_bit_decode, lt_ac_decode_bit_flush,
}
use sacd_extract.Dst.Arith.Interval.{IsValid, decode-IsValid}
use sacd_extract.Dst.Header.{FrameHeader}
use sacd_extract.Dst.Filter.{Status, lt_init_status}
use sacd_extract.Dst.Filter.History.{History, alternating}
use sacd_extract.Dst.Frame.{reverse7lsbs, set_bytes, decode_coded}
use sacd_extract.Dst.Frame.Reverse.{reverse7lsbs_lem}
use sacd_extract.Dst.Frame.Output.{out_bit, start-IsLinked, frame_output}
use sacd_extract.Dst.Frame.Reference.{IsDecodable, ref_bits, bit_loop_lem}

module _ (fh : FrameHeader) (p_one : ℕ → ℕ → ℕ) (a_data : Memory) (a_data_len : ℕ) where
  -- The histories of the channels behind the frame: one bit, which is not used, with a probability
  -- from the first coefficient, then the bits of the channels.
  pub ref_frame : Option ((ℕ → History) × AcData)
  ref_frame = do
    (unused, ac) ←
        lt_ac_decode_bit_decode (lt_ac_decode_bit_init a_data a_data_len)
          (reverse7lsbs (fh.i_coef_a 0 0)) a_data a_data_len
    ref_bits fh p_one a_data a_data_len fh.nr_of_bits_per_ch 0 (λ c. alternating) ac

  -- A frame whose header and tables are in range is decoded, where the code does not start with
  -- twelve ones. Where the flush answers 1, the output has the bits of the histories, in the order
  -- of time; else the output is 0x55 throughout.
  pub decode_coded_lem :
      (icoef_i : ℕ → ℕ → ℕ → ℤ) (status : ℕ → Status) (muxed_dsd : Memory)
      → ((i : ℕ) → a_data i < 2)
      → IsDecodable fh p_one
      → IsValid (lt_ac_decode_bit_init a_data a_data_len)
      → fh.nr_of_bits_per_ch % 8 ≡ 0
      → (hs : ℕ → History) × (ac : AcData) × (out : Memory) × (ref_frame ≡ some (hs, ac))
        × (decode_coded fh p_one a_data a_data_len icoef_i status muxed_dsd
            ≡ some ((lt_ac_decode_bit_flush ac a_data a_data_len).0, out))
        × ((lt_ac_decode_bit_flush ac a_data a_data_len).0 ≡ 1
            → (c k : ℕ) → c < fh.nr_of_channels
            → k < fh.nr_of_bits_per_ch
            → out_bit fh.nr_of_channels out c k ≡ hs c (fh.nr_of_bits_per_ch - 1 - k))
        × ((lt_ac_decode_bit_flush ac a_data a_data_len).0 ≢ 1
            → (i : ℕ) → i < fh.nr_of_bits_per_ch * fh.nr_of_channels / 8
            → out i ≡ 0x55)
  unfolding ref_frame decode_coded
  decode_coded_lem icoef_i status muxed_dsd bits ready v whole =
      let init : AcData = lt_ac_decode_bit_init a_data a_data_len in
      let nbits : ℕ = fh.nr_of_bits_per_ch in
      let (value, least, most) = reverse7lsbs_lem (fh.i_coef_a 0 0) in
      let (unused, ac0, d, small, v0, more, moved) =
        decode-IsValid a_data a_data_len bits init (reverse7lsbs (fh.i_coef_a 0 0)) v least most in
      let start = start-IsLinked fh.nr_of_channels nbits ac0 status muxed_dsd whole in
      let (hs, w, r, e, l, v1) =
        bit_loop_lem fh p_one a_data a_data_len bits ready icoef_i nbits
          (record {
            ac = ac0;
            status = lt_init_status fh.nr_of_channels status;
            muxed_dsd = set_bytes (nbits * fh.nr_of_channels / 8) 0 muxed_dsd;
          })
          (λ c. alternating) 0 start v0 (omega arith) in
      let flushed : ℕ = (lt_ac_decode_bit_flush w.ac a_data a_data_len).0 in
      (
        hs,
        w.ac,
        (if flushed == 1
            then w.muxed_dsd
            else set_bytes (nbits * fh.nr_of_channels / 8) 0x55 w.muxed_dsd),
        rw d r,
        rw (d, e),
        (λ f c k h inside. rw ((==_iff flushed 1).1 f) (frame_output l c k h inside)),
        (λ f i h.
            let off : (flushed == 1) ≡ false = ground arith in
            rw off (unfold set_bytes in rw (lt→ltb i (nbits * fh.nr_of_channels / 8) h))),
      )
