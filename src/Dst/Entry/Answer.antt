-- ===== src/Dst/Entry/Answer.antt =====
-- src/libdstdec/dst_fram.c: what DST_FramDSTDecode answers for a frame that UnpackDSTframe accepts.
use sacd_extract.Common.{ℕ, ◌*◌, ◌<◌, ◌≡◌, ◌⊎◌, Option, some, none}
use sacd_extract.Dst.Stream.{Memory}
use sacd_extract.Dst.Unpack.{DstErr, arithmetic_decoder}
use sacd_extract.Dst.Entry.{Ebunch}

-- the decoder with the number and the size of a frame
abbrev pub framed : Ebunch → ℕ → ℕ → Ebunch
framed d frame_size frame_cnt = record d {
  frame_hdr = record (d.frame_hdr) {
    frame_nr = frame_cnt;
    calc_nr_of_bytes = frame_size;
    calc_nr_of_bits = frame_size * 8;
  };
}

-- The DSD data are the bits decoded, or 0x55 throughout.
abbrev pub IsAnswer : ℕ → Option DstErr → Memory → Type 0
IsAnswer size code out =
    (code ≡ none) ⊎ ((code ≡ some arithmetic_decoder) × ((i : ℕ) → i < size → out i ≡ 0x55))
