-- ===== src/Dst/Entry/Accepted.antt =====
-- src/libdstdec/unpack_dst.c: what an accepted UnpackDSTframe leaves in the decoder.
use sacd_extract.Common.{◌<◌, ℕ}
use sacd_extract.Dst.Stream.{Memory}
use sacd_extract.Dst.Ptables.{Ptables}
use sacd_extract.Dst.Frame.Whole.{IsReady}
use sacd_extract.Dst.Entry.{Ebunch}
use sacd_extract.Dst.Entry.Segments.{IsKept}

abbrev pub HoldsBits : Memory → Type 0
HoldsBits a_data = (i : ℕ) → a_data i < 2

module _ (m : Memory) (t : ℕ) where
  -- what the unpacked decoder is for the frame
  abbrev pub IsUnpacked : Ebunch → Ebunch → Type 0
  IsUnpacked d d' =
      IsReady d'.frame_hdr d'.p_one × IsKept d.frame_hdr d'.frame_hdr × HoldsBits d'.a_data
