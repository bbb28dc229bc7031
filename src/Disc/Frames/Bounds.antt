-- ===== src/Disc/Frames/Bounds.antt =====
-- The buffer of the frame, and the return value of scarletbook_process_frames.
use sacd_extract.Common.{◌≤◌, ◌≡◌, length}
use sacd_extract.Disc.Frames.{Run, max_dst_size}

-- What has been written of the frame lies in its buffer, and the frames that the callback has got are counted.
pub record IsBounded (r : Run) : Type 0 where
  pub room : r.handle.frame.size ≤ max_dst_size
  pub counted : r.nr_frames ≡ length r.frames
