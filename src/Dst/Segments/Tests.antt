-- ===== src/Dst/Segments/Tests.antt =====
-- A frame of two channels that share two segments.
use sacd_extract.Common.{◌-◌, ◌/◌, get_or, true, [], ◌∷◌}
use sacd_extract.Dst.Stream.{Memory}
use sacd_extract.Dst.Segments.{Segment, Progress, add_segment, end_row, copy_channels}

-- one bit that all channels share, one to go on, 147 in 13 bits, 16 in 5 bits, and one to end
abbrev frame : Memory
frame i = get_or (0x81 ∷ 0x27 ∷ 0x08 ∷ []) i 0

abbrev empty : Segment
empty = record {
  resolution = 0;
  segment_len = λ i. 0;
  nr_of_segments = λ c. 0;
  table4segment = λ i. 0;
}

abbrev read_once : Progress
read_once = add_segment 4704 4 1024 0 16 (record {
  seg = record empty { resolution = 147 };
  seg_nr = 0;
  defined_bits = 0;
  max_seg_size = 4704 - 1024 / 8;
  resol_read = true;
})

abbrev two_segments : Segment
two_segments = copy_channels 4704 4 1024 1 1 (end_row 4704 4 1024 0 read_once)
