-- ===== src/Dst/Mapping/Tests.antt =====
-- A frame of two channels that have the same table.
use sacd_extract.Common.{◌≤◌, ◌≡◌, refl, get_or, [], ◌∷◌, arith}
use sacd_extract.Dst.Stream.{Memory}
use sacd_extract.Dst.Stream.Cursor.{at, word_at}
use sacd_extract.Dst.Unpack.{ok}
use sacd_extract.Dst.Unpack.Steps.{read_bits_held}
use sacd_extract.Dst.Segments.{Segment, cell}
use sacd_extract.Dst.Mapping.{
  read_table_mapping_data, number_loop, same_numbers, copy_numbers, set_table,
}
use sacd_extract.Dst.Mapping.Numbers.{IsNumbered}
use sacd_extract.Dst.Mapping.Loops.{IsBlock}
use sacd_extract.Dst.Mapping.Accepted.{read_table_mapping_data-IsNumbered}

abbrev frame : Memory
frame i = get_or (0x80 ∷ []) i 0

abbrev one_segment : Segment
one_segment = record {
  resolution = 1;
  segment_len = λ i. 0;
  nr_of_segments = λ c. 1;
  table4segment = λ i. 9;
}

abbrev mapped : Segment
mapped = copy_numbers 1 0 1 (set_table one_segment (cell 0 0) 0)

accepted : read_table_mapping_data 2 4 one_segment (at frame 1 0) ≡ ok (mapped, 1, 1) (at frame 1 1)
unfolding read_table_mapping_data number_loop same_numbers word_at
accepted = rw (read_bits_held frame 1 0 1 (omega arith) (omega arith)) refl

read_table_mapping_data-IsNumbered_example :
    IsNumbered one_segment (IsBlock one_segment 0 2) (mapped, 1) × (1 ≤ 4)
read_table_mapping_data-IsNumbered_example =
    read_table_mapping_data-IsNumbered one_segment 2 4 (at frame 1 0) accepted
