-- ===== src/Dst/Entry/Tests.antt =====
-- The code of a small frame, 40 bits from bit 3 on.
mod Accepted
use sacd_extract.Common.{◌+◌, ◌≡◌, arith, get_or, [], ◌∷◌}
use sacd_extract.Dst.Stream.{Memory}
use sacd_extract.Dst.Stream.Cursor.{at}
use sacd_extract.Dst.Unpack.{ok}
use sacd_extract.Dst.Entry.{read_arithmetic_coded_data}
use sacd_extract.Dst.Entry.Code.{HasBits, read_arithmetic_coded_data-HasBits}

abbrev frame : Memory
frame i = get_or (0x12 ∷ 0x34 ∷ 0x56 ∷ 0x78 ∷ 0x9a ∷ 0xbc ∷ []) i 0

abbrev zeros : Memory
zeros i = 0

read_arithmetic_coded_data-HasBits_example :
    (a' : Memory) × (read_arithmetic_coded_data 40 zeros (at frame 6 3)
      ≡ ok a' (at frame 6 (3 + 40)))
    × HasBits frame 6 3 0 40 zeros a'
read_arithmetic_coded_data-HasBits_example =
    read_arithmetic_coded_data-HasBits frame 6 3 40 zeros (omega arith)
